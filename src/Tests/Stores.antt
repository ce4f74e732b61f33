-- ===== src/Tests/Stores.antt =====
-- Tests of app/execution/sqlalchemy_idempotency.py at concrete inputs.
use sarkfxbot.Base.Text.{is_blank}
use sarkfxbot.Base.{subst, String, true, none, some, List, [], ◌∷◌, ◌≡◌, ◌≢◌, refl}
use sarkfxbot.Base.Dict.{lookup, insert}
use sarkfxbot.Base.Decimal.{side}
use sarkfxbot.Base.Exec.{Result, ok}
use sarkfxbot.Domain.Orders.{OrderRequest, make_request}
use sarkfxbot.Execution.Idempotency.{IdempotencyStatus, Change, new_record}
use sarkfxbot.Execution.Payloads.{
  request_payload, request_from_payload, report_payload, report_of, report_from_payload,
}
use sarkfxbot.Execution.Json.{decimals_of}
use sarkfxbot.Execution.Payloads.RoundTrips.{IsStorable, IsReportable, request-back, report-back}
use sarkfxbot.Execution.SqlStore.{claim_sync, is_there, violates}
use sarkfxbot.Execution.Attempts.{Table, record_of}
use sarkfxbot.Execution.SqlStore.Rows.{IsUsual}
use sarkfxbot.Execution.SqlStore.Refines.{
  StoreCall, Represents, run_sql, run_memory, run_sql-Refines,
}
use sarkfxbot.Execution.SqlStore.Races.{claim_sync_once}
use sarkfxbot.Tests.Fixtures.{now, request, report}

request-IsStorable : IsStorable request
unfolding make_request side is_blank
request-IsStorable = record { valid = refl; requested = refl; lowest = refl; highest = refl }

report-IsReportable : IsReportable report
unfolding side
report-IsReportable = record { ticket = refl; code = tt; requested = refl; executed = refl }

request-back_example : request_from_payload (request_payload request) ≡ ok request
request-back_example = request-back request request-IsStorable

report_read : report_of (report_payload report) ≡ ok report
report_read = report-back report report-IsReportable

abbrev sent : Change
sent = record { status = IdempotencyStatus.submitted; now = now; report = none; reason = "sent" }

abbrev done : Change
done = record { status = IdempotencyStatus.succeeded; now = now; report = some report; reason = "" }

sent-IsUsual : IsUsual sent
sent-IsUsual = record { ends = λ r e. absurd (cc); readable = λ r e. absurd (cc) }

done-IsUsual : IsUsual done
done-IsUsual = record {
  ends = λ r e. refl;
  readable = λ r e. let same : report ≡ r = cc in subst IsReportable same report-IsReportable;
}

abbrev own : String → String
own k = k

empty-Represents : Represents own [] []
unfolding lookup
empty-Represents = record { matches = λ k. tt; ordered = tt }

abbrev calls : List StoreCall
calls =
    StoreCall.claim_call request now
    ∷ StoreCall.update_call "7:s" sent
    ∷ StoreCall.claim_call request now
    ∷ StoreCall.update_call "7:s" done
    ∷ StoreCall.get_call "7:s"
    ∷ []

run_sql-Refines_example : run_sql own calls [] ≡ run_memory calls []
run_sql-Refines_example =
    run_sql-Refines own (λ i j e. e) calls [] [] empty-Represents
      (request-IsStorable, (sent-IsUsual, (request-IsStorable, (done-IsUsual, (tt, tt)))))

abbrev resolve : OrderRequest → Result String
resolve q = ok q.idempotency_key

abbrev quiet : Table → Table
quiet t = t

wins : (claim_sync resolve quiet request now []).0 ≡ ok (new_record request now, true)
unfolding claim_sync violates lookup insert record_of request_from_payload request_payload
    report_from_payload decimals_of make_request side is_blank
wins = refl

claim_sync_once_example :
    (lookup "7:s" (quiet []) ≡ none)
    × (is_there (lookup "7:s" (claim_sync resolve quiet request now []).1) ≡ true)
    × ((claim_sync resolve quiet request now (claim_sync resolve quiet request now []).1).0
        ≢ ok (new_record request now, true))
claim_sync_once_example =
    claim_sync_once resolve resolve quiet quiet quiet request request now now []
      (new_record request now) (new_record request now) wins (λ u h. h) refl
