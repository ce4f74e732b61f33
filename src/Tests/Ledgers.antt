-- ===== src/Tests/Ledgers.antt =====
-- Tests of app/execution/reconciliation.py: a broker with one position, and a ledger with another
-- one.
use sarkfxbot.Base.{String, true, false, some, [], ◌∷◌, ◌≡◌, refl, ◌⊎◌}
use sarkfxbot.Base.Dict.{lookup, insert}
use sarkfxbot.Base.Dict.Keys.{insert-Keyed, collect}
use sarkfxbot.Base.Exec.{ok}
use sarkfxbot.Brokers.Port.{Broker}
use sarkfxbot.Execution.Reconciliation.{
  Recovery, ReconciliationReport, reconcile, settle, run_pass, shown_by, local_of, restore_all,
  retire_all,
}
use sarkfxbot.Execution.Ledgers.{Entry, LedgerStatus}
use sarkfxbot.Execution.Reconciliation.Passes.{
  HasLedgers, Shows, InLine, reconcile-InLine, reconcile_again, reconcile-IsUntouched,
}
use sarkfxbot.Domain.Orders.{BrokerPosition, BrokerOrder}
use sarkfxbot.Tests.Fixtures.{now, mock, position, health}

abbrev holding : Broker
holding = record mock { get_positions = λ name calls. ok (position ∷ []) }

-- The broker cannot be reached.
abbrev away : Broker
away = record mock { health_check = λ calls. ok (record health { connected = false }) }

abbrev old : Entry BrokerPosition
old = record {
  item = record position { ticket = "3" };
  status = LedgerStatus.opened;
  recovered = false;
  updated_at = now;
}

abbrev ledger : Recovery
ledger = record { calls = []; positions = ("3", old) ∷ []; orders = [] }

no_key : (j : String) (v : Entry BrokerPosition) → lookup j [] ≡ some v → v.item.ticket ≡ j
unfolding lookup
no_key j v e = absurd (cc)

no_order : (j : String) (v : Entry BrokerOrder) → lookup j [] ≡ some v → v.item.ticket ≡ j
unfolding lookup
no_order j v e = absurd (cc)

ledger-HasLedgers : HasLedgers ledger
unfolding lookup insert
ledger-HasLedgers = record {
  positions = record {
    unique = (refl, tt);
    keyed = insert-Keyed (λ (e : Entry BrokerPosition). e.item.ticket) "3" old [] refl no_key;
  };
  orders = record { unique = tt; keyed = no_order };
}

holding-Shows : (w : Recovery) → Shows holding w (position ∷ []) []
holding-Shows w = record {
  health = health;
  answered = refl;
  healthy = refl;
  connected = refl;
  positions = refl;
  orders = refl;
}

-- The pass recovers the position of the broker and closes the other one.
both :
    (reconcile holding ledger).0
    ≡ ok (record {
      healthy = true;
      incidents =
          record {
            code = "BROKER_POSITION_RECOVERED";
            ticket = "11";
            detail = "broker position restored to ledger";
          }
          ∷ record {
            code = "LEDGER_POSITION_MARKED_CLOSED";
            ticket = "3";
            detail = "position absent at healthy broker";
          }
          ∷ [];
      recovered_positions = 1;
      recovered_orders = 0;
      closed_positions = 1;
      cancelled_orders = 0;
    })
unfolding reconcile settle run_pass shown_by local_of collect restore_all retire_all lookup insert
both = refl

reconcile-InLine_example :
    ((r : ReconciliationReport) × ((reconcile holding ledger).0 ≡ ok r) × (r.healthy ≡ true))
    × InLine (position ∷ []) [] (reconcile holding ledger).1
    × HasLedgers (reconcile holding ledger).1
reconcile-InLine_example =
    reconcile-InLine holding ledger (position ∷ []) [] ledger-HasLedgers (holding-Shows ledger)

abbrev after : Recovery
after = (reconcile holding ledger).1

reconcile_again_example :
    ((reconcile holding after).0
      ≡ ok (record {
        healthy = true;
        incidents = [];
        recovered_positions = 0;
        recovered_orders = 0;
        closed_positions = 0;
        cancelled_orders = 0;
      }))
    × ((reconcile holding after).1.positions ≡ after.positions)
    × ((reconcile holding after).1.orders ≡ after.orders)
reconcile_again_example =
    reconcile_again holding after (position ∷ []) []
      (reconcile-InLine holding ledger (position ∷ []) [] ledger-HasLedgers
        (holding-Shows ledger)).2
      (reconcile-InLine holding ledger (position ∷ []) [] ledger-HasLedgers
        (holding-Shows ledger)).1
      (holding-Shows after)

reconcile-IsUntouched_example :
    ((r : ReconciliationReport) × ((reconcile away ledger).0 ≡ ok r) × (r.healthy ≡ true))
    ⊎ (((reconcile away ledger).1.positions ≡ ledger.positions)
        × ((reconcile away ledger).1.orders ≡ ledger.orders))
reconcile-IsUntouched_example = reconcile-IsUntouched away ledger
