-- ===== src/Execution/SingleSend/Steps.antt =====
-- The single steps of app/execution/executor.py and the submissions of a key: which steps keep the
-- invariant, and what a claim, a SUBMITTED record and a submission change.
use sarkfxbot.Base.{
  ◌≤◌, String, str_eq, eq_iff, ◌≡◌, refl, sym, ap, ◌∙◌, inl, inr, Bool, true, Option, none, some,
  ◌∷◌, arith, Bool-cases, Option-cases, if◌then◌else◌,
}
use sarkfxbot.Base.Dict.{lookup, insert, lookup-insert}
use sarkfxbot.Base.Exec.{Result, ok, Exec}
use sarkfxbot.Domain.Enums.{is_market}
use sarkfxbot.Domain.Models.{Timestamp}
use sarkfxbot.Domain.Orders.{OrderRequest, ExecutionReport}
use sarkfxbot.Brokers.Port.{Broker, Call, Trace, ask}
use sarkfxbot.Brokers.Avoids.{is_send, IsKind, Avoids}
use sarkfxbot.Risk.CircuitBreaker.{CircuitStore}
use sarkfxbot.Execution.Idempotency.{
  IdempotencyStatus, claimed, submitted, succeeded, protection_failed, rejected, unknown,
  ExecutionRecord, RecordStore, new_record, claim, may_become, Change, update,
}
use sarkfxbot.Execution.Idempotency.Laws.{
  claim_taken, claim_free, updated, lookup-update, update-eq-ok,
}
use sarkfxbot.Base.Ensures.{Ensures, Keeps, Post-of}
use sarkfxbot.Execution.World.{World, on_broker, on_records, on_circuits}
use sarkfxbot.Execution.Submission.{place}
use sarkfxbot.Execution.SingleSend.{sends_key, sends, room_in, room_of, room, IsSingle}

pub IsKind-sends : (key : String) → IsKind is_send (sends_key key)
IsKind-sends key (Call.place_market_order q) h = ground arith
IsKind-sends key (Call.place_pending_order q) h = ground arith
IsKind-sends key c h = refl

no_claim_again : (s : IdempotencyStatus) → may_become s claimed ≡ true → ⊥
no_claim_again claimed h = ground arith
no_claim_again submitted h = ground arith
no_claim_again succeeded h = ground arith
no_claim_again protection_failed h = ground arith
no_claim_again rejected h = ground arith
no_claim_again unknown h = ground arith

room_in_changed : (s t : IdempotencyStatus) → may_become s t ≡ true → room_in t ≡ 1
room_in_changed s claimed h = absurd (no_claim_again s h)
room_in_changed s t h = refl

pub room_in-le-one : (s : IdempotencyStatus) → room_in s ≤ 1
room_in-le-one claimed = omega arith
room_in-le-one s = omega arith

-- Changing a record never takes its submission back.
room-updated : (c : Change) (o : Option ExecutionRecord) → room_of o ≤ room_of (updated c o)
room-updated c none = omega arith
room-updated c (some r) = elim (Bool-cases (may_become r.status c.status)) [
  | inl allowed ↦ ground (arith, room_in_changed r.status c.status allowed, room_in-le-one r.status)
  | inr refused ↦ ground arith
]

room-update :
    (j key : String) (c : Change) (records : RecordStore)
    → room j records ≤ room j (update key c records).1
room-update j key c records =
    ground (arith, lookup-update key c records j, room-updated c (lookup j records))

pub update-Keeps : (j key : String) (c : Change) → Keeps (IsSingle j) (on_records (update key c))
update-Keeps j key c = record {
  post = λ w h.
      let kept : sends j w.calls ≤ room j (update key c w.records).1 =
        omega (arith, h, room-update j key c w.records) in
      Post-of (IsSingle j) (λ _ w. IsSingle j w) (update key c w.records).0
        (record w { records = (update key c w.records).1 }) (λ _ _. kept) (λ _ _. kept);
}

-- A predicate that depends on the submissions of the key and the records only.
abbrev pub Reads : String → (World → Type 0) → Type 0
Reads j I =
    (w : World) (calls : Trace)
    → sends j calls ≡ sends j w.calls
    → I w
    → I (record w { calls = calls })

module _ (j : String) {A : Type 0} where
  pub on_broker-Keeps :
      (I : World → Type 0) (m : Exec Trace A)
      → Reads j I
      → Avoids (sends_key j) m
      → Keeps I (on_broker m)
  on_broker-Keeps I m reads a = record {
    post = λ w h.
        let kept = reads w (m w.calls).1 (a.same_count w.calls) h in
        Post-of I (λ _. I) (m w.calls).0 (record w { calls = (m w.calls).1 }) (λ _ _. kept)
          (λ _ _. kept);
  }

  pub on_circuits-Keeps : (m : Exec CircuitStore A) → Keeps (IsSingle j) (on_circuits m)
  on_circuits-Keeps m = record {
    post = λ w h.
        Post-of (IsSingle j) (λ _. IsSingle j) (m w.circuits).0
          (record w { circuits = (m w.circuits).1 }) (λ _ _. h) (λ _ _. h);
  }

-- The key of the request has no submission yet, if `b` holds.
abbrev pub Unsent : String → Bool → World → Type 0
Unsent j b w = IsSingle j w × (b ≡ true → sends j w.calls ≡ 0)

-- It has none, and its record allows one.
abbrev pub IsReady : String → Bool → World → Type 0
IsReady j b w = IsSingle j w × (b ≡ true → (sends j w.calls ≡ 0) × (room j w.records ≡ 1))

module _ (j : String) (q : OrderRequest) where
  abbrev pub mine : Bool
  mine = str_eq q.idempotency_key j

  claimed_first :
      (now : Timestamp) (w : World)
      → IsSingle j w
      → lookup q.idempotency_key w.records ≡ none
      → Unsent j mine (record w { records = insert q.idempotency_key (new_record q now) w.records })
  claimed_first now w h e = elim (Bool-cases mine) [
    | inl same ↦
        let absent : lookup j w.records ≡ none =
          ap (λ k. lookup k w.records) (sym ((eq_iff q.idempotency_key j).0 same)) ∙ e in
        (
          ground (arith, lookup-insert q.idempotency_key j (new_record q now) w.records),
          λ _. ground arith,
        )
    | inr other ↦ (
      ground (arith, lookup-insert q.idempotency_key j (new_record q now) w.records),
      λ same. ground arith,
    )
  ]

  pub claim-Ensures :
      (now : Timestamp)
      → Ensures
          (IsSingle j)
          (IsSingle j)
          (on_records (claim q now))
          (λ a. if a.1 then Unsent j mine else IsSingle j)
  claim-Ensures now = record {
    post = λ w h. elim (Option-cases (lookup q.idempotency_key w.records)) [
      | inl e ↦ rw (claim_free q now w.records e) (claimed_first now w h e)
      | inr (old, e) ↦ rw (claim_taken q now w.records old e) h
    ];
  }

  pub submitted-Ensures :
      (c : Change)
      → c.status ≡ submitted
      → Ensures
          (IsSingle j)
          (Unsent j mine)
          (on_records (update q.idempotency_key c))
          (λ _. IsReady j mine)
  submitted-Ensures c e = record {
    post = λ w h.
        Post-of (IsSingle j) (λ _. IsReady j mine) (update q.idempotency_key c w.records).0
          (record w { records = (update q.idempotency_key c w.records).1 })
          (λ new d. (single w h.0, λ same. (h.1 same, ready w new d same))) (λ _ _. single w h.0);
  }
    where
      single :
          (w : World)
          → IsSingle j w
          → IsSingle j (record w { records = (update q.idempotency_key c w.records).1 })
      single w h = omega (arith, h, room-update j q.idempotency_key c w.records)

      ready :
          (w : World) (new : ExecutionRecord)
          → (update q.idempotency_key c w.records).0 ≡ ok new
          → mine ≡ true
          → room j (update q.idempotency_key c w.records).1 ≡ 1
      ready w new d same =
          let (r, found, allowed, _) = update-eq-ok q.idempotency_key c w.records new d in
          let here : lookup j w.records ≡ some r =
            ap (λ k. lookup k w.records) (sym ((eq_iff q.idempotency_key j).0 same)) ∙ found in
          ground (
            arith,
            lookup-update q.idempotency_key c w.records j,
            room_in_changed r.status c.status allowed,
          )

  asked-Ensures :
      (call : Call) (answer : Trace → Result ExecutionReport)
      → sends_key j call ≡ mine
      → Ensures (IsSingle j) (IsReady j mine) (on_broker (ask call answer)) (λ _. IsSingle j)
  asked-Ensures call answer e = record {
    post = λ w h.
        let kept : IsSingle j (record w { calls = call ∷ w.calls }) = sent w h in
        Post-of (IsSingle j) (λ _. IsSingle j) (answer w.calls)
          (record w { calls = call ∷ w.calls }) (λ _ _. kept) (λ _ _. kept);
  }
    where
      sent : (w : World) → IsReady j mine w → IsSingle j (record w { calls = call ∷ w.calls })
      sent w (h, k) = elim (Bool-cases mine) [
        | inl same ↦ let (none_yet, one) = k same in ground arith
        | inr other ↦ ground arith
      ]

  pub place-Ensures :
      (b : Broker) → Ensures (IsSingle j) (IsReady j mine) (on_broker (place b q)) (λ _. IsSingle j)
  unfolding place
  place-Ensures b = elim (Bool-cases (is_market q.order_type)) [
    | inl market ↦ rw market (asked-Ensures (Call.place_market_order q) _ refl)
    | inr pending ↦ rw pending (asked-Ensures (Call.place_pending_order q) _ refl)
  ]
