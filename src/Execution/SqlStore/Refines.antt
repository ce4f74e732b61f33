-- ===== src/Execution/SqlStore/Refines.antt =====
-- The SQL store of app/execution/sqlalchemy_idempotency.py against the in-memory one.
use sarkfxbot.Base.{
  ◌≡◌, refl, sym, ap, ◌∙◌, false, Bool, Option, none, some, List, [], ◌∷◌, String, str_eq, eq_iff,
  arith, All, Bool-cases, inl, inr,
}
use sarkfxbot.Base.Dict.{lookup, insert, lookup-insert}
use sarkfxbot.Base.Exec.{Result, ok}
use sarkfxbot.Domain.Models.{Timestamp}
use sarkfxbot.Domain.Orders.{OrderRequest}
use sarkfxbot.Execution.Idempotency.{
  ExecutionRecord, RecordStore, Change, new_record, changed, may_become, claim, get, update,
}
use sarkfxbot.Execution.Idempotency.Laws.{
  claim_taken, claim_free, update_missing, update_allowed, update_refused,
}
use sarkfxbot.Execution.Payloads.RoundTrips.{IsStorable}
use sarkfxbot.Execution.SqlStore.{
  new_attempt, changed_attempt, violates, claim_row, claim_sync, get_sync, record_or_none,
  update_row, update_sync,
}
use sarkfxbot.Execution.Attempts.{ExecutionAttempt, Table}
use sarkfxbot.Execution.SqlStore.Rows.{
  Stands, record_of-Stands, new_attempt-Stands, IsUsual, changed_attempt-Stands, change_of-Stands,
  change_refused, IsOrdered, insert-IsOrdered, no_other,
}

-- Under a key both have nothing, or a row and its record.
abbrev Matches : Option ExecutionAttempt → Option ExecutionRecord → Type 0
Matches none none = Unit
Matches (some a) (some r) = Stands a r
Matches none (some r) = ⊥
Matches (some a) none = ⊥

pub record Represents (order_of : String → String) (t : Table) (s : RecordStore) : Type 0 where
  pub matches : (k : String) → Matches (lookup k t) (lookup k s)
  pub ordered : IsOrdered order_of t

insert-Represents :
    (order_of : String → String) (k : String) (a : ExecutionAttempt) (r : ExecutionRecord)
    (t : Table) (s : RecordStore)
    → Represents order_of t s
    → Stands a r
    → a.order_id ≡ order_of k
    → Represents order_of (insert k a t) (insert k r s)
insert-Represents order_of k a r t s h stands own = record {
  matches = λ j. elim (Bool-cases (str_eq k j)) [
    | inl e ↦ rw (lookup-insert k j a t, lookup-insert k j r s, e) stands
    | inr e ↦ rw (lookup-insert k j a t, lookup-insert k j r s, e) (h.matches j)
  ];
  ordered = insert-IsOrdered order_of k a t own h.ordered;
}

-- The calls of a store.
pub data StoreCall : Type 0 where
  claim_call : OrderRequest → Timestamp → StoreCall
  get_call : String → StoreCall
  update_call : String → Change → StoreCall

pub data Answer : Type 0 where
  claimed_as : Result (ExecutionRecord × Bool) → Answer
  got : Result (Option ExecutionRecord) → Answer
  updated_to : Result ExecutionRecord → Answer

-- The order of a key is given, and no two processes claim at once.
abbrev sql_step : (String → String) → StoreCall → Table → Answer × Table
sql_step order_of (claim_call q now) t =
    let (r, t') = claim_sync (λ q. ok (order_of q.idempotency_key)) (λ t. t) q now t in
    (claimed_as r, t')
sql_step order_of (get_call k) t = let (r, t') = get_sync k t in (got r, t')
sql_step order_of (update_call k c) t = let (r, t') = update_sync k c t in (updated_to r, t')

abbrev memory_step : StoreCall → RecordStore → Answer × RecordStore
memory_step (claim_call q now) s = let (r, s') = claim q now s in (claimed_as r, s')
memory_step (get_call k) s = let (r, s') = get k s in (got r, s')
memory_step (update_call k c) s = let (r, s') = update k c s in (updated_to r, s')

-- A claim of a request that can be stored, a usual change, or a read.
abbrev pub IsUsualCall : StoreCall → Type 0
IsUsualCall (claim_call q now) = IsStorable q
IsUsualCall (get_call k) = Unit
IsUsualCall (update_call k c) = IsUsual c

unfoldable pub run_sql : (String → String) → List StoreCall → Table → List Answer
run_sql order_of [] t = []
run_sql order_of (c ∷ cs) t = let (a, t') = sql_step order_of c t in a ∷ run_sql order_of cs t'

unfoldable pub run_memory : List StoreCall → RecordStore → List Answer
run_memory [] s = []
run_memory (c ∷ cs) s = let (a, s') = memory_step c s in a ∷ run_memory cs s'

-- Both answer_row alike, and represent each other afterwards.
abbrev Agree : {A : Type 0} → (String → String) → Result A × Table → Result A × RecordStore → Type 0
Agree order_of (a, t) (b, s) = (a ≡ b) × Represents order_of t s

module _ (order_of : String → String)
    (distinct : (i j : String) → order_of i ≡ order_of j → i ≡ j) where
  new-violates :
      (q : OrderRequest) (now : Timestamp) (t : Table)
      → IsOrdered order_of t
      → lookup q.idempotency_key t ≡ none
      → violates (new_attempt q now (order_of q.idempotency_key)) t ≡ false
  unfolding violates
  new-violates q now t ordered free = rw free (
      no_other order_of (new_attempt q now (order_of q.idempotency_key)) t distinct refl ordered
        free)

  claim_row-Agree :
      (q : OrderRequest) (now : Timestamp) (o : Option ExecutionAttempt)
      (p : Option ExecutionRecord) (t : Table) (s : RecordStore)
      → Represents order_of t s
      → IsStorable q
      → lookup q.idempotency_key t ≡ o
      → lookup q.idempotency_key s ≡ p
      → Matches o p
      → Agree order_of
          (claim_row (λ q. ok (order_of q.idempotency_key)) (λ t. t) q now o t)
          (claim q now s)
  claim_row-Agree q now (some a) (some r) t s h storable at there m =
      rw (claim_taken q now s r there, record_of-Stands a r m) (refl, h)
  claim_row-Agree q now none none t s h storable at there m =
      let a = new_attempt q now (order_of q.idempotency_key) in
      let stands = new_attempt-Stands q now (order_of q.idempotency_key) storable in
      rw
        (
          new-violates q now t h.ordered at,
          claim_free q now s there,
          record_of-Stands a (new_record q now) stands,
        )
        (refl, insert-Represents order_of q.idempotency_key a (new_record q now) t s h stands refl)
  claim_row-Agree q now (some a) none t s h storable at there m = absurd m
  claim_row-Agree q now none (some r) t s h storable at there m = absurd m

  get_sync-Agree :
      (k : String) (t : Table) (s : RecordStore)
      → Represents order_of t s
      → Agree order_of (get_sync k t) (get k s)
  unfolding get_sync get
  get_sync-Agree k t s h = (by_row (lookup k t) (lookup k s) (h.matches k), h)
    where
      by_row :
          (o : Option ExecutionAttempt) (p : Option ExecutionRecord)
          → Matches o p
          → record_or_none o ≡ ok p
      by_row none none m = refl
      by_row (some a) (some r) m = rw (record_of-Stands a r m) refl
      by_row none (some r) m = absurd m
      by_row (some a) none m = absurd m

  row_order :
      (k : String) (a : ExecutionAttempt) (t : Table)
      → IsOrdered order_of t
      → lookup k t ≡ some a
      → a.order_id ≡ order_of k
  unfolding lookup
  row_order k a [] o e = absurd (cc)
  row_order k a ((j, b) ∷ t) o e = elim (Bool-cases (str_eq j k)) [
    | inl same ↦
        let found : b ≡ a = ground arith in
        ap (λ (x : ExecutionAttempt). x.order_id) (sym found)
        ∙ o.0
        ∙ ap order_of ((eq_iff j k).0 same)
    | inr other ↦ row_order k a t o.1 (ground arith)
  ]

  update_row-Agree :
      (k : String) (c : Change) (o : Option ExecutionAttempt) (p : Option ExecutionRecord)
      (t : Table) (s : RecordStore)
      → Represents order_of t s
      → IsUsual c
      → lookup k t ≡ o
      → lookup k s ≡ p
      → Matches o p
      → Agree order_of (update_row k c o t) (update k c s)
  update_row-Agree k c none none t s h usual at there m = rw (update_missing k c s there) (refl, h)
  update_row-Agree k c (some a) (some r) t s h usual at there m =
      elim (Bool-cases (may_become r.status c.status)) [
        | inl e ↦
            let b = changed_attempt a r.version c in
            let stands = changed_attempt-Stands a r c m usual e in
            rw
              (
                change_of-Stands a r c m e,
                update_allowed k c s r there e,
                record_of-Stands b (changed r c) stands,
              )
              (
                refl,
                insert-Represents order_of k b (changed r c) t s h stands
                    (row_order k a t h.ordered at),
              )
        | inr e ↦ rw (change_refused a r c m e, update_refused k c s r there e) (refl, h)
      ]
  update_row-Agree k c none (some r) t s h usual at there m = absurd m
  update_row-Agree k c (some a) none t s h usual at there m = absurd m

  -- The same answer_row, and tables that represent each other.
  abbrev Together : Answer × Table → Answer × RecordStore → Type 0
  Together (a, t) (b, s) = (a ≡ b) × Represents order_of t s

  step-Together :
      (c : StoreCall) (t : Table) (s : RecordStore)
      → Represents order_of t s
      → IsUsualCall c
      → Together (sql_step order_of c t) (memory_step c s)
  unfolding claim_sync update_sync
  step-Together (claim_call q now) t s h usual =
      let (e, r) =
        claim_row-Agree q now (lookup q.idempotency_key t) (lookup q.idempotency_key s) t s h usual
          refl refl (h.matches q.idempotency_key) in
      (ap claimed_as e, r)
  step-Together (get_call k) t s h usual = let (e, r) = get_sync-Agree k t s h in (ap got e, r)
  step-Together (update_call k c) t s h usual =
      let (e, r) =
        update_row-Agree k c (lookup k t) (lookup k s) t s h usual refl refl (h.matches k) in
      (ap updated_to e, r)

  -- Over rows that stand for the records, the SQL store answers any sequence of calls as the in-
  -- memory store does, where the order of a key is its own, no other process writes during a claim,
  -- requests can be stored, and a report comes only with a final status and can be read back.
  pub run_sql-Refines :
      (cs : List StoreCall) (t : Table) (s : RecordStore)
      → Represents order_of t s
      → All IsUsualCall cs
      → run_sql order_of cs t ≡ run_memory cs s
  unfolding run_sql run_memory
  run_sql-Refines [] t s h usual = refl
  run_sql-Refines (c ∷ cs) t s h usual =
      let (e, r) = step-Together c t s h usual.0 in
      let rest = run_sql-Refines cs (sql_step order_of c t).1 (memory_step c s).1 r usual.1 in cc
