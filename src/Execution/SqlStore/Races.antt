-- ===== src/Execution/SqlStore/Races.antt =====
-- Claims of app/execution/sqlalchemy_idempotency.py by several processes, which the unique key of the
-- table decides.
use mathlib.Core.Bool.{true≢false}
use sarkfxbot.Execution.Json.{◌>>=◌}
use sarkfxbot.Base.{
  subst, String, ◌≡◌, ◌≢◌, refl, sym, ap, ◌∙◌, true, false, Bool, Option, none, some, ◌||◌, any,
  if◌then◌else◌,
}
use sarkfxbot.Base.Dict.{lookup, insert, values, lookup-insert_self}
use sarkfxbot.Base.Exec.{Result, ok, err}
use sarkfxbot.Domain.Models.{Timestamp}
use sarkfxbot.Domain.Orders.{OrderRequest}
use sarkfxbot.Execution.Idempotency.{ExecutionRecord}
use sarkfxbot.Execution.SqlStore.{
  new_attempt, same_attempt, is_there, violates, answer_row, lost_race, commit_new, claim_row,
  claim_resolved, claim_sync,
}
use sarkfxbot.Execution.Attempts.{ExecutionAttempt, Table, record_of}

-- The claim returned with True.
abbrev Wins : Result (ExecutionRecord × Bool) → Type 0
Wins (ok (r, won)) = won ≡ true
Wins (err e) = ⊥

answer_row-loses : (a : ExecutionAttempt) (t : Table) → Wins (answer_row a false t).0 → ⊥
answer_row-loses a t = by_record (record_of a)
  where
    by_record : (r : Result ExecutionRecord) → Wins (r >>= λ x. ok (x, false)) → ⊥
    by_record (ok x) w = absurd (cc)
    by_record (err e) w = w

lost_race-loses : (o : Option ExecutionAttempt) (t : Table) → Wins (lost_race o t).0 → ⊥
lost_race-loses none t w = w
lost_race-loses (some a) t w = answer_row-loses a t w

-- A winner found the key free at its commit, and leaves its row under it.
abbrev HasWon : OrderRequest → Table → Table → Type 0
HasWon q before after =
    (lookup q.idempotency_key before ≡ none) × (is_there (lookup q.idempotency_key after) ≡ true)

free_of : (a : ExecutionAttempt) (t : Table) → violates a t ≡ false → lookup a.attempt_key t ≡ none
unfolding violates
free_of a t e = by_row (lookup a.attempt_key t) (any (same_attempt a) (values t)) e
  where
    by_row : (o : Option ExecutionAttempt) (b : Bool) → is_there o || b ≡ false → o ≡ none
    by_row none b e = refl
    by_row (some x) b e = absurd (cc)

commit_new-HasWon :
    (q : OrderRequest) (now : Timestamp) (order_id : String) (t : Table)
    → Wins (commit_new (new_attempt q now order_id) t).0
    → HasWon q t (commit_new (new_attempt q now order_id) t).1
commit_new-HasWon q now order_id t = by_test (violates (new_attempt q now order_id) t) refl
  where
    a : ExecutionAttempt
    a = new_attempt q now order_id

    by_test :
        (b : Bool)
        → violates a t ≡ b
        → Wins
            (if b
              then lost_race (lookup a.attempt_key t) t
              else answer_row a true (insert a.attempt_key a t)).0
        → HasWon q t
            (if b
              then lost_race (lookup a.attempt_key t) t
              else answer_row a true (insert a.attempt_key a t)).1
    by_test true e w = absurd (lost_race-loses (lookup a.attempt_key t) t w)
    by_test false e w = (free_of a t e, ap (λ o. is_there o) (lookup-insert_self a.attempt_key a t))

module _ (resolve : OrderRequest → Result String) (meanwhile : Table → Table) where
  claim_resolved-HasWon :
      (q : OrderRequest) (now : Timestamp) (r : Result String) (t : Table)
      → Wins (claim_resolved resolve meanwhile q now r t).0
      → HasWon q (meanwhile t) (claim_resolved resolve meanwhile q now r t).1
  claim_resolved-HasWon q now (ok order_id) t w = commit_new-HasWon q now order_id (meanwhile t) w
  claim_resolved-HasWon q now (err e) t w = absurd w

  claim_row-HasWon :
      (q : OrderRequest) (now : Timestamp) (o : Option ExecutionAttempt) (t : Table)
      → Wins (claim_row resolve meanwhile q now o t).0
      → (o ≡ none) × HasWon q (meanwhile t) (claim_row resolve meanwhile q now o t).1
  claim_row-HasWon q now none t w = (refl, claim_resolved-HasWon q now (resolve q) t w)
  claim_row-HasWon q now (some a) t w = absurd (answer_row-loses a t w)

-- Whatever other processes commit during a claim, a claim that returns True found its key free when
-- it committed and leaves a row under it; and after steps that leave some row under the key, no
-- claim of the key returns True, by any process and whatever is committed during that claim.
pub claim_sync_once :
    (resolve resolve' : OrderRequest → Result String) (meanwhile between meanwhile' : Table → Table)
    (q q' : OrderRequest) (now now' : Timestamp) (t : Table) (r r' : ExecutionRecord)
    → (claim_sync resolve meanwhile q now t).0 ≡ ok (r, true)
    → ((u : Table)
        → is_there (lookup q.idempotency_key u) ≡ true
        → is_there (lookup q.idempotency_key (between u)) ≡ true)
    → q'.idempotency_key ≡ q.idempotency_key
    → (lookup q.idempotency_key (meanwhile t) ≡ none)
      × (is_there (lookup q.idempotency_key (claim_sync resolve meanwhile q now t).1) ≡ true)
      × ((claim_sync resolve' meanwhile' q' now'
            (between (claim_sync resolve meanwhile q now t).1)).0
          ≢ ok (r', true))
unfolding claim_sync
claim_sync_once resolve resolve' meanwhile between meanwhile' q q' now now' t r r' e keeps same =
    let after = (claim_sync resolve meanwhile q now t).1 in
    let (_, (free, there)) =
      claim_row-HasWon resolve meanwhile q now (lookup q.idempotency_key t) t
        (subst Wins (sym e) refl) in
    (
      free,
      there,
      λ e'.
          let (gone, _) =
            claim_row-HasWon resolve' meanwhile' q' now' (lookup q'.idempotency_key (between after))
              (between after) (subst Wins (sym e') refl) in
          true≢false (
            sym (keeps after there)
            ∙ ap (λ k. is_there (lookup k (between after))) (sym same)
            ∙ ap (λ o. is_there o) gone),
    )
