-- ===== src/Execution/Idempotency/History.antt =====
-- Whole histories of the idempotency store (app/execution/idempotency.py): a key is won by one claim
-- at most, its request never changes, and a final status stays.
use sarkfxbot.Base.{
  ℕ, ◌+◌, ◌≤◌, String, str_eq, eq_iff, ◌≡◌, ◌≢◌, ◌⊎◌, inl, inr, refl, ◌∙◌, ap, Bool, true, false,
  ◌&&◌, some, List, [], ◌∷◌, arith, ℕ_discrete, Bool-cases, if◌then◌else◌,
}
use sarkfxbot.Base.Dict.{lookup}
use sarkfxbot.Base.Exec.{Result, ok, err}
use sarkfxbot.Domain.Models.{Timestamp}
use sarkfxbot.Domain.Orders.{OrderRequest}
use sarkfxbot.Execution.Idempotency.{
  IdempotencyStatus, succeeded, protection_failed, rejected, ExecutionRecord, RecordStore, claim,
  may_become, Change, changed, update,
}
use sarkfxbot.Execution.Idempotency.Laws.{claim_taken, claim_record, lookup-claim, lookup-update}

pub data StoreCall : Type 0 where
  claims : OrderRequest → Timestamp → StoreCall
  updates : String → Change → StoreCall

unfoldable pub apply : StoreCall → RecordStore → RecordStore
apply (claims r now) store = (claim r now store).1
apply (updates key c) store = (update key c store).1

unfoldable pub run : List StoreCall → RecordStore → RecordStore
run [] store = store
run (c ∷ cs) store = run cs (apply c store)

-- The claim was the first for its key.
abbrev won : Result (ExecutionRecord × Bool) → Bool
won (ok (_, first)) = first
won (err _) = false

-- 1 where the call is a claim of `key` that is won, and 0 elsewhere
abbrev wins_here : String → StoreCall → RecordStore → ℕ
wins_here key (claims r now) store =
    if str_eq r.idempotency_key key && won (claim r now store).0 then 1 else 0
wins_here key (updates _ _) store = 0

-- How many claims of `key` are won in a history.
pub wins : String → List StoreCall → RecordStore → ℕ
wins key [] store = 0
wins key (c ∷ cs) store = wins_here key c store + wins key cs (apply c store)

abbrev IsPresent : String → RecordStore → Type 0
IsPresent key store = (r : ExecutionRecord) × (lookup key store ≡ some r)

abbrev pub FollowsFrom : ExecutionRecord → ExecutionRecord → Type 0
FollowsFrom r r' =
    (r' ≡ r) ⊎ ((c : Change) × (may_become r.status c.status ≡ true) × (r' ≡ changed r c))

-- A record after one call is the same, or one allowed change away.
apply-FollowsFrom :
    (call : StoreCall) (store : RecordStore) (key : String) (r : ExecutionRecord)
    → lookup key store ≡ some r
    → (r' : ExecutionRecord) × (lookup key (apply call store) ≡ some r') × FollowsFrom r r'
unfolding apply
apply-FollowsFrom (claims q now) store key r e =
    (r, ground (arith, lookup-claim q now store key), inl refl)
apply-FollowsFrom (updates k c) store key r e = elim (Bool-cases (str_eq k key)) [
  | inl same ↦ elim (Bool-cases (may_become r.status c.status)) [
    | inl allowed ↦ (
      changed r c,
      lookup-update k c store key ∙ rw (same, e) (rw allowed refl),
      inr (c, allowed, refl),
    )
    | inr refused ↦ (r, lookup-update k c store key ∙ rw (same, e) (rw refused refl), inl refl)
  ]
  | inr other ↦ (r, lookup-update k c store key ∙ rw (other, e) refl, inl refl)
]

wins_here_taken :
    (call : StoreCall) (store : RecordStore) (key : String) (r : ExecutionRecord)
    → lookup key store ≡ some r
    → wins_here key call store ≡ 0
wins_here_taken (updates k c) store key r e = refl
wins_here_taken (claims q now) store key r e = elim (Bool-cases (str_eq q.idempotency_key key)) [
  | inl same ↦
      let key_eq : q.idempotency_key ≡ key = (eq_iff q.idempotency_key key).0 same in
      rw (claim_taken q now store r (ap (λ k. lookup k store) key_eq ∙ e)) (ground arith)
  | inr other ↦ rw other refl
]

-- A key that has a record is won by no claim.
wins_present :
    (cs : List StoreCall) (store : RecordStore) (key : String)
    → IsPresent key store
    → wins key cs store ≡ 0
unfolding wins
wins_present [] store key p = refl
wins_present (c ∷ cs) store key (r, e) =
    let (r', e', _) = apply-FollowsFrom c store key r e in
    omega (arith, wins_present cs (apply c store) key (r', e'), wins_here_taken c store key r e)

wins_here-le-one : (key : String) (c : StoreCall) (store : RecordStore) → wins_here key c store ≤ 1
wins_here-le-one key (claims q now) store = ground arith
wins_here-le-one key (updates k c) store = omega arith

IsPresent-of_win :
    (c : StoreCall) (store : RecordStore) (key : String)
    → wins_here key c store ≢ 0
    → IsPresent key (apply c store)
unfolding apply
IsPresent-of_win (updates k c) store key h = absurd (h refl)
IsPresent-of_win (claims q now) store key h =
    (claim_record q now (lookup key store), ground (arith, lookup-claim q now store key))

-- In every history of claims and updates, from any store, at most one claim of a key is won.
pub wins-le-one : (cs : List StoreCall) (store : RecordStore) (key : String) → wins key cs store ≤ 1
unfolding wins
wins-le-one [] store key = omega arith
wins-le-one (c ∷ cs) store key = elim (ℕ_discrete (wins_here key c store) 0) [
  | yes none_here ↦ omega (arith, wins-le-one cs (apply c store) key)
  | no here ↦ omega (
    arith,
    wins_here-le-one key c store,
    wins_present cs (apply c store) key (IsPresent-of_win c store key here),
  )
]

-- From one status to another along the table of `update`.
pub data StatusReach (s : IdempotencyStatus) : IdempotencyStatus → Type 0 where
  here : StatusReach s s
  next : {t u : IdempotencyStatus} → StatusReach s t → may_become t u ≡ true → StatusReach s u

then_StatusReach :
    {s t u : IdempotencyStatus} → may_become s t ≡ true → StatusReach t u → StatusReach s u
then_StatusReach e here = next here e
then_StatusReach e (next r f) = next (then_StatusReach e r) f

-- A record that descends from another.
pub record Descends (r r' : ExecutionRecord) : Type 0 where
  pub same_request : r'.request ≡ r.request
  pub same_creation : r'.created_at ≡ r.created_at
  pub newer : r.version ≤ r'.version
  pub reached : StatusReach r.status r'.status

step-Descends : (r r' r'' : ExecutionRecord) → FollowsFrom r r' → Descends r' r'' → Descends r r''
step-Descends r r' r'' (inl e) d = rw (← e) d
step-Descends r r' r'' (inr (c, allowed, e)) d = record {
  same_request = d.same_request ∙ ap (λ x. x.request) e;
  same_creation = d.same_creation ∙ ap (λ x. x.created_at) e;
  newer =
      let version : r'.version ≡ r.version + 1 = ap (λ x. x.version) e in
      omega (arith, d.newer, version);
  reached = then_StatusReach allowed (rw (ap (λ x. x.status) e) at d.reached);
}

-- In every history a record keeps its request and its creation time, its version does not fall, and
-- its status moves only along the table of `update`.
pub run-Descends :
    (cs : List StoreCall) (store : RecordStore) (key : String) (r : ExecutionRecord)
    → lookup key store ≡ some r
    → (r' : ExecutionRecord) × (lookup key (run cs store) ≡ some r') × Descends r r'
unfolding run
run-Descends [] store key r e = (
  r,
  e,
  record { same_request = refl; same_creation = refl; newer = omega arith; reached = here },
)
run-Descends (c ∷ cs) store key r e =
    let (r', e', f) = apply-FollowsFrom c store key r e in
    let (r'', e'', d) = run-Descends cs (apply c store) key r' e' in
    (r'', e'', step-Descends r r' r'' f d)

-- SUCCEEDED, PROTECTION_FAILED and REJECTED.
abbrev pub IsFinal : IdempotencyStatus → Type 0
IsFinal s = (s ≡ succeeded) ⊎ (s ≡ protection_failed) ⊎ (s ≡ rejected)

final_stays : (r r' : ExecutionRecord) → IsFinal r.status → FollowsFrom r r' → r' ≡ r
final_stays r r' f (inl e) = e
final_stays r r' f (inr (c, allowed, e)) = ground arith

-- A record whose status is final is the same, in every field, after every history.
pub run_final :
    (cs : List StoreCall) (store : RecordStore) (key : String) (r : ExecutionRecord)
    → lookup key store ≡ some r
    → IsFinal r.status
    → lookup key (run cs store) ≡ some r
unfolding run
run_final [] store key r e f = e
run_final (c ∷ cs) store key r e f =
    let (r', e', step) = apply-FollowsFrom c store key r e in
    run_final cs (apply c store) key r (e' ∙ ap some (final_stays r r' f step)) f
