-- ===== src/Execution/Idempotency/Laws.antt =====
-- What one operation on the idempotency store (app/execution/idempotency.py) returns, and what it
-- leaves under every key.
use sarkfxbot.Base.{
  String, str_eq, eq_iff, ◌≡◌, inl, inr, refl, true, false, Option, none, some, arith, Option-cases,
  Bool-cases, if◌then◌else◌,
}
use sarkfxbot.Base.Dict.{lookup, insert, lookup-insert}
use sarkfxbot.Base.Exec.{ok, err, key_error, runtime_error}
use sarkfxbot.Domain.Models.{Timestamp}
use sarkfxbot.Domain.Orders.{OrderRequest}
use sarkfxbot.Execution.Idempotency.{
  ExecutionRecord, RecordStore, new_record, claim_of, claim, may_become, Change, changed, update_of,
  update,
}

-- A claim of a key that has a record returns that record and changes nothing.
pub claim_taken :
    (r : OrderRequest) (now : Timestamp) (store : RecordStore) (old : ExecutionRecord)
    → lookup r.idempotency_key store ≡ some old
    → claim r now store ≡ (ok (old, false), store)
unfolding claim
claim_taken r now store old e = rw (e, claim_of) refl

pub claim_free :
    (r : OrderRequest) (now : Timestamp) (store : RecordStore)
    → lookup r.idempotency_key store ≡ none
    → claim r now store
      ≡ (ok (new_record r now, true), insert r.idempotency_key (new_record r now) store)
unfolding claim
claim_free r now store e = rw (e, claim_of) refl

abbrev pub claim_record : OrderRequest → Timestamp → Option ExecutionRecord → ExecutionRecord
claim_record r now none = new_record r now
claim_record r now (some old) = old

-- What a claim leaves under each key.
pub lookup-claim :
    (r : OrderRequest) (now : Timestamp) (store : RecordStore) (j : String)
    → lookup j (claim r now store).1 ≡ (
        if str_eq r.idempotency_key j
        then some (claim_record r now (lookup j store))
        else lookup j store)
unfolding claim
lookup-claim r now store j = elim (Option-cases (lookup r.idempotency_key store)) [
  | inl e ↦ ground (
    arith,
    eq_iff r.idempotency_key j,
    lookup-insert r.idempotency_key j (new_record r now) store,
  )
  | inr (old, e) ↦ ground (arith, eq_iff r.idempotency_key j)
]

-- What an update leaves under each key.
abbrev pub updated : Change → Option ExecutionRecord → Option ExecutionRecord
updated c none = none
updated c (some r) = some (if may_become r.status c.status then changed r c else r)

pub lookup-update :
    (key : String) (c : Change) (store : RecordStore) (j : String)
    → lookup j (update key c store).1
      ≡ (if str_eq key j then updated c (lookup j store) else lookup j store)
unfolding update
lookup-update key c store j = elim (Option-cases (lookup key store)) [
  | inl e ↦ ground (arith, eq_iff key j)
  | inr (r, e) ↦ ground (arith, eq_iff key j, lookup-insert key j (changed r c) store)
]

-- An update that returned found a record that may make the change.
pub update-eq-ok :
    (key : String) (c : Change) (store : RecordStore) (new : ExecutionRecord)
    → (update key c store).0 ≡ ok new
    → (r : ExecutionRecord) × (lookup key store ≡ some r)
      × (may_become r.status c.status ≡ true)
      × (new ≡ changed r c)
unfolding update
update-eq-ok key c store new h = elim (Option-cases (lookup key store)) [
  | inl e ↦ ground arith
  | inr (r, e) ↦ elim (Bool-cases (may_become r.status c.status)) [
    | inl allowed ↦ (r, e, allowed, ground arith)
    | inr refused ↦ ground arith
  ]
]

-- An update of an unknown key, of a record that may take the new status, and of one that may not.
pub update_missing :
    (key : String) (c : Change) (store : RecordStore)
    → lookup key store ≡ none
    → update key c store ≡ (err (key_error key), store)
unfolding update
update_missing key c store e = rw (e, update_of) refl

pub update_allowed :
    (key : String) (c : Change) (store : RecordStore) (r : ExecutionRecord)
    → lookup key store ≡ some r
    → may_become r.status c.status ≡ true
    → update key c store ≡ (ok (changed r c), insert key (changed r c) store)
unfolding update
update_allowed key c store r e m = rw (e, update_of, m) refl

pub update_refused :
    (key : String) (c : Change) (store : RecordStore) (r : ExecutionRecord)
    → lookup key store ≡ some r
    → may_become r.status c.status ≡ false
    → update key c store ≡ (err (runtime_error "invalid idempotency transition"), store)
unfolding update
update_refused key c store r e m = rw (e, update_of, m) refl
