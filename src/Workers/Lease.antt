-- ===== src/Workers/Lease.antt =====
-- app/workers/lease.py: jobs that run under a lease in Redis. The client is given: `set` with nx
-- and px, `get` and `del` as the script calls them, and `eval`, which runs a script or raises. `R`
-- is what the client keeps, and `J` what the jobs work on.
pub mod Exclusive
use Prim.Native.String
use Prim.Native.Char.{Char, code}
use sarkfxbot.Base.{
  ℕ, suc, ◌+◌, ◌*◌, String, str_eq, Bool, true, false, ◌&&◌, Option, none, some, ltb, ◌==◌,
  if◌then◌else◌,
}
use sarkfxbot.Base.Text.{is_missing}
use sarkfxbot.Base.Exec.{Error, value_error, Result, ok, err, Exec}

pub data LeaseRunStatus : Type 0 where
  completed locked lock_unavailable failed : LeaseRunStatus

pub record LeaseRunResult (A : Type 0) : Type 0 where
  pub status : LeaseRunStatus
  pub value : Option A
  pub error_type : Option String

-- AsyncRedis
pub record Redis (R : Type 0) : Type 0 where
  pub set : String → String → ℕ → Exec R Bool
  pub get : String → R → Option String
  pub del : String → R → Bool × R
  pub eval : (R → Bool × R) → Exec R Bool

-- What is random or named by the runtime: the tokens in the order in which they are drawn, and the
-- class names of exceptions.
pub record Runtime : Type 0 where
  pub token : ℕ → String
  pub type_name : Error → String

pub record Working (R J : Type 0) : Type 0 where
  pub redis : R
  pub drawn : ℕ
  pub jobs : J

pub record RedisLease (R : Type 0) : Type 0 where
  pub client : Redis R
  pub key : String
  pub token : String

abbrev is_colon : Char → Bool
is_colon c = code c == 58

-- text.lstrip(":"), and text.rstrip(":") after it
unfoldable pub without_first : String → String
without_first String.[] = String.[]
without_first (String.◌∷◌ c s) = if is_colon c then without_first s else String.◌∷◌ c s

unfoldable pub without_last : String → String
without_last String.[] = String.[]
without_last (String.◌∷◌ c s) =
    let rest = without_last s in
    if is_missing rest && is_colon c then String.[] else String.◌∷◌ c rest

abbrev pub or_goldflow : String → String
or_goldflow s = if is_missing s then "goldflow" else s

-- RedisLeaseManager.__init__
unfoldable pub namespace_of : String → String
namespace_of namespace = or_goldflow (without_last (without_first namespace))

-- f"{namespace}:lease:{name}"
unfoldable pub key_of : String → String → String
key_of namespace name = String.◌++◌ namespace (String.◌++◌ ":lease:" name)

module _ {R : Type 0} (lease : RedisLease R) where
  abbrev pub release_found : Option String → R → Bool × R
  release_found none r = (false, r)
  release_found (some held) r =
      if str_eq held lease.token then lease.client.del lease.key r else (false, r)

  -- _RELEASE_SCRIPT
  unfoldable pub release_script : R → Bool × R
  release_script r = release_found (lease.client.get lease.key r) r

abbrev pub or_false : Result Bool → Result Bool
or_false (ok b) = ok b
or_false (err e) = ok false

-- RedisLease.release
unfoldable pub release : {R J : Type 0} → RedisLease R → Exec (Working R J) Bool
release lease w =
    let (r, redis) = lease.client.eval (release_script lease) w.redis in
    (or_false r, record w { redis = redis })

abbrev pub lease_if : {R : Type 0} → Result Bool → RedisLease R → Option (RedisLease R)
lease_if (ok true) lease = some lease
lease_if (ok false) lease = none
lease_if (err e) lease = none

module _ {R J : Type 0} (runtime : Runtime) (namespace : String) where
  abbrev pub new_lease : Redis R → String → Working R J → RedisLease R
  new_lease client name w = record {
    client = client;
    key = key_of namespace name;
    token = runtime.token w.drawn;
  }

  abbrev pub acquire_with : Redis R → String → ℕ → Exec (Working R J) (Option (RedisLease R))
  acquire_with client name ttl_seconds w =
      let lease = new_lease client name w in
      let (r, redis) = client.set lease.key lease.token (ttl_seconds * 1000) w.redis in
      (ok (lease_if r lease), record w { redis = redis; drawn = suc w.drawn })

  abbrev pub acquire_client :
      Option (Redis R) → String → ℕ → Exec (Working R J) (Option (RedisLease R))
  acquire_client none name ttl_seconds w = (ok none, w)
  acquire_client (some client) name ttl_seconds w = acquire_with client name ttl_seconds w

  -- RedisLeaseManager.acquire
  unfoldable pub acquire :
      Option (Redis R) → String → ℕ → Exec (Working R J) (Option (RedisLease R))
  acquire client name ttl_seconds w =
      if ltb ttl_seconds 1
      then (err (value_error "lease TTL must be positive"), w)
      else acquire_client client name ttl_seconds w

abbrev pub not_run_status : {R : Type 0} → Option (Redis R) → LeaseRunStatus
not_run_status none = lock_unavailable
not_run_status (some client) = locked

abbrev pub not_run_result : {A : Type 0} → LeaseRunStatus → LeaseRunResult A
not_run_result status = record { status = status; value = none; error_type = none }

-- What the job's result is turned into.
abbrev pub contained : {A : Type 0} → Runtime → Bool → Result A → Result (LeaseRunResult A)
contained runtime contain (ok a) =
    ok (record { status = completed; value = some a; error_type = none })
contained runtime contain (err e) =
    if contain
    then ok (record { status = failed; value = none; error_type = some (runtime.type_name e) })
    else err e

module _ {R J A : Type 0} (runtime : Runtime) (operation : Exec (Working R J) A)
    (contain : Bool) where
  -- The job, and the release after it in every case.
  abbrev pub run_leased : RedisLease R → Exec (Working R J) (LeaseRunResult A)
  run_leased lease w =
      let (r, after) = operation w in (contained runtime contain r, (release lease after).1)

  abbrev pub run_by :
      Option (Redis R) → Result (Option (RedisLease R)) → Exec (Working R J) (LeaseRunResult A)
  run_by client (err e) w = (err e, w)
  run_by client (ok none) w = (ok (not_run_result (not_run_status client)), w)
  run_by client (ok (some lease)) w = run_leased lease w

  -- RedisLeaseManager.run
  unfoldable pub run_job :
      String → Option (Redis R) → String → ℕ → Exec (Working R J) (LeaseRunResult A)
  run_job namespace client name ttl_seconds w =
      let (r, w') = acquire runtime namespace client name ttl_seconds w in run_by client r w'
