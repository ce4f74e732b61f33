-- ===== src/Workers/Lease/Exclusive.antt =====
-- A held lease of app/workers/lease.py against other workers.
use sarkfxbot.Base.{
  ℕ, ◌*◌, ◌≤◌, ◌≡◌, ◌≢◌, refl, ap, ◌∙◌, String, str_eq, eq_iff, Bool, true, false, none, some, ◌⊎◌,
  inl, inr, ltb, arith, Bool-cases,
}
use sarkfxbot.Base.Exec.{Result, ok, err, Exec}
use sarkfxbot.Workers.Lease.{
  Redis, Runtime, Working, RedisLease, LeaseRunStatus, key_of, release_script, release, lease_if,
  new_lease, acquire, not_run_result, run_job,
}

-- What the code relies on in Redis: `set` with nx does not change a key that is there, and a script
-- runs as a whole; when the call fails, it has run or it has not.
pub record IsRedis {R : Type 0} (client : Redis R) : Type 0 where
  pub set_held :
      (k token held : String) (px : ℕ) (r : R)
      → client.get k r ≡ some held
      → ((client.set k token px r).0 ≢ ok true)
        × (client.get k (client.set k token px r).1 ≡ some held)
  pub eval_whole :
      (script : R → Bool × R) (r : R)
      → ((client.eval script r).1 ≡ r) ⊎ ((client.eval script r).1 ≡ (script r).1)

-- A release script with another token changes nothing.
release_script-foreign :
    {R : Type 0} (lease : RedisLease R) (held : String) (r : R)
    → lease.client.get lease.key r ≡ some held
    → held ≢ lease.token
    → (release_script lease r).1 ≡ r
unfolding release_script
release_script-foreign lease held r at other =
    let apart : str_eq held lease.token ≡ false = elim (Bool-cases (str_eq held lease.token)) [
      | inl e ↦ absurd (other ((eq_iff held lease.token).0 e))
      | inr e ↦ e
    ] in
    rw (at, apart) refl

release-foreign :
    {R J : Type 0} (lease : RedisLease R) (held : String) (w : Working R J)
    → IsRedis lease.client
    → lease.client.get lease.key w.redis ≡ some held
    → held ≢ lease.token
    → (release lease w).1.redis ≡ w.redis
unfolding release
release-foreign lease held w lawful at other =
    elim (lawful.eval_whole (release_script lease) w.redis) [
      | inl e ↦ e
      | inr e ↦ e ∙ release_script-foreign lease held w.redis at other
    ]

not_won :
    {R : Type 0} (r : Result Bool) (lease : RedisLease R) → r ≢ ok true → lease_if r lease ≡ none
not_won (ok true) lease h = absurd (h refl)
not_won (ok false) lease h = refl
not_won (err e) lease h = refl

-- While a lease is held under its key, another run of the job by any worker, with a positive time to
-- live, does not run the operation: it reports that the lease is locked, leaves what the jobs work on
-- and the holder's token as they are. A release with another token, as by a worker whose lease has
-- expired, leaves the holder's token too.
pub lease-IsSafe :
    {R J A : Type 0} (runtime : Runtime) (namespace : String) (client : Redis R)
    (name held token : String) (operation : Exec (Working R J) A) (contain : Bool) (ttl_seconds : ℕ)
    (w : Working R J)
    → IsRedis client
    → client.get (key_of namespace name) w.redis ≡ some held
    → held ≢ token
    → 1 ≤ ttl_seconds
    → ((run_job runtime operation contain namespace (some client) name ttl_seconds w).0
        ≡ ok (not_run_result LeaseRunStatus.locked))
      × ((run_job runtime operation contain namespace (some client) name ttl_seconds w).1.jobs
          ≡ w.jobs)
      × (client.get
            (key_of namespace name)
            (run_job runtime operation contain namespace (some client) name ttl_seconds w).1.redis
          ≡ some held)
      × (client.get
            (key_of namespace name)
            (release
              (record { client = client; key = key_of namespace name; token = token })
              w).1.redis
          ≡ some held)
unfolding run_job acquire
lease-IsSafe {R = R} runtime namespace client name held token operation contain ttl_seconds w lawful
      at other positive =
    let long : ltb ttl_seconds 1 ≡ false = ground arith in
    let key = key_of namespace name in
    let (lost, kept) =
      lawful.set_held key (runtime.token w.drawn) held (ttl_seconds * 1000) w.redis at in
    let lease : RedisLease R = record { client = client; key = key; token = token } in
    let free =
      not_won (client.set key (runtime.token w.drawn) (ttl_seconds * 1000) w.redis).0
        (new_lease runtime namespace client name w) lost in
    rw (long, free)
      (refl, refl, kept, ap (client.get key) (release-foreign lease held w lawful at other) ∙ at)
