-- ===== src/Tests/Jobs.antt =====
-- Tests of app/workers/lease.py, app/market/sessions.py and app/signals/ at concrete inputs.
use mathlib.Core.Bool.{false≢true}
use sarkfxbot.Base.{
  inr, eq_iff, ℕ, ◌+◌, ◌*◌, ◌≤◌, ◌≡◌, ◌↔◌, refl, Bool, true, false, Option, none, some, [], ◌∷◌,
  String, arith,
}
use sarkfxbot.Base.Int.{pos}
use sarkfxbot.Base.Decimal.{of_ℕ, ratio, side}
use sarkfxbot.Base.Dict.{Dict, lookup, insert, remove}
use sarkfxbot.Base.Exec.{Result, ok, Exec}
use sarkfxbot.Workers.Lease.{
  Redis, Runtime, Working, LeaseRunStatus, run_job, release, key_of, not_run_result,
}
use sarkfxbot.Workers.Lease.Exclusive.{IsRedis, lease-IsSafe}
use sarkfxbot.Market.Sessions.{hours, hour, day_length, contains}
use sarkfxbot.Market.Sessions.Windows.{Opens, contains_iff}
use sarkfxbot.Signals.Confidence.{
  ConfidenceFactors, default_weights, score_confidence, make_factors, make_weights, sum_of,
  component, nearest,
}
use sarkfxbot.Signals.Confidence.Scores.{score_confidence-bounded}

abbrev set_free : Option String → String → String → Dict String → Result Bool × Dict String
set_free none k token r = (ok true, insert k token r)
set_free (some held) k token r = (ok false, r)

-- A Redis in memory, without time.
abbrev memory : Redis (Dict String)
memory = record {
  set = λ k token px r. set_free (lookup k r) k token r;
  get = lookup;
  del = λ k r. (true, remove k r);
  eval = λ script r. (ok (script r).0, (script r).1);
}

memory-IsRedis : IsRedis memory
memory-IsRedis = record {
  set_held = λ k token held px r at. rw at (λ e. absurd (cc), at);
  eval_whole = λ script r. inr refl;
}

abbrev runtime : Runtime
runtime = record { token = λ n. "b"; type_name = λ e. "Exception" }

abbrev busy : Working (Dict String) ℕ
busy = record { redis = ("goldflow:lease:scan", "a") ∷ []; drawn = 0; jobs = 5 }

abbrev add_one : Exec (Working (Dict String) ℕ) ℕ
add_one w = (ok 1, record w { jobs = w.jobs + 1 })

lease-IsSafe_example :
    ((run_job runtime add_one true "goldflow" (some memory) "scan" 30 busy).0
      ≡ ok (not_run_result LeaseRunStatus.locked))
    × ((run_job runtime add_one true "goldflow" (some memory) "scan" 30 busy).1.jobs ≡ 5)
    × (lookup "goldflow:lease:scan"
          (run_job runtime add_one true "goldflow" (some memory) "scan" 30 busy).1.redis
        ≡ some "a")
    × (lookup "goldflow:lease:scan"
          (release
            (record { client = memory; key = "goldflow:lease:scan"; token = "z" })
            busy).1.redis
        ≡ some "a")
unfolding lookup key_of
lease-IsSafe_example =
    lease-IsSafe runtime "goldflow" memory "scan" "a" "z" add_one true 30 busy memory-IsRedis refl
      (λ e. false≢true ((eq_iff "a" "z").1 e)) (omega arith)

-- Tuesday, the second day of the calendar, at eight.
contains_iff_example :
    (contains (hours "london" 7 16) (day_length + 8 * hour) ≡ true)
    ↔ ((day : ℕ) × Opens (hours "london" 7 16) day (day_length + 8 * hour))
contains_iff_example =
    contains_iff (hours "london" 7 16) (day_length + 8 * hour) (omega arith) (omega arith)
      (omega arith)

abbrev factors : ConfidenceFactors
factors = record {
  h1_trend = of_ℕ 1;
  m15_pullback = ratio (pos 1) 1;
  m5_confirmation = ratio (pos 3) 3;
  structure_alignment = of_ℕ 0;
  spread_quality = ratio (pos 1) 1;
  volatility_quality = of_ℕ 1;
}

-- 12.5 and 2.5 are rounded to the even numbers 12 and 2.
halves : (score_confidence factors default_weights).score ≡ 68
unfolding score_confidence component nearest
halves = refl

factors-valid : make_factors factors ≡ ok factors
unfolding make_factors side
factors-valid = refl

weights-valid : make_weights default_weights ≡ ok default_weights
unfolding make_weights
weights-valid = refl

score_confidence-bounded_example :
    ((score_confidence factors default_weights).components.h1_trend ≤ 30)
    × ((score_confidence factors default_weights).components.m15_pullback ≤ 25)
    × ((score_confidence factors default_weights).components.m5_confirmation ≤ 25)
    × ((score_confidence factors default_weights).components.structure_alignment ≤ 10)
    × ((score_confidence factors default_weights).components.spread_quality ≤ 5)
    × ((score_confidence factors default_weights).components.volatility_quality ≤ 5)
    × ((score_confidence factors default_weights).score
        ≡ sum_of (score_confidence factors default_weights).components)
    × ((score_confidence factors default_weights).score ≤ 100)
score_confidence-bounded_example =
    score_confidence-bounded factors default_weights factors-valid weights-valid
