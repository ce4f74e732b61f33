-- ===== src/Brokers/Avoids.antt =====
-- How many calls of a kind an action on the broker (app/brokers/base.py) makes: the classification
-- of the calls, and actions that make none of a kind.
use sarkfxbot.Base.{◌≡◌, refl, ◌∙◌, Bool, true, false, count, arith, if◌then◌else◌}
use sarkfxbot.Base.Exec.{
  Error, Result, ok, err, Exec, pure, raise, lift, continue, ◌>>=◌, attempt, recover, if_recovered,
}
use sarkfxbot.Brokers.Port.{Call, Trace, ask}

-- A call that creates new exposure.
abbrev pub is_send : Call → Bool
is_send (Call.place_market_order q) = true
is_send (Call.place_pending_order q) = true
is_send _ = false

-- A call that changes the account's orders or positions.
abbrev pub is_mutation : Call → Bool
is_mutation (Call.place_market_order q) = true
is_mutation (Call.place_pending_order q) = true
is_mutation (Call.modify_position ticket stop target) = true
is_mutation (Call.close_position ticket volume) = true
is_mutation (Call.cancel_order ticket) = true
is_mutation _ = false

-- Every call that passes `p` passes `k`.
abbrev pub IsKind : (Call → Bool) → (Call → Bool) → Type 0
IsKind k p = (c : Call) → k c ≡ false → p c ≡ false

pub IsKind-send : (p : Call → Bool) → IsKind is_send p → IsKind is_mutation p
IsKind-send p h (Call.place_market_order q) m = ground arith
IsKind-send p h (Call.place_pending_order q) m = ground arith
IsKind-send p h c m = h c refl

-- From every trace, the action makes no call that passes `p`.
pub record Avoids {A : Type 0} (p : Call → Bool) (m : Exec Trace A) : Type 0 where
  pub same_count : (calls : Trace) → count p (m calls).1 ≡ count p calls

module _ (p : Call → Bool) {A : Type 0} where
  pub Avoids-pure : (a : A) → Avoids {A = A} p (pure a)
  Avoids-pure a = record { same_count = λ calls. refl }

  pub Avoids-raise : (e : Error) → Avoids {A = A} p (raise e)
  Avoids-raise e = record { same_count = λ calls. refl }

  pub Avoids-ask : (c : Call) (answer : Trace → Result A) → p c ≡ false → Avoids p (ask c answer)
  Avoids-ask c answer h = record { same_count = λ calls. ground arith }

  pub Avoids-if :
      (b : Bool) {m n : Exec Trace A} → Avoids p m → Avoids p n → Avoids p (if b then m else n)
  Avoids-if true h k = h
  Avoids-if false h k = k

  recovered_count :
      (r : Result A) (default : A) (calls : Trace)
      → count p (if_recovered r default calls).1 ≡ count p calls
  recovered_count (ok a) default calls = refl
  recovered_count (err e) default calls = ground arith

  pub Avoids-recover : (m : Exec Trace A) (default : A) → Avoids p m → Avoids p (recover m default)
  Avoids-recover m default h = record {
    same_count =
        λ calls. let (r, calls') = m calls in recovered_count r default calls' ∙ h.same_count calls;
  }

module _ (p : Call → Bool) {A B : Type 0} where
  count-continue :
      (r : Result A) (f : A → Exec Trace B) (calls : Trace)
      → ((a : A) → Avoids p (f a))
      → count p (continue r f calls).1 ≡ count p calls
  count-continue (ok a) f calls h = (h a).same_count calls
  count-continue (err e) f calls h = refl

  pub Avoids-bind :
      (m : Exec Trace A) (f : A → Exec Trace B)
      → Avoids p m
      → ((a : A) → Avoids p (f a))
      → Avoids p (m >>= f)
  Avoids-bind m f h k = record {
    same_count =
        λ calls. let (r, calls') = m calls in count-continue r f calls' k ∙ h.same_count calls;
  }

  count-attempt :
      (r : Result A) (f : A → Exec Trace B) (g : Error → Exec Trace B) (calls : Trace)
      → ((a : A) → Avoids p (f a))
      → ((e : Error) → Avoids p (g e))
      → count p (attempt (lift r) f g calls).1 ≡ count p calls
  count-attempt (ok a) f g calls h k = (h a).same_count calls
  count-attempt (err e) f g calls h k = (k e).same_count calls

  pub Avoids-attempt :
      (m : Exec Trace A) (f : A → Exec Trace B) (g : Error → Exec Trace B)
      → Avoids p m
      → ((a : A) → Avoids p (f a))
      → ((e : Error) → Avoids p (g e))
      → Avoids p (attempt m f g)
  Avoids-attempt m f g h k l = record {
    same_count =
        λ calls. let (r, calls') = m calls in count-attempt r f g calls' k l ∙ h.same_count calls;
  }
