-- ===== src/Base/Ensures.antt =====
-- Statements about actions that may raise: from a state with `P` an action returns with `Q`, or
-- raises with `I`. The proofs about a method follow its statements with these lemmas.
use sarkfxbot.Base.{◌≡◌, refl, Bool, true, false, if◌then◌else◌}
use sarkfxbot.Base.Exec.{Error, Result, ok, err, Exec, pure, raise, lift, continue, ◌>>=◌, attempt}

module _ {S A : Type 0} where
  abbrev pub Post : (S → Type 0) → (A → S → Type 0) → Result A × S → Type 0
  Post I Q (ok a, s) = Q a s
  Post I Q (err e, s) = I s

  pub record Ensures (I P : S → Type 0) (m : Exec S A) (Q : A → S → Type 0) : Type 0 where
    pub post : (s : S) → P s → Post I Q (m s)

  -- `I` holds after the action, whether it returns or raises.
  abbrev pub Keeps : (S → Type 0) → Exec S A → Type 0
  Keeps I m = Ensures I I m (λ _ s. I s)

  pub Post-of :
      (I : S → Type 0) (Q : A → S → Type 0) (r : Result A) (s : S)
      → ((a : A) → r ≡ ok a → Q a s)
      → ((e : Error) → r ≡ err e → I s)
      → Post I Q (r, s)
  Post-of I Q (ok a) s h k = h a refl
  Post-of I Q (err e) s h k = k e refl

  Post-weaker :
      (I : S → Type 0) (Q R : A → S → Type 0) (r : Result A) (s : S)
      → ((a : A) → Q a s → R a s)
      → Post I Q (r, s)
      → Post I R (r, s)
  Post-weaker I Q R (ok a) s h p = h a p
  Post-weaker I Q R (err e) s h p = p

  module _ {I P : S → Type 0} {m : Exec S A} {Q : A → S → Type 0} where
    pub Ensures-from :
        {P' : S → Type 0} → ((s : S) → P' s → P s) → Ensures I P m Q → Ensures I P' m Q
    Ensures-from f h = record { post = λ s p. h.post s (f s p) }

    pub Ensures-to :
        {R : A → S → Type 0} → ((a : A) (s : S) → Q a s → R a s) → Ensures I P m Q → Ensures I P m R
    Ensures-to {R} f h = record {
      post = λ s p. let (r, s') = m s in Post-weaker I Q R r s' (λ a. f a s') (h.post s p);
    }

  error_weaker :
      (I J : S → Type 0) (Q : A → S → Type 0) (r : Result A) (s : S)
      → ((s : S) → I s → J s)
      → Post I Q (r, s)
      → Post J Q (r, s)
  error_weaker I J Q (ok a) s f p = p
  error_weaker I J Q (err e) s f p = f s p

  pub Ensures-error :
      {I J P : S → Type 0} {m : Exec S A} {Q : A → S → Type 0}
      → ((s : S) → I s → J s)
      → Ensures I P m Q
      → Ensures J P m Q
  Ensures-error {I} {J} {m} {Q} f h = record {
    post = λ s p. let (r, s') = m s in error_weaker I J Q r s' f (h.post s p);
  }

  module _ {I P : S → Type 0} {Q : A → S → Type 0} where
    pub Ensures-pure : (a : A) → ((s : S) → P s → Q a s) → Ensures I P (pure a) Q
    Ensures-pure a h = record { post = h }

    pub Ensures-raise : (e : Error) → ((s : S) → P s → I s) → Ensures I P (raise e) Q
    Ensures-raise e h = record { post = h }

    pub Ensures-if :
        (b : Bool) {m n : Exec S A}
        → Ensures I P m Q
        → Ensures I P n Q
        → Ensures I P (if b then m else n) Q
    Ensures-if true h k = h
    Ensures-if false h k = k

    -- The branches may use what the test told.
    pub Ensures-if_tested :
        (b : Bool) {m n : Exec S A}
        → (b ≡ true → Ensures I P m Q)
        → (b ≡ false → Ensures I P n Q)
        → Ensures I P (if b then m else n) Q
    Ensures-if_tested true h k = h refl
    Ensures-if_tested false h k = k refl

module _ {S A B : Type 0} {I : S → Type 0} {R : B → S → Type 0} where
  continue-Post :
      {Q : A → S → Type 0} (r : Result A) (s : S) (f : A → Exec S B)
      → Post I Q (r, s)
      → ((a : A) → Ensures I (Q a) (f a) R)
      → Post I R (continue r f s)
  continue-Post (ok a) s f h k = (k a).post s h
  continue-Post (err e) s f h k = h

  pub Ensures-bind :
      {P : S → Type 0} {Q : A → S → Type 0} (m : Exec S A) (f : A → Exec S B)
      → Ensures I P m Q
      → ((a : A) → Ensures I (Q a) (f a) R)
      → Ensures I P (m >>= f) R
  Ensures-bind m f h k = record {
    post = λ s p. let (r, s') = m s in continue-Post r s' f (h.post s p) k;
  }

  attempt-Post :
      {J : S → Type 0} {Q : A → S → Type 0} (r : Result A) (s : S) (f : A → Exec S B)
      (g : Error → Exec S B)
      → Post J Q (r, s)
      → ((a : A) → Ensures I (Q a) (f a) R)
      → ((e : Error) → Ensures I J (g e) R)
      → Post I R (attempt (lift r) f g s)
  attempt-Post (ok a) s f g h k l = (k a).post s h
  attempt-Post (err e) s f g h k l = (l e).post s h

  -- The handlers start from what the action keeps when it raises.
  pub Ensures-attempt :
      {P J : S → Type 0} {Q : A → S → Type 0} (m : Exec S A) (f : A → Exec S B)
      (g : Error → Exec S B)
      → Ensures J P m Q
      → ((a : A) → Ensures I (Q a) (f a) R)
      → ((e : Error) → Ensures I J (g e) R)
      → Ensures I P (attempt m f g) R
  Ensures-attempt m f g h k l = record {
    post = λ s p. let (r, s') = m s in attempt-Post r s' f g (h.post s p) k l;
  }
