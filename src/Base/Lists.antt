-- ===== src/Base/Lists.antt =====
-- Lists over the native numbers: length, Boolean search, and predicates by recursion.
use Prim.Native.Nat.{ℕ, zero, suc, ◌+◌, ◌≤◌, ◌<◌}
use mathlib.Core.Path.{◌≡◌, refl, ap}
use mathlib.Core.Bool.{Bool, true, false, ◌||◌, ◌&&◌}
use mathlib.Core.Option.{Option, none, some}
use mathlib.Core.List.{List, [], ◌∷◌, ◌++◌}
use native.Mathlib.Omega.{arith}
use sarkfxbot.Base.Tests.{leb, if◌then◌else◌}

abbrev pub All {ℓ κ} : {A : Type ℓ} → (A → Type κ) → List A → Type κ
All P [] = Unit
All P (x ∷ xs) = P x × All P xs

module _ {ℓ} {A : Type ℓ} where
  abbrev pub length : List A → ℕ
  length [] = 0
  length (x ∷ xs) = suc (length xs)

  -- Python's `any(p(x) for x in xs)`
  abbrev pub any : (A → Bool) → List A → Bool
  any p [] = false
  any p (x ∷ xs) = p x || any p xs

  -- Python's `next((x for x in xs if p(x)), None)`
  abbrev pub find : (A → Bool) → List A → Option A
  find p [] = none
  find p (x ∷ xs) = if p x then some x else find p xs

  -- Python's `sum(p(x) for x in xs)`, which counts the items that pass
  abbrev pub count : (A → Bool) → List A → ℕ
  count p [] = 0
  count p (x ∷ xs) = if p x then suc (count p xs) else count p xs

  -- Python's `tuple(x for x in xs if p(x))`
  abbrev pub filter : (A → Bool) → List A → List A
  filter p [] = []
  filter p (x ∷ xs) = if p x then x ∷ filter p xs else filter p xs

  -- The last item, Python's `xs[-1]`; `none` where that raises IndexError.
  abbrev pub get_last? : List A → Option A
  get_last? [] = none
  get_last? (x ∷ []) = some x
  get_last? (x ∷ y ∷ ys) = get_last? (y ∷ ys)

  -- Python's `xs[:n]` and `xs[n:]`
  abbrev pub take : ℕ → List A → List A
  take zero xs = []
  take (suc n) [] = []
  take (suc n) (x ∷ xs) = x ∷ take n xs

  abbrev pub drop : ℕ → List A → List A
  drop zero xs = xs
  drop (suc n) [] = []
  drop (suc n) (x ∷ xs) = drop n xs

  abbrev pub get_elem? : List A → ℕ → Option A
  get_elem? [] i = none
  get_elem? (x ∷ xs) zero = some x
  get_elem? (x ∷ xs) (suc i) = get_elem? xs i

  -- Python's `all(p(x) for x in xs)`
  abbrev pub all : (A → Bool) → List A → Bool
  all p [] = true
  all p (x ∷ xs) = p x && all p xs

  -- Python's `xs[-n:]` for a positive n
  abbrev pub last_items : ℕ → List A → List A
  last_items n [] = []
  last_items n (x ∷ xs) =
      let rest = last_items n xs in if leb (length (x ∷ xs)) n then x ∷ xs else rest

  abbrev pub is_empty : List A → Bool
  is_empty [] = true
  is_empty (x ∷ xs) = false

  pub any-eq-false : (p : A → Bool) (xs : List A) → any p xs ≡ false → All (λ x. p x ≡ false) xs
  any-eq-false p [] h = tt
  any-eq-false p (x ∷ xs) h = (ground arith, any-eq-false p xs (ground arith))

  pub any-false_of_All : (p : A → Bool) (xs : List A) → All (λ x. p x ≡ false) xs → any p xs ≡ false
  any-false_of_All p [] h = refl
  any-false_of_All p (x ∷ xs) h = ground (arith, any-false_of_All p xs h.1)

  pub All-map {κ μ} :
      {P : A → Type κ} {Q : A → Type μ} (f : (x : A) → P x → Q x) (xs : List A)
      → All P xs
      → All Q xs
  All-map f [] h = tt
  All-map f (x ∷ xs) h = (f x h.0, All-map f xs h.1)

  pub find-passes : (p : A → Bool) (xs : List A) (a : A) → find p xs ≡ some a → p a ≡ true
  find-passes p [] a h = ground arith
  find-passes p (x ∷ xs) a h = ground (arith, find-passes p xs a)

  pub length-append : (xs ys : List A) → length (xs ++ ys) ≡ length xs + length ys
  length-append [] ys = omega arith
  length-append (x ∷ xs) ys = omega (arith, length-append xs ys)

  pub filter-All {κ} :
      (P : A → Type κ) (p : A → Bool) (xs : List A) → All P xs → All P (filter p xs)
  filter-All P p [] h = tt
  filter-All P p (x ∷ xs) h = keep (p x) (filter-All P p xs h.1)
    where
      keep : (b : Bool) → All P (filter p xs) → All P (if b then x ∷ filter p xs else filter p xs)
      keep true rest = (h.0, rest)
      keep false rest = rest

  -- What a filter leaves passes its test.
  pub filter-passes : (p : A → Bool) (xs : List A) → All (λ x. p x ≡ true) (filter p xs)
  filter-passes p [] = tt
  filter-passes p (x ∷ xs) = keep (p x) refl (filter-passes p xs)
    where
      keep :
          (b : Bool)
          → p x ≡ b
          → All (λ y. p y ≡ true) (filter p xs)
          → All (λ y. p y ≡ true) (if b then x ∷ filter p xs else filter p xs)
      keep true e rest = (e, rest)
      keep false e rest = rest

  -- Slices and items within the front of a list do not see what is behind it.
  pub get_elem?-append :
      (xs ys : List A) (i : ℕ) → i < length xs → get_elem? (xs ++ ys) i ≡ get_elem? xs i
  get_elem?-append [] ys i h = absurd (omega arith)
  get_elem?-append (x ∷ xs) ys zero h = refl
  get_elem?-append (x ∷ xs) ys (suc i) h = get_elem?-append xs ys i (omega arith)

  pub take-append : (xs ys : List A) (n : ℕ) → n ≤ length xs → take n (xs ++ ys) ≡ take n xs
  take-append xs ys zero h = refl
  take-append [] ys (suc n) h = absurd (omega arith)
  take-append (x ∷ xs) ys (suc n) h = ap (λ l. x ∷ l) (take-append xs ys n (omega arith))

  pub take-drop-append :
      (xs ys : List A) (m n : ℕ)
      → m + n ≤ length xs
      → take n (drop m (xs ++ ys)) ≡ take n (drop m xs)
  take-drop-append xs ys zero n h = take-append xs ys n (omega arith)
  take-drop-append [] ys (suc m) zero h = absurd (omega arith)
  take-drop-append [] ys (suc m) (suc n) h = absurd (omega arith)
  take-drop-append (x ∷ xs) ys (suc m) n h = take-drop-append xs ys m n (omega arith)

  pub filter-append :
      (p : A → Bool) (xs ys : List A) → filter p (xs ++ ys) ≡ filter p xs ++ filter p ys
  filter-append p [] ys = refl
  filter-append p (x ∷ xs) ys = keep (p x) (filter-append p xs ys)
    where
      keep :
          (b : Bool)
          → filter p (xs ++ ys) ≡ filter p xs ++ filter p ys
          → (if b then x ∷ filter p (xs ++ ys) else filter p (xs ++ ys))
            ≡ (if b then x ∷ filter p xs else filter p xs) ++ filter p ys
      keep true e = ap (λ l. x ∷ l) e
      keep false e = e
