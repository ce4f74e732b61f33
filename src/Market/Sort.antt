-- ===== src/Market/Sort.antt =====
-- Python's `sorted`, which keeps the order of items with equal keys, for keys that are numbers; and
-- how it commutes with a filter.
use sarkfxbot.Base.{
  ℕ, ◌≤◌, ◌<◌, ◌≡◌, refl, sym, ap, ◌∙◌, Bool, true, false, List, [], ◌∷◌, filter, filter-All, All,
  leb, arith, Bool-cases, inl, inr, if◌then◌else◌,
}

module _ {A : Type 0} (key : A → ℕ) where
  -- Behind the items whose key is not above.
  unfoldable pub put_in : A → List A → List A
  put_in x [] = x ∷ []
  put_in x (y ∷ ys) = let rest = put_in x ys in if leb (key y) (key x) then y ∷ rest else x ∷ y ∷ ys

  unfoldable pub sort_onto : List A → List A → List A
  sort_onto sorted [] = sorted
  sort_onto sorted (x ∷ xs) = sort_onto (put_in x sorted) xs

  -- sorted(xs, key=key)
  unfoldable pub sort_by : List A → List A
  sort_by xs = sort_onto [] xs

  abbrev pub IsSorted : List A → Type 0
  IsSorted [] = Unit
  IsSorted (x ∷ xs) = All (λ y. key x ≤ key y) xs × IsSorted xs

  put_in-All :
      (n : ℕ) (x : A) (ys : List A)
      → n ≤ key x
      → All (λ y. n ≤ key y) ys
      → All (λ y. n ≤ key y) (put_in x ys)
  unfolding put_in
  put_in-All n x [] h a = (h, tt)
  put_in-All n x (y ∷ ys) h a = elim (Bool-cases (leb (key y) (key x))) [
    | inl below ↦ rw below (a.0, put_in-All n x ys h a.1)
    | inr above ↦ rw above (h, (a.0, a.1))
  ]

  All-above :
      (x y : A) (ys : List A)
      → key x ≤ key y
      → All (λ z. key y ≤ key z) ys
      → All (λ z. key x ≤ key z) ys
  All-above x y [] h a = tt
  All-above x y (z ∷ zs) h a = (omega arith, All-above x y zs h a.1)

  pub put_in-IsSorted : (x : A) (ys : List A) → IsSorted ys → IsSorted (put_in x ys)
  unfolding put_in
  put_in-IsSorted x [] s = (tt, tt)
  put_in-IsSorted x (y ∷ ys) s = elim (Bool-cases (leb (key y) (key x))) [
    | inl below ↦ rw below (put_in-All (key y) x ys (ground arith) s.0, put_in-IsSorted x ys s.1)
    | inr above ↦
        let h : key x ≤ key y = ground arith in rw above ((h, All-above x y ys h s.0), (s.0, s.1))
  ]

  -- An item that is in front of all that are left.
  put_in_front : (x : A) (ys : List A) → All (λ y. key x < key y) ys → put_in x ys ≡ x ∷ ys
  unfolding put_in
  put_in_front x [] h = refl
  put_in_front x (y ∷ ys) h = ground arith

  above-All :
      (x y : A) (ys : List A)
      → key x < key y
      → All (λ z. key y ≤ key z) ys
      → All (λ z. key x < key z) (y ∷ ys)
  above-All x y [] h a = (h, tt)
  above-All x y (z ∷ zs) h a = let rest = above-All x y zs h a.1 in (h, (omega arith, rest.1))

  filter-put_in :
      (p : A → Bool) (x : A) (ys : List A)
      → IsSorted ys
      → filter p (put_in x ys) ≡ (if p x then put_in x (filter p ys) else filter p ys)
  unfolding put_in
  filter-put_in p x [] s = ground arith
  filter-put_in p x (y ∷ ys) s = elim (Bool-cases (leb (key y) (key x))) [
    | inl below ↦ ground (arith, filter-put_in p x ys s.1)
    | inr above ↦
        let front : All (λ z. key x < key z) (y ∷ ys) = above-All x y ys (ground arith) s.0 in
        let e =
          put_in_front x (filter p (y ∷ ys)) (filter-All (λ z. key x < key z) p (y ∷ ys) front) in
        rw above (by_test (p x) x (filter p (y ∷ ys)) e)
  ]
    where
      by_test :
          (b : Bool) (x : A) (zs : List A)
          → put_in x zs ≡ x ∷ zs
          → (if b then x ∷ zs else zs) ≡ (if b then put_in x zs else zs)
      by_test true x zs e = sym e
      by_test false x zs e = refl

  filter-sort_onto :
      (p : A → Bool) (sorted xs : List A)
      → IsSorted sorted
      → filter p (sort_onto sorted xs) ≡ sort_onto (filter p sorted) (filter p xs)
  unfolding sort_onto
  filter-sort_onto p sorted [] s = refl
  filter-sort_onto p sorted (x ∷ xs) s =
      filter-sort_onto p (put_in x sorted) xs (put_in-IsSorted x sorted s)
      ∙ by_test (p x) (filter-put_in p x sorted s)
    where
      by_test :
          (b : Bool)
          → filter p (put_in x sorted) ≡ (if b then put_in x (filter p sorted) else filter p sorted)
          → sort_onto (filter p (put_in x sorted)) (filter p xs)
            ≡ sort_onto (filter p sorted) (if b then x ∷ filter p xs else filter p xs)
      by_test true e = ap (λ l. sort_onto l (filter p xs)) e
      by_test false e = ap (λ l. sort_onto l (filter p xs)) e

  -- Sorting and then choosing is choosing and then sorting.
  pub filter-sort_by : (p : A → Bool) (xs : List A) → filter p (sort_by xs) ≡ sort_by (filter p xs)
  unfolding sort_by
  filter-sort_by p xs = filter-sort_onto p [] xs tt

  sort_onto-IsSorted : (sorted xs : List A) → IsSorted sorted → IsSorted (sort_onto sorted xs)
  unfolding sort_onto
  sort_onto-IsSorted sorted [] s = s
  sort_onto-IsSorted sorted (x ∷ xs) s =
      sort_onto-IsSorted (put_in x sorted) xs (put_in-IsSorted x sorted s)

  pub sort_by-IsSorted : (xs : List A) → IsSorted (sort_by xs)
  unfolding sort_by
  sort_by-IsSorted xs = sort_onto-IsSorted [] xs tt
