-- ===== src/Base/Dict/Keys.antt =====
-- Dicts whose keys are all different, which is what Python's insertion leaves, and dicts built from
-- the items of a list.
use sarkfxbot.Base.Tests.{if◌then◌else◌, Bool-cases}
use mathlib.Core.Logic.{inl, inr}
use mathlib.Core.Bool.{false}
use Prim.Native.String.{String}
use mathlib.Core.Path.{◌≡◌, refl, subst, ◌∙◌}
use mathlib.Core.Option.{Option, none, some}
use mathlib.Core.List.{List, [], ◌∷◌}
use native.Mathlib.Omega.{arith}
use text.Mathlib.Text.{◌==◌}
use text.Mathlib.TextEquality.{eq_iff}
use sarkfxbot.Base.Dict.{Dict, lookup, insert, values, lookup-insert, lookup-nil}

abbrev pub UniqueKeys {ℓ} : {V : Type ℓ} → Dict V → Type ℓ
UniqueKeys [] = Unit
UniqueKeys ((j, v) ∷ d) = (lookup j d ≡ none) × UniqueKeys d

module _ {ℓ} {V : Type ℓ} where
  -- Every value stands under its own key.
  abbrev pub Keyed : (V → String) → Dict V → Type ℓ
  Keyed key d = (j : String) (v : V) → lookup j d ≡ some v → key v ≡ j

  -- {key(x): x for x in xs}, added to `d`
  unfoldable pub collect : (V → String) → List V → Dict V → Dict V
  collect key [] d = d
  collect key (x ∷ xs) d = collect key xs (insert (key x) x d)

  pub insert-UniqueKeys :
      (k : String) (v : V) (d : Dict V) → UniqueKeys d → UniqueKeys (insert k v d)
  unfolding lookup insert
  insert-UniqueKeys k v [] u = (refl, tt)
  insert-UniqueKeys k v ((i, w) ∷ d) u = elim (Bool-cases (i == k)) [
    | inl same ↦
        let e : i ≡ k = (eq_iff i k).0 same in rw same (subst (λ j. lookup j d ≡ none) e u.0, u.1)
    | inr other ↦
        let apart : k == i ≡ false = ground (arith, eq_iff i k, eq_iff k i) in
        rw other (lookup-insert k i v d ∙ rw apart u.0, insert-UniqueKeys k v d u.1)
  ]

  pub collect-UniqueKeys :
      (key : V → String) (xs : List V) (d : Dict V) → UniqueKeys d → UniqueKeys (collect key xs d)
  unfolding collect
  collect-UniqueKeys key [] d u = u
  collect-UniqueKeys key (x ∷ xs) d u =
      collect-UniqueKeys key xs (insert (key x) x d) (insert-UniqueKeys (key x) x d u)

  pub insert-Keyed :
      (key : V → String) (k : String) (x : V) (d : Dict V)
      → key x ≡ k
      → Keyed key d
      → Keyed key (insert k x d)
  insert-Keyed key k x d own keyed j v e =
      ground (arith, eq_iff k j, lookup-insert k j x d, keyed j v)

  pub collect-Keyed :
      (key : V → String) (xs : List V) (d : Dict V) → Keyed key d → Keyed key (collect key xs d)
  unfolding collect
  collect-Keyed key [] d keyed = keyed
  collect-Keyed key (x ∷ xs) d keyed =
      collect-Keyed key xs (insert (key x) x d) (insert-Keyed key (key x) x d refl keyed)

  abbrev pub or_else : Option V → Option V → Option V
  or_else none o = o
  or_else (some v) o = some v

  pub lookup-cons :
      (j i : String) (v : V) (d : Dict V)
      → lookup j ((i, v) ∷ d) ≡ (if i == j then some v else lookup j d)
  unfolding lookup
  lookup-cons j i v d = refl

  head_own :
      (key : V → String) (i : String) (v : V) (d : Dict V) → Keyed key ((i, v) ∷ d) → key v ≡ i
  head_own key i v d keyed = keyed i v (ground (arith, lookup-cons i i v d, eq_iff i i))

  tail-Keyed :
      (key : V → String) (i : String) (v : V) (d : Dict V)
      → lookup i d ≡ none
      → Keyed key ((i, v) ∷ d)
      → Keyed key d
  tail-Keyed key i v d fresh keyed j w e =
      keyed j w (ground (arith, lookup-cons j i v d, eq_iff i j))

  or_insert :
      (key : V → String) (i j : String) (v : V) (d c : Dict V)
      → key v ≡ i
      → lookup i d ≡ none
      → or_else (lookup j d) (lookup j (insert (key v) v c))
        ≡ or_else (lookup j ((i, v) ∷ d)) (lookup j c)
  or_insert key i j v d c own fresh =
      ground (arith, lookup-cons j i v d, lookup-insert (key v) j v c, eq_iff i j, eq_iff (key v) j)

  -- Collecting the values of a dict gives the dict back.
  pub lookup-collect :
      (key : V → String) (d c : Dict V) (j : String)
      → UniqueKeys d
      → Keyed key d
      → lookup j (collect key (values d) c) ≡ or_else (lookup j d) (lookup j c)
  unfolding collect
  lookup-collect key [] c j u keyed = rw lookup-nil
  lookup-collect key ((i, v) ∷ d) c j u keyed =
      lookup-collect key d (insert (key v) v c) j u.1 (tail-Keyed key i v d u.0 keyed)
      ∙ or_insert key i j v d c (head_own key i v d keyed) u.0
