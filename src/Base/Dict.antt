-- ===== src/Base/Dict.antt =====
-- Python dicts keyed by texts, in insertion order: a new key goes to the end, an old one keeps its
-- place.
pub mod Keys
use Prim.Native.String.{String}
use mathlib.Core.Path.{◌≡◌, refl}
use mathlib.Core.Option.{Option, none, some}
use mathlib.Core.List.{List, [], ◌∷◌}
use native.Mathlib.Omega.{arith}
use text.Mathlib.Text.{◌==◌}
use text.Mathlib.TextEquality.{eq_iff}
use sarkfxbot.Base.Tests.{if◌then◌else◌}

abbrev pub Dict {ℓ} : Type ℓ → Type ℓ
Dict V = List (String × V)

module _ {ℓ} {V : Type ℓ} where
  -- d.get(k)
  unfoldable pub lookup : String → Dict V → Option V
  lookup k [] = none
  lookup k ((j, v) ∷ d) = if j == k then some v else lookup k d

  -- d[k] = v
  unfoldable pub insert : String → V → Dict V → Dict V
  insert k v [] = (k, v) ∷ []
  insert k v ((j, w) ∷ d) = if j == k then (k, v) ∷ d else (j, w) ∷ insert k v d

  -- d.pop(k, None), by what it leaves
  unfoldable pub remove : String → Dict V → Dict V
  remove k [] = []
  remove k ((j, v) ∷ d) = if j == k then d else (j, v) ∷ remove k d

  -- d.values()
  abbrev pub values : Dict V → List V
  values [] = []
  values ((j, v) ∷ d) = v ∷ values d

  pub lookup-insert :
      (k j : String) (v : V) (d : Dict V)
      → lookup j (insert k v d) ≡ (if k == j then some v else lookup j d)
  unfolding lookup insert
  lookup-insert k j v [] = refl
  lookup-insert k j v ((i, w) ∷ d) =
      ground (arith, eq_iff k j, eq_iff i k, eq_iff i j, lookup-insert k j v d)

  -- A text equals itself.
  pub lookup-insert_self : (k : String) (v : V) (d : Dict V) → lookup k (insert k v d) ≡ some v
  lookup-insert_self k v d = ground (arith, lookup-insert k k v d, eq_iff k k)

pub lookup-nil {ℓ} : {V : Type ℓ} (k : String) → lookup {V = V} k [] ≡ none
unfolding lookup
lookup-nil k = refl
