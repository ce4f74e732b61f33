-- ===== src/Base/Reasons.antt =====
-- Lists of guarded reasons. A run of statements `if test: reasons.append(text)` is a list of pairs
-- of a test and a text; an `elif` carries the negation of the tests before it.
use Prim.Native.String
use Prim.Native.String.{String}
use mathlib.Core.Path.{◌≡◌, refl}
use mathlib.Core.Bool.{Bool, true, false, not}
use mathlib.Core.Logic.{◌↔◌}
use mathlib.Core.List.{List, [], ◌∷◌, ◌++◌}
use native.Mathlib.Omega.{arith}
use text.Mathlib.Text.{◌==◌}
use sarkfxbot.Base.Tests.{if◌then◌else◌}
use sarkfxbot.Base.Lists.{filter, is_empty}

abbrev pub Check : Type 0
Check = Bool × String

unfoldable pub failing : List Check → List String
failing [] = []
failing ((bad, text) ∷ cs) = if bad then text ∷ failing cs else failing cs

-- tuple(dict.fromkeys(reasons)): the first of each, in order
unfoldable pub unique : List String → List String
unique [] = []
unique (x ∷ xs) = x ∷ filter (λ y. not (x == y)) (unique xs)

-- separator.join(texts)
pub join : String → List String → String
join separator [] = ""
join separator (x ∷ []) = x
join separator (x ∷ y ∷ ys) = String.◌++◌ x (String.◌++◌ separator (join separator (y ∷ ys)))

-- None of the tests fires.
abbrev pub AllClear : List Check → Type 0
AllClear [] = Unit
AllClear ((bad, text) ∷ cs) = (bad ≡ false) × AllClear cs

pub clear_of_failing : (cs : List Check) → is_empty (failing cs) ≡ true → AllClear cs
unfolding failing
clear_of_failing [] h = tt
clear_of_failing ((true, text) ∷ cs) h = ground arith
clear_of_failing ((false, text) ∷ cs) h = (refl, clear_of_failing cs h)

pub failing_of_clear : (cs : List Check) → AllClear cs → failing cs ≡ []
unfolding failing
failing_of_clear [] h = refl
failing_of_clear ((bad, text) ∷ cs) h = ground (arith, failing_of_clear cs h.1)

pub is_empty-unique : (xs : List String) → is_empty (unique xs) ≡ is_empty xs
unfolding unique
is_empty-unique [] = refl
is_empty-unique (x ∷ xs) = refl

pub AllClear-append : (xs ys : List Check) → AllClear (xs ++ ys) ↔ (AllClear xs × AllClear ys)
AllClear-append [] ys = (λ h. (tt, h), λ h. h.1)
AllClear-append ((bad, text) ∷ xs) ys = (
  λ h. let (front, back) = (AllClear-append xs ys).0 h.1 in ((h.0, front), back),
  λ h. (h.0.0, (AllClear-append xs ys).1 (h.0.1, h.1)),
)
