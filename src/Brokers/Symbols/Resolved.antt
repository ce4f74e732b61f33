-- ===== src/Brokers/Symbols/Resolved.antt =====
-- What a resolved symbol of app/brokers/symbols.py is.
use sarkfxbot.Base.{
  ℕ, ◌≤◌, ◌<◌, String, ◌≡◌, refl, ◌⊎◌, inl, inr, Option, none, some, List, [], ◌∷◌, ◌++◌, All,
  arith, ap, subst, sym, ◌∙◌,
}
use sarkfxbot.Base.Exec.{Result, ok, err}
use sarkfxbot.Domain.Models.{SymbolSpecification}
use sarkfxbot.Brokers.Symbols.{
  rank, with_rank, ranked, highest, winners, sole, choose, resolve_in, accepted_aliases,
  resolve_symbol, canonicalize_symbol,
}

-- No score, or a lower one.
abbrev pub IsBelow : ℕ → Option ℕ → Type 0
IsBelow h none = Unit
IsBelow h (some n) = n < h

-- The symbol stands at one place of the list; it may be traded and has a score, and every other
-- symbol that may be traded has no score or a lower one.
pub record IsBest (canonical : String) (aliases : List String) (symbols : List SymbolSpecification)
    (s : SymbolSpecification) (points : ℕ) : Type 0 where
  pub before : List SymbolSpecification
  pub after : List SymbolSpecification
  pub here : symbols ≡ before ++ (s ∷ after)
  pub scored : rank canonical aliases s ≡ some points
  pub others : All (λ t. IsBelow points (rank canonical aliases t)) (before ++ after)

module _ (canonical : String) (aliases : List String) where
  abbrev Beaten : ℕ → List SymbolSpecification → Type 0
  Beaten h ss = All (λ t. IsBelow h (rank canonical aliases t)) ss

  -- The head is one of the winners, or its score is lower.
  winners-cases :
      (h n : ℕ) (t : SymbolSpecification) (rs : List (ℕ × SymbolSpecification))
      → highest ((n, t) ∷ rs) ≤ h
      → ((winners h ((n, t) ∷ rs) ≡ t ∷ winners h rs) × (n ≡ h)
          ⊎ (winners h ((n, t) ∷ rs) ≡ winners h rs) × (n < h))
        × (highest rs ≤ h)
  unfolding winners highest
  winners-cases h n t rs le = (ground arith, ground arith)

  is_below :
      (h : ℕ) (t : SymbolSpecification) (o : Option ℕ)
      → rank canonical aliases t ≡ o
      → IsBelow h o
      → IsBelow h (rank canonical aliases t)
  is_below h t o e b = subst (IsBelow h) (sym e) b

  no_winner_with :
      (h : ℕ) (t : SymbolSpecification) (rs : List (ℕ × SymbolSpecification)) (o : Option ℕ)
      → rank canonical aliases t ≡ o
      → highest (with_rank canonical aliases o t rs) ≤ h
      → winners h (with_rank canonical aliases o t rs) ≡ []
      → IsBelow h (rank canonical aliases t) × (highest rs ≤ h) × (winners h rs ≡ [])
  no_winner_with h t rs none at le e = (is_below h t none at tt, le, e)
  no_winner_with h t rs (some n) at le e =
      let (won, rest) = winners-cases h n t rs le in
      elim won [
        | inl (w, same) ↦ absurd (cc)
        | inr (w, lower) ↦ (is_below h t (some n) at lower, rest, sym w ∙ e)
      ]

  -- Where nothing has the score `h`, which none exceeds, all are below it.
  no_winner :
      (h : ℕ) (ss : List SymbolSpecification)
      → highest (ranked canonical aliases ss) ≤ h
      → winners h (ranked canonical aliases ss) ≡ []
      → Beaten h ss
  unfolding ranked
  no_winner h [] le e = tt
  no_winner h (t ∷ ss) le e =
      let split =
        no_winner_with h t (ranked canonical aliases ss) (rank canonical aliases t) refl le e in
      (split.0, no_winner h ss split.1 split.2)

  -- The head is the winner and the others are below, or it is below.
  one_winner_with :
      (h : ℕ) (t s : SymbolSpecification) (rs : List (ℕ × SymbolSpecification)) (o : Option ℕ)
      → rank canonical aliases t ≡ o
      → highest (with_rank canonical aliases o t rs) ≤ h
      → winners h (with_rank canonical aliases o t rs) ≡ s ∷ []
      → (highest rs ≤ h)
        × ((rank canonical aliases s ≡ some h) × (t ≡ s) × (winners h rs ≡ [])
            ⊎ IsBelow h (rank canonical aliases t) × (winners h rs ≡ s ∷ []))
  one_winner_with h t s rs none at le e = (le, inr (is_below h t none at tt, e))
  one_winner_with h t s rs (some n) at le e =
      let (won, rest) = winners-cases h n t rs le in
      elim won [
        | inl (w, same) ↦
            let it : t ≡ s = cc in
            (rest, inl (ap (rank canonical aliases) (sym it) ∙ at ∙ ap some same, it, cc))
        | inr (w, lower) ↦ (rest, inr (is_below h t (some n) at lower, sym w ∙ e))
      ]

  one_winner :
      (h : ℕ) (ss : List SymbolSpecification) (s : SymbolSpecification)
      → highest (ranked canonical aliases ss) ≤ h
      → winners h (ranked canonical aliases ss) ≡ s ∷ []
      → IsBest canonical aliases ss s h
  unfolding ranked winners
  one_winner h [] s le e = absurd (cc)
  one_winner h (t ∷ ss) s le e =
      let (rest, best_or_below) =
        one_winner_with h t s (ranked canonical aliases ss) (rank canonical aliases t) refl le e in
      elim best_or_below [
        | inl (at, it, none_left) ↦ record {
          before = [];
          after = ss;
          here = ap (λ u. u ∷ ss) it;
          scored = at;
          others = no_winner h ss rest none_left;
        }
        | inr (below, w) ↦
            let best = one_winner h ss s rest w in
            record {
              before = t ∷ best.before;
              after = best.after;
              here = ap (λ l. t ∷ l) best.here;
              scored = best.scored;
              others = (below, best.others);
            }
      ]

-- The canonical name under which a symbol is the best of the listed ones.
abbrev pub IsMeant : String → List SymbolSpecification → List String → SymbolSpecification → Type 0
IsMeant name symbols aliases s =
    (canonical : String) × (points : ℕ) × (canonicalize_symbol name ≡ ok canonical)
    × IsBest canonical (accepted_aliases canonical aliases) symbols s points

sole_winner :
    (canonical : String) (aliases : List String) (ss : List SymbolSpecification)
    (s : SymbolSpecification) (rs : List (ℕ × SymbolSpecification))
    → ranked canonical aliases ss ≡ rs
    → choose rs ≡ ok s
    → winners (highest rs) rs ≡ s ∷ []
sole_winner canonical aliases ss s [] at e = absurd (cc)
sole_winner canonical aliases ss s (r ∷ rs) at e = sole_one (winners (highest (r ∷ rs)) (r ∷ rs)) e
  where
    sole_one : (l : List SymbolSpecification) → sole l ≡ ok s → l ≡ s ∷ []
    sole_one [] e = absurd (cc)
    sole_one (x ∷ []) e = let it : x ≡ s = cc in ap (λ y. y ∷ []) it
    sole_one (x ∷ y ∷ l) e = absurd (cc)

-- A symbol that is resolved is one of the listed symbols; it may be traded, and under the canonical
-- name and the accepted aliases it has a score that no other listed symbol which may be traded
-- reaches.
pub resolve_symbol-IsMeant :
    (name : String) (symbols : List SymbolSpecification) (aliases : List String)
    (s : SymbolSpecification)
    → resolve_symbol name symbols aliases ≡ ok s
    → IsMeant name symbols aliases s
unfolding resolve_symbol
resolve_symbol-IsMeant name symbols aliases s e = with_name (canonicalize_symbol name) refl e
  where
    with_name :
        (r : Result String)
        → canonicalize_symbol name ≡ r
        → resolve_in symbols aliases r ≡ ok s
        → IsMeant name symbols aliases s
    with_name (err x) at e = absurd (cc)
    with_name (ok canonical) at e =
        let accepted = accepted_aliases canonical aliases in
        let rs = ranked canonical accepted symbols in
        let one = sole_winner canonical accepted symbols s rs refl e in
        (
          canonical,
          highest rs,
          at,
          one_winner canonical accepted (highest rs) symbols s (omega arith) one,
        )
