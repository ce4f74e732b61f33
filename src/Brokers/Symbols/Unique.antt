-- ===== src/Brokers/Symbols/Unique.antt =====
-- The best symbol is the one that resolve_symbol of app/brokers/symbols.py returns.
use sarkfxbot.Base.{ℕ, ◌≤◌, String, ◌≡◌, Option, none, some, List, [], ◌∷◌, arith, ap, ◌∙◌}
use sarkfxbot.Domain.Models.{SymbolSpecification}
use sarkfxbot.Brokers.Symbols.{with_rank, highest, winners}

module _ (canonical : String) (aliases : List String) where
  taken :
      (h n : ℕ) (s : SymbolSpecification) (rs : List (ℕ × SymbolSpecification))
      → n ≡ h
      → winners h ((n, s) ∷ rs) ≡ s ∷ winners h rs
  unfolding winners
  taken h n s rs same = ground arith

  raised :
      (h n : ℕ) (s : SymbolSpecification) (rs : List (ℕ × SymbolSpecification))
      → n ≡ h
      → highest rs ≤ h
      → highest ((n, s) ∷ rs) ≡ h
  unfolding highest
  raised h n s rs same le = ground arith

  wins :
      (h : ℕ) (s : SymbolSpecification) (rs : List (ℕ × SymbolSpecification)) (o : Option ℕ)
      → o ≡ some h
      → highest rs ≤ h
      → winners h rs ≡ []
      → (highest (with_rank canonical aliases o s rs) ≡ h)
        × (winners h (with_rank canonical aliases o s rs) ≡ s ∷ [])
  wins h s rs none e le w = absurd (cc)
  wins h s rs (some n) e le w =
      let same : n ≡ h = cc in (raised h n s rs same le, taken h n s rs same ∙ ap (λ l. s ∷ l) w)
