-- ===== src/Brokers/Symbols.antt =====
-- app/brokers/symbols.py: the one broker symbol that a canonical symbol means, or an error.
pub mod Resolved
pub mod Unique
use sarkfxbot.Base.{
  ℕ, String, str_eq, Bool, true, false, ◌&&◌, ◌||◌, Option, none, some, List, [], ◌∷◌, ◌++◌, map,
  any, filter, ltb, leb, ◌==◌, if◌then◌else◌,
}
use sarkfxbot.Base.Exec.{broker, symbol_resolution, Result, ok, err}
use sarkfxbot.Base.Text.{is_space, is_missing, upper, take, drop, rest_after, all_chars, without}
use sarkfxbot.Domain.Models.{SymbolSpecification}

-- The characters of the class [\s/_-].
abbrev is_separator : ℕ → Bool
is_separator c = is_space c || c == b'/' || c == b'_' || c == b'-'

-- _CANONICAL_ALIASES.get(normalized, normalized)
abbrev canonical_alias : String → String
canonical_alias s = if str_eq s "GOLD" then "XAUUSD" else s

-- canonicalize_symbol
unfoldable pub canonicalize_symbol : String → Result String
canonicalize_symbol value =
    let canonical = canonical_alias (upper (without is_separator value)) in
    if is_missing canonical
    then err (broker symbol_resolution "canonical symbol is empty")
    else ok canonical

-- _KNOWN_EXACT_ALIASES.get(canonical, ())
abbrev known_aliases : String → List String
known_aliases canonical =
    if str_eq canonical "XAUUSD"
    then "GOLD" ∷ "XAUUSDM" ∷ "XAUUSDC" ∷ "XAUUSD247M" ∷ "XAUUSD.PRO" ∷ []
    else []

-- The characters of the class [A-Z0-9.].
abbrev is_suffix_char : ℕ → Bool
is_suffix_char c = leb b'A' c && leb c b'Z' || leb b'0' c && leb c b'9' || c == b'.'

abbrev is_rest : Option String → Bool
is_rest none = false
is_rest (some rest) = true

abbrev is_suffix : Option String → Bool
is_suffix none = false
is_suffix (some rest) = all_chars is_suffix_char rest

-- The currencies of the symbol make up the canonical name.
abbrev metadata_matches : SymbolSpecification → String → Bool
metadata_matches s canonical =
    str_eq (upper s.base_currency) (take 3 canonical)
    && str_eq (upper s.quote_currency) (drop 3 canonical)

-- _score
unfoldable pub score : String → List String → SymbolSpecification → Option ℕ
score canonical aliases s =
    let name = upper s.name in
    let after = rest_after canonical (without is_separator name) in
    if str_eq name canonical
    then some 400
    else if any (str_eq name) aliases
    then some 350
    else if metadata_matches s canonical
    then some (if is_rest after then 310 else 300)
    else if is_suffix after
    then some 200
    else none

module _ (canonical : String) (aliases : List String) where
  -- The score of a symbol that may be traded.
  abbrev pub rank : SymbolSpecification → Option ℕ
  rank s = if s.trade_enabled then score canonical aliases s else none

  abbrev pub with_rank :
      Option ℕ
      → SymbolSpecification
      → List (ℕ × SymbolSpecification)
      → List (ℕ × SymbolSpecification)
  with_rank none s rest = rest
  with_rank (some n) s rest = (n, s) ∷ rest

  unfoldable pub ranked : List SymbolSpecification → List (ℕ × SymbolSpecification)
  ranked [] = []
  ranked (s ∷ ss) = with_rank (rank s) s (ranked ss)

-- max(score for score, _ in ranked)
unfoldable pub highest : List (ℕ × SymbolSpecification) → ℕ
highest [] = 0
highest ((n, s) ∷ rs) = let rest = highest rs in if ltb rest n then n else rest

unfoldable pub winners : ℕ → List (ℕ × SymbolSpecification) → List SymbolSpecification
winners h [] = []
winners h ((n, s) ∷ rs) = let rest = winners h rs in if n == h then s ∷ rest else rest

abbrev pub sole : List SymbolSpecification → Result SymbolSpecification
sole (s ∷ []) = ok s
sole _ = err (broker symbol_resolution "ambiguous broker symbols")

abbrev pub choose : List (ℕ × SymbolSpecification) → Result SymbolSpecification
choose [] = err (broker symbol_resolution "no tradeable broker symbol resolves")
choose (r ∷ rs) = sole (winners (highest (r ∷ rs)) (r ∷ rs))

abbrev pub accepted_aliases : String → List String → List String
accepted_aliases canonical aliases = map upper aliases ++ known_aliases canonical

abbrev pub resolve_in :
    List SymbolSpecification → List String → Result String → Result SymbolSpecification
resolve_in symbols aliases (err e) = err e
resolve_in symbols aliases (ok canonical) =
    choose (ranked canonical (accepted_aliases canonical aliases) symbols)

-- resolve_symbol
unfoldable pub resolve_symbol :
    String → List SymbolSpecification → List String → Result SymbolSpecification
resolve_symbol canonical_symbol symbols aliases =
    resolve_in symbols aliases (canonicalize_symbol canonical_symbol)
