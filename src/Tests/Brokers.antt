-- ===== src/Tests/Brokers.antt =====
-- Tests of app/brokers/symbols.py at concrete inputs.
use sarkfxbot.Base.{Bool, false, true, String, [], ◌∷◌, List, ◌≡◌, refl}
use sarkfxbot.Base.Text.{is_missing, upper, exchanged, rest_after, all_chars, without}
use sarkfxbot.Base.Exec.{broker, symbol_resolution, ok, err}
use sarkfxbot.Domain.Models.{SymbolSpecification}
use sarkfxbot.Brokers.Symbols.{resolve_symbol, canonicalize_symbol, ranked, highest, winners, score}
use sarkfxbot.Tests.Fixtures.{gold}

abbrev listed : String → Bool → SymbolSpecification
listed name enabled = record gold { name = name; trade_enabled = enabled }

abbrev suffixed : List SymbolSpecification
suffixed = listed "XAUUSDm" true ∷ listed "XAUUSD" true ∷ []

exact_wins : resolve_symbol "GOLD" suffixed [] ≡ ok (listed "XAUUSD" true)
unfolding resolve_symbol canonicalize_symbol ranked highest winners score is_missing upper exchanged
    rest_after all_chars without
exact_wins = refl

two_suffixes :
    resolve_symbol "XAUUSD" (listed "XAUUSDx" true ∷ listed "XAUUSDy" true ∷ []) []
    ≡ err (broker symbol_resolution "ambiguous broker symbols")
unfolding resolve_symbol canonicalize_symbol ranked highest winners score is_missing upper exchanged
    rest_after all_chars without
two_suffixes = refl

disabled_exact :
    resolve_symbol "XAUUSD" (listed "XAUUSD" false ∷ listed "XAUUSDm" true ∷ []) []
    ≡ ok (listed "XAUUSDm" true)
unfolding resolve_symbol canonicalize_symbol ranked highest winners score is_missing upper exchanged
    rest_after all_chars without
disabled_exact = refl
