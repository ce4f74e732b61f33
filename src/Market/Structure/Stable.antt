-- ===== src/Market/Structure/Stable.antt =====
-- The analysis of app/market/structure.py over a growing history.
use sarkfxbot.Base.{
  ℕ, ◌+◌, ◌≤◌, ◌<◌, ◌≡◌, refl, sym, ap, ◌∙◌, Bool, true, false, ◌||◌, Option, none, some, List, [],
  ◌∷◌, ◌++◌, filter, length, length-append, get_last?, ◌==◌, if◌then◌else◌, arith,
}
use sarkfxbot.Base.Decimal.{Decimal, dec_ltb}
use sarkfxbot.Base.Exec.{Result, ok, err, value_error}
use mathlib.Core.List.{append-nil, append_assoc}
use sarkfxbot.Domain.Models.{Candle}
use sarkfxbot.Market.Sort.{sort_by, filter-sort_by}
use sarkfxbot.Market.Candles.{validate_candle_sequence}
use sarkfxbot.Market.Structure.{
  StructureAnalysis, analysis_of, analysis_by, analyze_structure, Breaks, confirmed_at, break_step,
  breaks_from, no_breaks, structure_breaks, learn, watch, break_level, bias_of,
}
use sarkfxbot.Market.Swings.{
  SwingPoint, StructureBreak, MarketBias, bullish, bearish, is_bullish, is_bearish, all_swings,
  sort_swings, kind_order, sorted_of, confirmed_swings,
}
use sarkfxbot.Market.Structure.Ahead.{known_by, swings_from-append}

filter-sort_swings :
    (p : SwingPoint → Bool) (swings : List SwingPoint)
    → filter p (sort_swings swings) ≡ sort_swings (filter p swings)
unfolding sort_swings
filter-sort_swings p swings =
    let by_kind = sort_by (λ (s : SwingPoint). kind_order s.kind) in
    let by_index = sort_by (λ (s : SwingPoint). s.index) in
    let by_confirmed = sort_by (λ (s : SwingPoint). s.confirmed_index) in
    filter-sort_by (λ (s : SwingPoint). s.confirmed_index) p (by_index (by_kind swings))
    ∙ ap by_confirmed (filter-sort_by (λ (s : SwingPoint). s.index) p (by_kind swings))
    ∙ ap (λ l. by_confirmed (by_index l))
        (filter-sort_by (λ (s : SwingPoint). kind_order s.kind) p swings)

sorted_of-eq :
    (swings r : List SwingPoint) (v : Result (List Candle))
    → sorted_of swings v ≡ ok r
    → r ≡ sort_swings swings
sorted_of-eq swings r (ok cs) e = cc
sorted_of-eq swings r (err x) e = absurd (cc)

confirmed_swings-eq :
    (cs : List Candle) (left_span right_span : ℕ) (r : List SwingPoint)
    → confirmed_swings cs left_span right_span ≡ ok r
    → r ≡ sort_swings (all_swings left_span right_span cs)
unfolding confirmed_swings
confirmed_swings-eq cs left_span right_span r e = by_test (left_span == 0 || right_span == 0) e
  where
    by_test :
        (b : Bool)
        → (if b
            then err (value_error "swing spans must be positive")
            else sorted_of (all_swings left_span right_span cs) (validate_candle_sequence cs))
          ≡ ok r
        → r ≡ sort_swings (all_swings left_span right_span cs)
    by_test true e = absurd (cc)
    by_test false e =
        sorted_of-eq (all_swings left_span right_span cs) r (validate_candle_sequence cs) e

module _ (left_span right_span : ℕ) (cs more : List Candle) where
  swings_known :
      (r r' : List SwingPoint)
      → confirmed_swings cs left_span right_span ≡ ok r
      → confirmed_swings (cs ++ more) left_span right_span ≡ ok r'
      → filter (known_by (length cs)) r' ≡ r
  swings_known r r' e e' =
      ap (filter (known_by (length cs)))
        (confirmed_swings-eq (cs ++ more) left_span right_span r' e')
      ∙ filter-sort_swings (known_by (length cs)) (all_swings left_span right_span (cs ++ more))
      ∙ ap sort_swings (
          swings_from-append left_span right_span cs more _ _ left_span (omega arith) (omega arith)
            (omega (arith, length-append cs more)))
      ∙ sym (confirmed_swings-eq cs left_span right_span r e)

-- What is newly confirmed before the end of the history is the same in the longer one.
confirmed_at-known :
    (n index : ℕ) (swings : List SwingPoint)
    → index < n
    → confirmed_at (filter (known_by n) swings) index ≡ confirmed_at swings index
confirmed_at-known n index [] h = refl
confirmed_at-known n index (s ∷ ss) h = ground (arith, confirmed_at-known n index ss h)

breaks_from-known :
    (n index : ℕ) (swings : List SwingPoint) (cs : List Candle) (b : Breaks)
    → index + length cs ≤ n
    → breaks_from (filter (known_by n) swings) index cs b ≡ breaks_from swings index cs b
unfolding breaks_from break_step
breaks_from-known n index swings [] b h = refl
breaks_from-known n index swings (c ∷ cs) b h =
    breaks_from-known n (index + 1) swings cs _ (omega arith)
    ∙ ap (λ l. breaks_from swings (index + 1) cs (watch b.bias index c (learn b l)))
        (confirmed_at-known n index swings (omega arith))

breaks_from-append :
    (swings : List SwingPoint) (index : ℕ) (cs more : List Candle) (b : Breaks)
    → breaks_from swings index (cs ++ more) b
      ≡ breaks_from swings (index + length cs) more (breaks_from swings index cs b)
unfolding breaks_from
breaks_from-append swings index [] more b = ap (λ i. breaks_from swings i more b) (omega arith)
breaks_from-append swings index (c ∷ cs) more b =
    breaks_from-append swings (index + 1) cs more (break_step swings index c b)
    ∙ ap
        (λ i.
          breaks_from swings i more
            (breaks_from swings (index + 1) cs (break_step swings index c b)))
        (omega arith)

-- The second has the events of the first in front.
abbrev Extends : Breaks → Breaks → Type 0
Extends b b' = (extra : List StructureBreak) × (b'.events ≡ b.events ++ extra)

Extends-refl : (b : Breaks) → Extends b b
Extends-refl b = ([], sym (append-nil b.events))

Extends-trans : (a b c : Breaks) → Extends a b → Extends b c → Extends a c
Extends-trans a b c (x, e) (y, f) = (x ++ y, f ∙ ap (λ l. l ++ y) e ∙ append_assoc a.events x y)

Extends-if : (t : Bool) (b b' : Breaks) → Extends b b' → Extends b (if t then b' else b)
Extends-if true b b' h = h
Extends-if false b b' h = Extends-refl b

break_level-Extends :
    (direction : MarketBias) (reverses : Bool) (beyond : Decimal → Bool) (index : ℕ)
    (o : Option SwingPoint) (b : Breaks)
    → Extends b (break_level direction reverses beyond index o b)
break_level-Extends direction reverses beyond index none b = Extends-refl b
break_level-Extends direction reverses beyond index (some s) b = Extends-if _ b _ (_, refl)

watch-Extends :
    (prior : MarketBias) (index : ℕ) (c : Candle) (b : Breaks) → Extends b (watch prior index c b)
watch-Extends prior index c b =
    let b1 = record b { bias = bias_of b.known_highs b.known_lows } in
    let b2 =
      break_level bullish (is_bearish prior) (λ p. dec_ltb p c.close) index
        (get_last? b1.known_highs) b1 in
    Extends-trans b1 b2 (watch prior index c b)
      (break_level-Extends bullish (is_bearish prior) (λ p. dec_ltb p c.close) index
        (get_last? b1.known_highs) b1)
      (break_level-Extends bearish (is_bullish prior) (λ p. dec_ltb c.close p) index
        (get_last? b2.known_lows) b2)

breaks_from-Extends :
    (swings : List SwingPoint) (index : ℕ) (cs : List Candle) (b : Breaks)
    → Extends b (breaks_from swings index cs b)
unfolding breaks_from break_step
breaks_from-Extends swings index [] b = Extends-refl b
breaks_from-Extends swings index (c ∷ cs) b =
    let b' = watch b.bias index c (learn b (confirmed_at swings index)) in
    Extends-trans b b' (breaks_from swings (index + 1) cs b')
      (watch-Extends b.bias index c (learn b (confirmed_at swings index)))
      (breaks_from-Extends swings (index + 1) cs b')

-- The breaks of the known swings over a history are the first breaks over a longer one.
structure_breaks-append :
    (cs more : List Candle) (swings : List SwingPoint)
    → (extra : List StructureBreak) × (structure_breaks (cs ++ more) swings
        ≡ structure_breaks cs (filter (known_by (length cs)) swings) ++ extra)
unfolding structure_breaks
structure_breaks-append cs more swings =
    let now = breaks_from swings 0 cs no_breaks in
    let (extra, e) = breaks_from-Extends swings (0 + length cs) more now in
    (
      extra,
      ap (λ (b : Breaks). b.events) (breaks_from-append swings 0 cs more no_breaks)
          ∙ e
          ∙ ap (λ (b : Breaks). b.events ++ extra)
              (sym (breaks_from-known (length cs) 0 swings cs no_breaks (omega arith))),
    )

analysis_by-eq :
    (cs : List Candle) (r : Result (List SwingPoint)) (a : StructureAnalysis)
    → analysis_by cs r ≡ ok a
    → (swings : List SwingPoint) × (r ≡ ok swings) × (a ≡ analysis_of cs swings)
analysis_by-eq cs (ok swings) a e = (swings, refl, cc)
analysis_by-eq cs (err x) a e = absurd (cc)

-- Analysed again with more candles, a history keeps what was said of it: the swings of the second
-- analysis that were confirmed within the history are the swings of the first, in their order, and
-- the breaks of structure of the first are the first ones of the second.
pub analyze_structure_stable :
    (cs more : List Candle) (left_span right_span : ℕ) (a a' : StructureAnalysis)
    → analyze_structure cs left_span right_span ≡ ok a
    → analyze_structure (cs ++ more) left_span right_span ≡ ok a'
    → (filter (known_by (length cs)) a'.swings ≡ a.swings)
      × ((extra : List StructureBreak) × (a'.breaks ≡ a.breaks ++ extra))
unfolding analyze_structure
analyze_structure_stable cs more left_span right_span a a' e e' =
    let (r, er, ea) = analysis_by-eq cs (confirmed_swings cs left_span right_span) a e in
    let (r', er', ea') =
      analysis_by-eq (cs ++ more) (confirmed_swings (cs ++ more) left_span right_span) a' e' in
    let known = swings_known left_span right_span cs more r r' er er' in
    let (extra, eb) = structure_breaks-append cs more r' in
    (
      ap (λ (x : StructureAnalysis). filter (known_by (length cs)) x.swings) ea'
          ∙ known
          ∙ sym (ap (λ (x : StructureAnalysis). x.swings) ea),
      (
        extra,
        ap (λ (x : StructureAnalysis). x.breaks) ea'
            ∙ eb
            ∙ ap (λ l. structure_breaks cs l ++ extra) known
            ∙ sym (ap (λ (x : StructureAnalysis). x.breaks ++ extra) ea),
      ),
    )
