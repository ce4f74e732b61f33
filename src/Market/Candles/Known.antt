-- ===== src/Market/Candles/Known.antt =====
-- What app/market/candles.py selects: what was known at the instant, and no more.
use sarkfxbot.Base.{
  String, filter-All, filter-passes, All-map, ◌+◌, ◌*◌, ◌≤◌, ◌<◌, ◌≡◌, refl, sym, ap, ◌∙◌, Bool,
  true, false, Option, none, some, List, [], ◌∷◌, ◌++◌, filter, All, arith, if◌then◌else◌,
}
use sarkfxbot.Base.Exec.{Result, ok, err}
use sarkfxbot.Domain.Enums.{Timeframe, seconds}
use sarkfxbot.Domain.Models.{Timestamp, second, Candle}
use sarkfxbot.Market.Sort.{sort_by, filter-sort_by}
use sarkfxbot.Market.Candles.{
  check_sequence, or_error, validate_candle_sequence, is_selected, selected_of, closed_candles,
  not_after,
}

abbrev by_time : List Candle → List Candle
by_time = sort_by (λ c. c.timestamp)

or_error-same : (o : Option String) (cs r : List Candle) → or_error o cs ≡ ok r → r ≡ cs
or_error-same none cs r e = cc
or_error-same (some m) cs r e = absurd (cc)

validate-same : (cs r : List Candle) → validate_candle_sequence cs ≡ ok r → r ≡ cs
unfolding validate_candle_sequence
validate-same [] r e = cc
validate-same (c ∷ cs) r e =
    or_error-same (check_sequence c.symbol c.timeframe none (c ∷ cs)) (c ∷ cs) r e

selected :
    (as_of : Option Timestamp) (b : Bool) (v : Result (List Candle)) (r : List Candle)
    → selected_of as_of b v ≡ ok r
    → (cs : List Candle) × (v ≡ ok cs) × (r ≡ filter (is_selected as_of b) cs)
selected as_of b (ok cs) r e = (cs, refl, cc)
selected as_of b (err x) r e = absurd (cc)

-- A result is the sorted selection.
pub closed_candles-selection :
    (cs : List Candle) (as_of : Option Timestamp) (b : Bool) (r : List Candle)
    → closed_candles cs as_of b ≡ ok r
    → r ≡ by_time (filter (is_selected as_of b) cs)
unfolding closed_candles
closed_candles-selection cs as_of b r e =
    let (vs, at, same) = selected as_of b (validate_candle_sequence (by_time cs)) r e in
    same
    ∙ ap (filter (is_selected as_of b)) (validate-same (by_time cs) vs at)
    ∙ filter-sort_by (λ c. c.timestamp) (is_selected as_of b) cs

-- A candle that lies ahead of the instant: it ends after it or, where unfinished candles are asked
-- for, starts after it.
abbrev pub IsFuture : Bool → Timestamp → Candle → Type 0
IsFuture true now c = now < c.timestamp + seconds c.timeframe * second
IsFuture false now c = now < c.timestamp

future_not_selected :
    (closed_only : Bool) (now : Timestamp) (c : Candle)
    → IsFuture closed_only now c
    → is_selected (some now) closed_only c ≡ false
unfolding is_selected
future_not_selected true now c h = ground arith
future_not_selected false now c h = ground arith

filter-append_future :
    (closed_only : Bool) (now : Timestamp) (cs future : List Candle)
    → All (IsFuture closed_only now) future
    → filter (is_selected (some now) closed_only) (cs ++ future)
      ≡ filter (is_selected (some now) closed_only) cs
filter-append_future closed_only now [] [] h = refl
filter-append_future closed_only now [] (c ∷ cs) h =
    rw (future_not_selected closed_only now c h.0) (filter-append_future closed_only now [] cs h.1)
filter-append_future closed_only now (c ∷ cs) future h =
    ground (arith, filter-append_future closed_only now cs future h)

-- No look-ahead, in both modes: where only closed candles are used, candles that end after an
-- instant do not change what is selected at that instant, and where unfinished candles are used too,
-- candles that start after it do not, wherever the two selections succeed.
pub closed_candles_no_future :
    (closed_only : Bool) (cs future : List Candle) (now : Timestamp) (r r' : List Candle)
    → All (IsFuture closed_only now) future
    → closed_candles cs (some now) closed_only ≡ ok r
    → closed_candles (cs ++ future) (some now) closed_only ≡ ok r'
    → r' ≡ r
closed_candles_no_future closed_only cs future now r r' h e e' =
    closed_candles-selection (cs ++ future) (some now) closed_only r' e'
    ∙ ap by_time (filter-append_future closed_only now cs future h)
    ∙ sym (closed_candles-selection cs (some now) closed_only r e)

-- The candles come one after the other.
abbrev pub IsIncreasing : List Candle → Type 0
IsIncreasing [] = Unit
IsIncreasing (c ∷ cs) = All (λ d. c.timestamp < d.timestamp) cs × IsIncreasing cs

abbrev After : Option Timestamp → Candle → Type 0
After none c = Unit
After (some t) c = t < c.timestamp

After-first :
    (previous : Option Timestamp) (c : Candle)
    → not_after previous c.timestamp ≡ false
    → After previous c
After-first none c h = tt
After-first (some t) c h = ground arith

After-trans :
    (previous : Option Timestamp) (c d : Candle)
    → After previous c
    → c.timestamp < d.timestamp
    → After previous d
After-trans none c d h k = tt
After-trans (some t) c d h k = omega arith

check_sequence-IsIncreasing :
    (symbol : String) (frame : Timeframe) (previous : Option Timestamp) (cs : List Candle)
    → check_sequence symbol frame previous cs ≡ none
    → All (After previous) cs × IsIncreasing cs
unfolding check_sequence
check_sequence-IsIncreasing symbol frame previous [] e = (tt, tt)
check_sequence-IsIncreasing symbol frame previous (c ∷ cs) e =
    let rest : check_sequence symbol frame (some c.timestamp) cs ≡ none = ground arith in
    let fresh : not_after previous c.timestamp ≡ false = ground arith in
    let (later, increasing) = check_sequence-IsIncreasing symbol frame (some c.timestamp) cs rest in
    let first = After-first previous c fresh in
    ((first, All-map (λ d. After-trans previous c d first) cs later), (later, increasing))

filter-IsIncreasing :
    (p : Candle → Bool) (cs : List Candle) → IsIncreasing cs → IsIncreasing (filter p cs)
filter-IsIncreasing p [] h = tt
filter-IsIncreasing p (c ∷ cs) h =
    keep (p c) (filter-All (λ d. c.timestamp < d.timestamp) p cs h.0) (filter-IsIncreasing p cs h.1)
  where
    keep :
        (b : Bool)
        → All (λ d. c.timestamp < d.timestamp) (filter p cs)
        → IsIncreasing (filter p cs)
        → IsIncreasing (if b then c ∷ filter p cs else filter p cs)
    keep true a i = (a, i)
    keep false a i = i

validate-IsIncreasing : (cs r : List Candle) → validate_candle_sequence cs ≡ ok r → IsIncreasing cs
unfolding validate_candle_sequence
validate-IsIncreasing [] r e = tt
validate-IsIncreasing (c ∷ cs) r e =
    (check_sequence-IsIncreasing c.symbol c.timeframe none (c ∷ cs)
      (no_error (check_sequence c.symbol c.timeframe none (c ∷ cs)) e)).1
  where
    no_error : (o : Option String) → or_error o (c ∷ cs) ≡ ok r → o ≡ none
    no_error none e = refl
    no_error (some m) e = absurd (cc)

-- What is known of a candle at an instant: it is complete and has ended or, where unfinished
-- candles are asked for, it has started.
abbrev pub IsKnown : Bool → Timestamp → Candle → Type 0
IsKnown true now c = (c.complete ≡ true) × (c.timestamp + seconds c.timeframe * second ≤ now)
IsKnown false now c = c.timestamp ≤ now

selected-IsKnown :
    (closed_only : Bool) (now : Timestamp) (c : Candle)
    → is_selected (some now) closed_only c ≡ true
    → IsKnown closed_only now c
unfolding is_selected
selected-IsKnown true now c h = (ground arith, ground arith)
selected-IsKnown false now c h = ground arith

-- The candles that are selected for an instant come in strictly increasing order of time. Where only
-- closed candles are used, each is complete and had ended by that instant; where unfinished candles
-- are used too, each had started by it.
pub closed_candles-IsKnown :
    (closed_only : Bool) (cs : List Candle) (now : Timestamp) (r : List Candle)
    → closed_candles cs (some now) closed_only ≡ ok r
    → All (IsKnown closed_only now) r × IsIncreasing r
unfolding closed_candles
closed_candles-IsKnown closed_only cs now r e =
    let p = is_selected (some now) closed_only in
    let (vs, at, same) =
      selected (some now) closed_only (validate_candle_sequence (by_time cs)) r e in
    let whole = validate-same (by_time cs) vs at in
    let increasing =
      filter-IsIncreasing p (by_time cs) (validate-IsIncreasing (by_time cs) vs at) in
    let from = same ∙ ap (filter p) whole in
    rw from (
      All-map (selected-IsKnown closed_only now) (filter p (by_time cs))
          (filter-passes p (by_time cs)),
      increasing,
    )
