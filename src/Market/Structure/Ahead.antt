-- ===== src/Market/Structure/Ahead.antt =====
-- app/market/structure.py has no look-ahead: what it says of a history stays true when more candles
-- come.
use sarkfxbot.Base.{
  ℕ, zero, suc, ◌+◌, ◌-◌, ◌≤◌, ◌<◌, ◌≡◌, refl, ap, ◌∙◌, Bool, true, false, Option, none, some, List,
  [], ◌∷◌, ◌++◌, filter, filter-append, get_elem?-append, take-drop-append, length, ltb,
  if◌then◌else◌, arith,
}
use sarkfxbot.Domain.Models.{Candle}
use sarkfxbot.Market.Swings.{
  SwingPoint, high_is_swing, low_is_swing, point, high, low, swings_of, swings_at, swings_from,
}

-- Known before an index.
abbrev pub known_by : ℕ → SwingPoint → Bool
known_by n s = ltb s.confirmed_index n

filter-if :
    (p : SwingPoint → Bool) (b : Bool) (s : SwingPoint) (keep : Bool)
    → p s ≡ keep
    → filter p (if b then s ∷ [] else []) ≡ (if keep then if b then s ∷ [] else [] else [])
filter-if p true s true e = rw e refl
filter-if p true s false e = rw e refl
filter-if p false s true e = refl
filter-if p false s false e = refl

ap2 : {xs xs' ys ys' : List SwingPoint} → xs ≡ xs' → ys ≡ ys' → xs ++ ys ≡ xs' ++ ys'
ap2 e f = cc

joined :
    (keep : Bool) (xs ys : List SwingPoint)
    → (if keep then xs else []) ++ (if keep then ys else []) ≡ (if keep then xs ++ ys else [])
joined true xs ys = refl
joined false xs ys = refl

swings_of-known :
    (n index right_span : ℕ) (left right : List Candle) (o : Option Candle) (keep : Bool)
    → ltb (index + right_span) n ≡ keep
    → filter (known_by n) (swings_of index right_span left right o)
      ≡ (if keep then swings_of index right_span left right o else [])
swings_of-known n index right_span left right none true e = refl
swings_of-known n index right_span left right none false e = refl
swings_of-known n index right_span left right (some c) keep e =
    let h = high_is_swing left right c in
    let l = low_is_swing left right c in
    let hs = point high index (index + right_span) c.high in
    let ls = point low index (index + right_span) c.low in
    filter-append (known_by n) (if h then hs ∷ [] else []) (if l then ls ∷ [] else [])
    ∙ ap (λ x. x ++ filter (known_by n) (if l then ls ∷ [] else []))
        (filter-if (known_by n) h hs keep e)
    ∙ ap (λ x. (if keep then if h then hs ∷ [] else [] else []) ++ x)
        (filter-if (known_by n) l ls keep e)
    ∙ joined keep (if h then hs ∷ [] else []) (if l then ls ∷ [] else [])

module _ (left_span right_span : ℕ) (cs more : List Candle) where
  swings_at-append :
      (index : ℕ)
      → left_span ≤ index
      → index + right_span < length cs
      → swings_at left_span right_span (cs ++ more) index ≡ swings_at left_span right_span cs index
  unfolding swings_at
  swings_at-append index h k =
      let e = get_elem?-append cs more index (omega arith) in
      let l = take-drop-append cs more (index - left_span) left_span (omega arith) in
      let r = take-drop-append cs more (index + 1) right_span (omega arith) in rw (e, l, r) refl

  late :
      (index : ℕ)
      → ltb (index + right_span) (length cs) ≡ false
      → filter (known_by (length cs)) (swings_at left_span right_span (cs ++ more) index) ≡ []
  unfolding swings_at
  late index e = swings_of-known (length cs) index right_span _ _ _ false e

  early :
      (index : ℕ)
      → left_span ≤ index
      → index + right_span < length cs
      → filter (known_by (length cs)) (swings_at left_span right_span (cs ++ more) index)
        ≡ swings_at left_span right_span cs index
  unfolding swings_at
  early index h k =
      swings_of-known (length cs) index right_span _ _ _ true (ground arith)
      ∙ swings_at-append index h k

  -- The swings of the longer history that were known at the end of the shorter one.
  pub swings_from-append :
      (rounds' rounds index : ℕ)
      → left_span ≤ index
      → rounds ≡ length cs - right_span - index
      → rounds ≤ rounds'
      → filter (known_by (length cs)) (swings_from left_span right_span (cs ++ more) rounds' index)
        ≡ swings_from left_span right_span cs rounds index
  unfolding swings_from
  swings_from-append zero zero index h e k = refl
  swings_from-append zero (suc rounds) index h e k = absurd (omega arith)
  swings_from-append (suc rounds') zero index h e k =
      filter-append (known_by (length cs)) (swings_at left_span right_span (cs ++ more) index)
        (swings_from left_span right_span (cs ++ more) rounds' (index + 1))
      ∙ ap2 (late index (ground arith))
          (swings_from-append rounds' zero (index + 1) (omega arith) (omega arith) (omega arith))
  swings_from-append (suc rounds') (suc rounds) index h e k =
      filter-append (known_by (length cs)) (swings_at left_span right_span (cs ++ more) index)
        (swings_from left_span right_span (cs ++ more) rounds' (index + 1))
      ∙ ap2 (early index h (omega arith))
          (swings_from-append rounds' rounds (index + 1) (omega arith) (omega arith) (omega arith))
