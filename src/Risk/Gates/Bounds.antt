-- ===== src/Risk/Gates/Bounds.antt =====
-- The tests of app/risk/gates.py on bounds that may be absent and on lists of targets.
use sarkfxbot.Base.{
  ℕ, String, str_eq, eq_iff, ◌<◌, ◌≡◌, ◌≢◌, ◌↔◌, refl, sym, subst, inl, inr, Bool, true, false,
  Option, none, some, List, [], ◌∷◌, any, count, map, All, arith, Bool-cases, if◌then◌else◌,
}
use sarkfxbot.Base.Decimal.{
  Decimal, abs, min, max, dec_eqb, dec_leb, dec_ltb, ◌⊖◌, ◌⊘◌, zero_dec, ◌≼◌, ◌≺◌,
}
use sarkfxbot.Base.Decimal.Order.{≼_trans, ≺_trans, ≼-≺_trans, ⊘-mono}
use sarkfxbot.Domain.Enums.{Direction, is_long}
use sarkfxbot.Domain.Models.{Timestamp, Tick, expired_at}
use sarkfxbot.Domain.Orders.{OrderRequest}
use sarkfxbot.Risk.Gates.{
  below, above, drawdown_reached, ratio_below, risk_reward_of, least, in_symbols, reference_price,
  price_or,
}
use sarkfxbot.Risk.Gates.Rules.{IfSome, IsDrawnDown, IsOther, IsPrice, requested, bought, sold}

pub expired_at_iff :
    (o : Option Timestamp) (now : ℕ) → (expired_at o now ≡ false) ↔ IfSome (λ limit. now < limit) o
expired_at_iff none now = (λ h. tt, λ h. refl)
expired_at_iff (some limit) now = (λ h. ground arith, λ h. ground arith)

pub below_iff : (p : Decimal) (o : Option Decimal) → (below p o ≡ false) ↔ IfSome (λ low. low ≼ p) o
below_iff p none = (λ h. tt, λ h. refl)
below_iff p (some low) = (λ h. ground arith, λ h. ground arith)

pub above_iff :
    (p : Decimal) (o : Option Decimal) → (above p o ≡ false) ↔ IfSome (λ high. p ≼ high) o
above_iff p none = (λ h. tt, λ h. refl)
above_iff p (some high) = (λ h. ground arith, λ h. ground arith)

-- The larger of two decimals is below a limit exactly when both are.
max_iff : (a b limit : Decimal) → (max a b ≺ limit) ↔ ((a ≺ limit) × (b ≺ limit))
unfolding max
max_iff a b limit = elim (Bool-cases (dec_ltb a b)) [
  | inl less ↦ (
    λ h. let k : b ≺ limit = ground arith in (≺_trans a b limit (ground arith) k, k),
    λ h. ground arith,
  )
  | inr not_less ↦ (
    λ h. let k : a ≺ limit = ground arith in (k, ≼-≺_trans b a limit (ground arith) k),
    λ h. ground arith,
  )
]

pub drawdown_reached_iff :
    (o : Option Decimal) (equity limit : Decimal)
    → (drawdown_reached o equity limit ≡ false)
      ↔ IfSome (λ peak. (zero_dec ≺ limit) × ((peak ⊖ equity) ⊘ peak ≺ limit)) o
drawdown_reached_iff none equity limit = (λ h. tt, λ h. refl)
drawdown_reached_iff (some peak) equity limit =
    let both = max_iff zero_dec ((peak ⊖ equity) ⊘ peak) limit in
    (λ h. both.0 (ground arith), λ h. let k = both.1 h in ground arith)

min-first : (a b : Decimal) → dec_ltb b a ≡ false → min a b ≡ a
unfolding min
min-first a b h = ground arith

min-second : (a b : Decimal) → dec_ltb b a ≡ true → min a b ≡ b
unfolding min
min-second a b h = ground arith

pub drawdown-IsDrawnDown :
    (o : Option Decimal) (equity limit : Decimal)
    → (drawdown_reached o equity limit ≡ true) ↔ IsDrawnDown limit equity o
unfolding max
drawdown-IsDrawnDown none equity limit = (λ h. absurd (ground arith), λ h. absurd h)
drawdown-IsDrawnDown (some peak) equity limit =
    let d = (peak ⊖ equity) ⊘ peak in
    elim (Bool-cases (dec_ltb zero_dec d)) [
      | inl positive ↦ (
        λ h. inr (ground arith),
        λ h. elim h [
          | inl low ↦ let k = ≼-≺_trans limit zero_dec d low (ground arith) in ground arith
          | inr reached ↦ ground arith
        ],
      )
      | inr none_positive ↦ (
        λ h. inl (ground arith),
        λ h. elim h [
          | inl low ↦ ground arith
          | inr reached ↦ let k = ≼_trans limit d zero_dec reached (ground arith) in ground arith
        ],
      )
    ]

-- A quotient of the smaller of two decimals reaches a limit exactly when both quotients do.
min_iff :
    (limit d a b : Decimal)
    → zero_dec ≺ d
    → (limit ≼ min a b ⊘ d) ↔ ((limit ≼ a ⊘ d) × (limit ≼ b ⊘ d))
min_iff limit d a b h = elim (Bool-cases (dec_ltb b a)) [
  | inl less ↦
      let same = min-second a b less in
      let le = ⊘-mono b a d h (ground arith) in
      (
        λ k.
            let k' = subst (λ m. limit ≼ m ⊘ d) same k in (≼_trans limit (b ⊘ d) (a ⊘ d) k' le, k'),
        λ k. subst (λ m. limit ≼ m ⊘ d) (sym same) k.1,
      )
  | inr not_less ↦
      let same = min-first a b not_less in
      let le = ⊘-mono a b d h (ground arith) in
      (
        λ k.
            let k' = subst (λ m. limit ≼ m ⊘ d) same k in (k', ≼_trans limit (a ⊘ d) (b ⊘ d) k' le),
        λ k. subst (λ m. limit ≼ m ⊘ d) (sym same) k.0,
      )
]

least_iff :
    (limit d a : Decimal) (f : Decimal → Decimal) (ts : List Decimal)
    → zero_dec ≺ d
    → (limit ≼ least a (map f ts) ⊘ d) ↔ ((limit ≼ a ⊘ d) × All (λ t. limit ≼ f t ⊘ d) ts)
least_iff limit d a f [] h = (λ k. (k, tt), λ k. k.0)
least_iff limit d a f (t ∷ ts) h =
    let rest = least_iff limit d (min a (f t)) f ts h in
    let first = min_iff limit d a (f t) h in
    (
      λ k. let (x, y) = rest.0 k in let (x', x'') = first.0 x in (x', (x'', y)),
      λ (x, (y, z)). rest.1 (first.1 (x, y), z),
    )

-- With a positive distance of the stop, the reward is too small exactly when some target's is.
pub ratio_below_iff :
    (p distance limit : Decimal) (ts : List Decimal)
    → zero_dec ≺ distance
    → (ratio_below (risk_reward_of p distance ts) limit ≡ false)
      ↔ All (λ t. limit ≼ abs (t ⊖ p) ⊘ distance) ts
ratio_below_iff p distance limit [] h = (λ k. tt, λ k. refl)
ratio_below_iff p distance limit (t ∷ ts) h =
    let all = least_iff limit distance (abs (t ⊖ p)) (λ x. abs (x ⊖ p)) ts h in
    (λ k. all.0 (ground arith), λ k. let k' = all.1 k in ground arith)

IsOther_test : (a b : String) → (str_eq a b ≡ false) ↔ (a ≢ b)
IsOther_test a b = (
  λ h e. let same = (eq_iff a b).1 e in ground arith,
  λ h. elim (Bool-cases (str_eq a b)) [
    | inl same ↦ absurd (h ((eq_iff a b).0 same))
    | inr other ↦ other
  ],
)

pub in_symbols_iff :
    (symbols : List String) (name : String)
    → (in_symbols symbols name ≡ false) ↔ IsOther symbols name
in_symbols_iff [] name = (λ h. tt, λ h. refl)
in_symbols_iff (m ∷ symbols) name =
    let (to, from) = IsOther_test name m in
    let (to', from') = in_symbols_iff symbols name in
    (
      λ h. (to (ground arith), to' (ground arith)),
      λ h. let a = from h.0 in let b = from' h.1 in ground arith,
    )

pub no_key_iff : (a b : String) → (str_eq a b ≡ false) ↔ (a ≢ b)
no_key_iff = IsOther_test

pub count-none {ℓ} : {A : Type ℓ} (p : A → Bool) (xs : List A) → any p xs ≡ false → count p xs ≡ 0
count-none p [] h = refl
count-none p (x ∷ xs) h = let rest = count-none p xs (ground arith) in ground arith

module _ (r : OrderRequest) (t : Tick) where
  price_or-IsPrice :
      (o : Option Decimal) (d : Direction)
      → r.requested_price ≡ o
      → r.direction ≡ d
      → IsPrice r t (price_or o (if is_long d then t.ask else t.bid))
  price_or-IsPrice none Direction.long e f = bought (rw e tt) f refl
  price_or-IsPrice none Direction.short e f = sold (rw e tt) f refl
  price_or-IsPrice (some p) d e f = elim (Bool-cases (dec_eqb p zero_dec)) [
    | inl zero ↦ rw (zero, if◌then◌else◌) (price_or_tick d f (rw e zero))
    | inr given ↦ rw (given, if◌then◌else◌) (requested e given)
  ]
    where
      price_or_tick :
          (d : Direction)
          → r.direction ≡ d
          → IfSome (λ q. dec_eqb q zero_dec ≡ true) r.requested_price
          → IsPrice r t (if is_long d then t.ask else t.bid)
      price_or_tick Direction.long f e = bought e f refl
      price_or_tick Direction.short f e = sold e f refl

  -- The reference price is the price of the order, and its only one.
  pub reference_price-IsPrice : IsPrice r t (reference_price r t)
  unfolding reference_price
  reference_price-IsPrice = price_or-IsPrice r.requested_price r.direction refl refl

  absent_price :
      (o : Option Decimal) (other : Decimal)
      → IfSome (λ q. dec_eqb q zero_dec ≡ true) o
      → price_or o other ≡ other
  absent_price none other h = refl
  absent_price (some p) other h = ground arith

  pub IsPrice-reference_price : (p : Decimal) → IsPrice r t p → reference_price r t ≡ p
  unfolding reference_price
  IsPrice-reference_price p (requested e given) = ground arith
  IsPrice-reference_price p (bought e f same) =
      rw (f, absent_price r.requested_price t.ask e) (sym same)
  IsPrice-reference_price p (sold e f same) =
      rw (f, absent_price r.requested_price t.bid e) (sym same)

pub targets_above_iff :
    (p : Decimal) (ts : List Decimal) → (any (λ t. dec_leb t p) ts ≡ false) ↔ All (λ t. p ≺ t) ts
targets_above_iff p [] = (λ h. tt, λ h. refl)
targets_above_iff p (t ∷ ts) =
    (λ h. ground (arith, targets_above_iff p ts), λ h. ground (arith, targets_above_iff p ts))

pub targets_below_iff :
    (p : Decimal) (ts : List Decimal) → (any (λ t. dec_leb p t) ts ≡ false) ↔ All (λ t. t ≺ p) ts
targets_below_iff p [] = (λ h. tt, λ h. refl)
targets_below_iff p (t ∷ ts) =
    (λ h. ground (arith, targets_below_iff p ts), λ h. ground (arith, targets_below_iff p ts))
