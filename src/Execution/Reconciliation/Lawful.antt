-- ===== src/Execution/Reconciliation/Lawful.antt =====
-- The comparisons of app/execution/reconciliation.py are reflexive, and the two kinds lawful.
use sarkfxbot.Base.{
  ℕ, String, str_eq, eq_iff, ◌≡◌, refl, Bool, true, Option, none, some, arith, ◌==◌,
}
use sarkfxbot.Base.Decimal.{Decimal, dec_eqb}
use sarkfxbot.Domain.Enums.{Direction}
use sarkfxbot.Domain.Orders.{BrokerPosition, BrokerOrder}
use sarkfxbot.Execution.Ledgers.{
  position_kind, order_kind, same_position, same_order, same_option, same_direction,
}
use sarkfxbot.Execution.Reconciliation.Synced.{IsLawful}

same_direction_refl : (d : Direction) → same_direction d d ≡ true
same_direction_refl Direction.long = refl
same_direction_refl Direction.short = refl

same_option_refl :
    {A : Type 0} (same : A → A → Bool) (o : Option A)
    → ((a : A) → same a a ≡ true)
    → same_option same o o ≡ true
same_option_refl same none h = refl
same_option_refl same (some a) h = h a

str_eq_refl : (s : String) → str_eq s s ≡ true
str_eq_refl s = ground (arith, eq_iff s s)

dec_eqb_refl : (a : Decimal) → dec_eqb a a ≡ true
dec_eqb_refl a = ground arith

same_nat_refl : (n : ℕ) → (n == n) ≡ true
same_nat_refl n = ground arith

same_position_refl : (p : BrokerPosition) → same_position p p ≡ true
unfolding same_position
same_position_refl p = simp (
  str_eq_refl,
  dec_eqb_refl,
  same_nat_refl,
  same_direction_refl p.direction,
  same_option_refl dec_eqb p.take_profit dec_eqb_refl,
  same_option_refl str_eq p.signal_id str_eq_refl,
)

same_order_refl : (o : BrokerOrder) → same_order o o ≡ true
unfolding same_order
same_order_refl o = simp (
  str_eq_refl,
  dec_eqb_refl,
  same_nat_refl,
  same_direction_refl o.direction,
  same_option_refl dec_eqb o.take_profit dec_eqb_refl,
)

pub position-IsLawful : IsLawful position_kind
position-IsLawful = record {
  live_not_gone = refl;
  gone_not_live = refl;
  same_refl = same_position_refl;
}

pub order-IsLawful : IsLawful order_kind
order-IsLawful = record { live_not_gone = refl; gone_not_live = refl; same_refl = same_order_refl }
