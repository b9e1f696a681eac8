-- ===== src/Execution/Models/Bounds.antt =====
-- The losses of a permit (src/esscher/execution/models.py).
use esscher_market.Base.{ℕ, ◌+◌, ◌-◌, ◌*◌, ◌<◌, ◌≤◌, true, arith, ◌≡◌, and_split}
use esscher_market.Execution.Models.{
  VerticalType, bull_call, bear_put, OptionType, call, put, OptionLeg, same_type, is_ordered,
  DebitVerticalPermit, distance, has_identity, has_legs, has_terms, maximum_loss,
  is_debit_vertical_permit,
}

has_terms_bounds :
    (p : DebitVerticalPermit)
    → has_terms p ≡ true
    → (0 < p.limit_price)
      × (p.limit_price < distance p.short_leg.strike p.long_leg.strike)
      × (p.issued_at < p.expires_at)
unfolding has_terms
has_terms_bounds p h = ground arith

-- What an option is worth when it expires at the price `s`.
abbrev pub intrinsic : OptionType → ℕ → ℕ → ℕ
intrinsic call strike s = s - strike
intrinsic put strike s = strike - s

-- The strikes of the two verticals: the long leg of a call is the lower one, that of a put the higher.
intrinsic_bounds :
    (v : VerticalType) (long short : OptionType) (a b s : ℕ)
    → same_type long short ≡ true
    → is_ordered v long a b ≡ true
    → (intrinsic short b s ≤ intrinsic long a s)
      × (intrinsic short b a ≡ 0)
      × (intrinsic long a a ≡ 0)
      × (intrinsic short b b ≡ 0)
      × (intrinsic long a b ≡ distance b a)
unfolding same_type is_ordered
intrinsic_bounds bull_call call call a b s h o = grind arith
intrinsic_bounds bear_put put put a b s h o = grind arith
intrinsic_bounds bull_call put _ a b s h o = cc
intrinsic_bounds bear_put call _ a b s h o = cc
intrinsic_bounds bull_call call put a b s h o = cc
intrinsic_bounds bear_put put call a b s h o = cc

has_legs_bounds :
    (p : DebitVerticalPermit)
    → has_legs p ≡ true
    → (same_type p.long_leg.option_type p.short_leg.option_type ≡ true)
      × (is_ordered p.vertical_type p.long_leg.option_type p.long_leg.strike p.short_leg.strike
          ≡ true)
unfolding has_legs
has_legs_bounds p h = ground arith

-- What settling the 100 shares of a leg moves at the price `s`.
abbrev pub settlement : OptionLeg → ℕ → ℕ
settlement leg s = intrinsic leg.option_type leg.strike s * 100

-- For a permit that its constructor accepts, `maximum_loss` is the largest loss that the vertical can
-- end in: paying the limit price for 100 of each leg and settling both at whatever price `s` costs no
-- more than that over what the long leg brings in, settling at the long strike costs exactly that, and
-- settling at the short strike leaves a profit.
pub maximum_loss_lem :
    (p : DebitVerticalPermit) (s : ℕ)
    → is_debit_vertical_permit p ≡ true
    → (p.limit_price * 100 + settlement p.short_leg s ≤ maximum_loss p + settlement p.long_leg s)
      × (p.limit_price * 100 + settlement p.short_leg p.long_leg.strike
          ≡ maximum_loss p + settlement p.long_leg p.long_leg.strike)
      × (p.limit_price * 100 + settlement p.short_leg p.short_leg.strike
          < settlement p.long_leg p.short_leg.strike)
unfolding is_debit_vertical_permit maximum_loss
maximum_loss_lem p s h =
    let checked = and_split (has_legs p) (has_terms p) (and_split (has_identity p) _ h).1 in
    let (same_types, ordered) = has_legs_bounds p checked.0 in
    let legs =
      intrinsic_bounds p.vertical_type p.long_leg.option_type p.short_leg.option_type
        p.long_leg.strike p.short_leg.strike s same_types ordered in
    omega (arith, has_terms_bounds p checked.1, legs)
