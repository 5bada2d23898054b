-- ===== src/Options/Calculations.antt =====
-- app/options/calculations.py: the functions that do not divide. `none` stands for a `ValueError`.
use sentry.Prelude.{
  ℕ, ◌≡◌, Bool, true, false, not, ◌&&◌, ◌||◌, Option, none, some, leb, if◌then◌else◌,
}
use sentry.Prelude.Int.{ℤ, pos, ◌+ℤ◌, ◌-ℤ◌, ◌*ℤ◌, ◌≤ℤ◌, ltb_ℤ, max_ℤ, int_laws}
use sentry.Domain.Enums.{OptionType}
use sentry.Domain.Market.{OptionContract, Day}

abbrev pub is_call : OptionType → Bool
is_call OptionType.call = true
is_call OptionType.put = false

unfoldable pub days_to_expiration : Day → Day → ℤ
days_to_expiration expiration as_of = pos expiration -ℤ pos as_of

-- `_valid_quote_prices`
unfoldable pub valid_quote_prices : ℤ → ℤ → Bool
valid_quote_prices bid ask = not (ltb_ℤ bid (pos 0) || ltb_ℤ ask (pos 0)) && not (ltb_ℤ ask bid)

unfoldable pub quote_spread_dollars : ℤ → ℤ → Option ℤ
quote_spread_dollars bid ask = if not (valid_quote_prices bid ask) then none else some (ask -ℤ bid)

unfoldable pub intrinsic_value : OptionContract → ℤ → Option ℤ
intrinsic_value c underlying_price =
    if ltb_ℤ underlying_price (pos 0)
    then none
    else if is_call c.option_type
    then some (max_ℤ (underlying_price -ℤ pos c.strike) (pos 0))
    else some (max_ℤ (pos c.strike -ℤ underlying_price) (pos 0))

abbrev pub beyond : ℤ → Option ℤ → Option ℤ
beyond premium none = none
beyond premium (some value) = some (max_ℤ (premium -ℤ value) (pos 0))

unfoldable pub extrinsic_value : OptionContract → ℤ → ℤ → Option ℤ
extrinsic_value c underlying_price premium =
    if ltb_ℤ premium (pos 0) then none else beyond premium (intrinsic_value c underlying_price)

unfoldable pub break_even_at_expiration : OptionContract → ℤ → Option ℤ
break_even_at_expiration c premium =
    if ltb_ℤ premium (pos 0)
    then none
    else if is_call c.option_type
    then some (pos c.strike +ℤ premium)
    else some (max_ℤ (pos c.strike -ℤ premium) (pos 0))

unfoldable pub contract_cost : ℤ → ℕ → ℕ → Option ℤ
contract_cost premium quantity multiplier =
    if ltb_ℤ premium (pos 0)
    then none
    else if leb quantity 0 || leb multiplier 0
    then none
    else some (premium *ℤ quantity *ℤ multiplier)

-- At the price where a long option breaks even, its intrinsic value is the premium that was paid;
-- for a put the premium must not exceed the strike.
intrinsic_value-break_even :
    (c : OptionContract) (premium : ℤ) {price : ℤ}
    → (is_call c.option_type ≡ false → premium ≤ℤ pos c.strike)
    → break_even_at_expiration c premium ≡ some price
    → intrinsic_value c price ≡ some premium
unfolding break_even_at_expiration intrinsic_value
intrinsic_value-break_even c premium put h = grind int_laws

-- A premium of at least the intrinsic value is the sum of the intrinsic and the extrinsic value.
extrinsic_value-adds :
    (c : OptionContract) (underlying_price premium : ℤ) {i e : ℤ}
    → intrinsic_value c underlying_price ≡ some i
    → extrinsic_value c underlying_price premium ≡ some e
    → i ≤ℤ premium
    → i +ℤ e ≡ premium
unfolding extrinsic_value
extrinsic_value-adds c underlying_price premium h k l = grind int_laws
