-- ===== src/Options/Tests.antt =====
-- app/options/calculations.py on a put.
use sentry.Prelude.{◌≡◌, refl, some}
use sentry.Prelude.Int.{pos, ◌-ℤ◌}
use sentry.Domain.Enums.{OptionType}
use sentry.Domain.Market.{OptionContract}
use sentry.Options.Calculations.{intrinsic_value, extrinsic_value, break_even_at_expiration}

abbrev put : OptionContract
put = record {
  instrument_id = 3;
  symbol = 1;
  option_type = OptionType.put;
  strike = 50;
  expiration = 9;
  multiplier = 100;
}

put_breaks_even : break_even_at_expiration put (pos 4) ≡ some (pos 46)
unfolding break_even_at_expiration ◌-ℤ◌
put_breaks_even = refl

time_value : extrinsic_value put (pos 48) (pos 5) ≡ some (pos 3)
unfolding extrinsic_value intrinsic_value ◌-ℤ◌
time_value = refl
