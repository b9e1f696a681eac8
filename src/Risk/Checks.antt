-- ===== src/Risk/Checks.antt =====
-- Validation of arguments (the module functions of src/esscher/risk/ledger.py and kernel.py). The
-- `isinstance` tests on `str`, `datetime` and `int` have no counterpart: an argument has its type.
use esscher_market.Base.{ℕ, Bool, not, ◌&&◌, [], leb, ◌==◌, all, length}
use esscher_market.Base.Int.{ℤ, pos, negsuc, Decimal, finite, non_finite}
use esscher_market.Base.Text.{Text, same, strip, upper, is_hex}
use esscher_market.Base.Result.{ok, err, ◌>>=◌, ◌>>◌, raise_if}
use esscher_market.Risk.Reasons.{unsupported_input, exposure_not_calculable, Checked}

-- `not value or value != value.strip()`.
unfoldable pub is_identifier : Text → Bool
is_identifier value = not (same value []) && same value (strip value)

-- `_identifier`.
unfoldable pub identifier : Text → Checked Text
unfolding is_identifier
identifier value = raise_if (not (is_identifier value)) unsupported_input >> ok value

-- `_underlying`.
unfoldable pub underlying : Text → Checked Text
unfolding identifier
underlying value = do
  name ← identifier value
  raise_if (not (same name (upper name))) unsupported_input
  ok name

-- `len(value) == 64` with every character a lowercase hexadecimal digit. (`value != value.lower()`
-- adds nothing: a hexadecimal digit of the set is its own lower case.)
unfoldable pub is_sha256 : Text → Bool
is_sha256 value = (length value == 64) && all is_hex value

-- `_sha256`.
unfoldable pub sha256 : Text → Checked Text
unfolding is_sha256
sha256 value = raise_if (not (is_sha256 value)) unsupported_input >> ok value

-- `_finite_decimal`.
unfoldable pub finite_decimal : Decimal → Checked ℤ
finite_decimal non_finite = err unsupported_input
finite_decimal (finite x) = ok x

-- `_amount`: a finite decimal of at least zero, as its number of units.
unfoldable pub amount : Decimal → Checked ℕ
amount non_finite = err exposure_not_calculable
amount (finite (negsuc _)) = err exposure_not_calculable
amount (finite (pos n)) = ok n

-- `_positive_limit`.
unfoldable pub positive_limit : Decimal → Checked ℕ
unfolding amount
positive_limit value = do
  result ← amount value
  raise_if (leb result 0) unsupported_input
  ok result

-- `_positive_int`.
unfoldable pub positive_int : ℤ → Checked ℕ
positive_int (negsuc _) = err unsupported_input
positive_int (pos n) = raise_if (leb n 0) unsupported_input >> ok n
