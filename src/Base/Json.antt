-- ===== src/Base/Json.antt =====
-- JSON values, and what the program takes from Python's `json`, `hashlib`, `datetime` and `decimal`:
-- the record `Host` is a parameter of every definition that uses it.
use esscher_market.Base.Tests.{if◌then◌else◌}
use esscher_market.Base.Text.{Text, same}
use esscher_market.Base.Int.{ℤ, pos, Decimal, eq_ℤ}
use Prim.Native.Nat.{ℕ}
use native.Mathlib.Decide.{ℕ_discrete}
use mathlib.Core.Path.{◌≡◌}
use mathlib.Core.Bool.{Bool, false}
use mathlib.Core.Option.{Option, none, some}
use mathlib.Core.List.{List, [], ◌∷◌, ◌++◌}

mutual
  pub data Json : Type 0 where
    null : Json
    bool : Bool → Json
    number : ℤ → Json
    string : Text → Json
    array : Items → Json
    object : Fields → Json

  pub data Items : Type 0 where
    nil : Items
    cons : Json → Items → Items

  pub data Fields : Type 0 where
    end : Fields
    field : Text → Json → Fields → Fields

-- A dict display `{name: value, ...}`.
abbrev pub fields : List (Text × Json) → Fields
fields [] = end
fields ((name, value) ∷ rest) = field name value (fields rest)

-- `{**payload, name: value}`.
unfoldable pub set_field : Text → Json → Fields → Fields
set_field name value end = field name value end
set_field name value (field n v rest) =
    if same n name then field n value rest else field n v (set_field name value rest)

-- `payload.get(name)`.
unfoldable pub get : Text → Fields → Option Json
get name end = none
get name (field n v rest) = if same n name then some v else get name rest

-- `json.dumps(value, sort_keys=True, separators=(",", ":"), ensure_ascii=False,
-- allow_nan=False).encode("utf-8")` and `json.loads`, the hexadecimal SHA-256, `isoformat` of an
-- exact UTC instant with `Z` for its offset, `isoformat` with its own offset, the two spellings of a
-- decimal, `str(d)` and `format(d.normalize(), "f")`, and `Decimal(str(value))`, or `none` where it
-- raises.
pub record Host : Type 0 where
  pub dumps : Json → Text
  pub loads : Text → Option Json
  pub sha256_hex : Text → Text
  pub isoformat_z : ℕ → Text
  pub isoformat : ℕ → Text
  pub decimal_str : ℕ → Text
  pub decimal_fixed : ℕ → Text
  pub decimal_of : Json → Option Decimal

-- What the program relies on: parsing what `dumps` wrote for an object gives an object that is
-- written the same way (the same dict, its keys in order), and the text of an object depends on a
-- value in it only through the text of that value.
pub record IsJson (host : Host) : Type 0 where
  pub reload :
      (fs : Fields)
      → (gs : Fields) × (host.loads (host.dumps (object fs)) ≡ some (object gs))
        × (host.dumps (object gs) ≡ host.dumps (object fs))
  pub compose :
      (before after : List (Text × Json)) (name : Text) (v w : Json)
      → host.dumps v ≡ host.dumps w
      → host.dumps (object (fields (before ++ (name, v) ∷ after)))
        ≡ host.dumps (object (fields (before ++ (name, w) ∷ after)))

pub Fields-discrete : Discrete Fields
Fields-discrete = hlevel ℕ_discrete

-- `payload.get(name)`, with a JSON null for Python's `None`.
abbrev pub not_null : Option Json → Option Json
not_null (some null) = none
not_null value = value

unfoldable pub get_value : Text → Fields → Option Json
unfolding get
get_value name payload = not_null (get name payload)

-- `value == expected` for an expected text.
abbrev pub is_text : Text → Option Json → Bool
is_text expected (some (string t)) = same t expected
is_text expected _ = false

-- `value == expected` for an expected integer; in Python `True == 1` and `False == 0`.
abbrev pub is_integer : ℤ → Option Json → Bool
is_integer expected (some (number n)) = eq_ℤ n expected
is_integer expected (some (bool b)) = eq_ℤ (if b then pos 1 else pos 0) expected
is_integer expected _ = false

-- `str` values; `None` for any other.
abbrev pub text_value : Option Json → Option Text
text_value (some (string t)) = some t
text_value _ = none

-- A nested object, `value if isinstance(value, Mapping) else None`.
abbrev pub object_value : Option Json → Option Fields
object_value (some (object fs)) = some fs
object_value _ = none
