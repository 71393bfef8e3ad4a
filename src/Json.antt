-- ===== src/Json.antt =====
-- JSON values, as the tools and the provider hand them over, and the `dict` methods on them.
use token_terminator.Common.{
  ℕ, String, Bool, true, false, ◌&&◌, ◌||◌, not, ◌==◌, if◌then◌else◌, str_eq,
}

-- A finite number as a fraction, with whether Python holds it as a `float`.
pub record Number : Type 0 where
  pub negative : Bool
  pub numerator : ℕ
  pub denominator : ℕ
  pub is_float : Bool

-- An `int` of zero or more
abbrev pub whole : ℕ → Number
whole n = record { negative = false; numerator = n; denominator = 1; is_float = false }

mutual
  pub data Value : Type 0 where
    null : Value
    boolean : Bool → Value
    number : Number → Value
    text : String → Value
    array : Items → Value
    object : Fields → Value

  pub data Items : Type 0 where
    nil : Items
    item : Value → Items → Items

  pub data Fields : Type 0 where
    end : Fields
    field : String → Value → Fields → Fields

-- value.get(key): `null` stands for `None`, missing or not
unfoldable pub get : String → Fields → Value
get key end = null
get key (field k v rest) = if str_eq k key then v else get key rest

-- key in value
unfoldable pub has : String → Fields → Bool
has key end = false
has key (field k v rest) = str_eq k key || has key rest

-- value[key] = new
unfoldable pub set : String → Value → Fields → Fields
set key new end = field key new end
set key new (field k v rest) =
    if str_eq k key then field k new rest else field k v (set key new rest)

-- value.setdefault(key, new)
unfoldable pub set_default : String → Value → Fields → Fields
set_default key new fs = if has key fs then fs else set key new fs

-- all(test(key) for key in value)
unfoldable pub all_keys : (String → Bool) → Fields → Bool
all_keys test end = true
all_keys test (field k v rest) = test k && all_keys test rest

-- bool(value)
unfoldable pub truthy : Value → Bool
truthy null = false
truthy (boolean b) = b
truthy (number q) = not (q.numerator == 0)
truthy (text s) = not (str_eq s "")
truthy (array nil) = false
truthy (array (item v vs)) = true
truthy (object end) = false
truthy (object (field k v fs)) = true
