-- ===== src/Json.antt =====
-- The values of a parsed request body (Python's `json` as Flask's `get_json` returns it), and the
-- field checks that the record modules repeat: `_text`, `_timestamp` and `_number` of
-- plugins/LumaeAnalysis/vibes.py and journeys.py.
pub mod Inversion
pub mod Equality
use Prim.Native.String.{count}
use lumae_plugin.Prelude.{
  ℕ, suc, ◌+◌, ◌-◌, ◌*◌, ◌^◌, ◌≡◌, Bool, true, false, ◌||◌, String, Option, none, some, arith, ltb,
  leb, if◌then◌else◌, ◌==◌,
}

-- A Python `int`; `negsuc n` is -(n + 1).
pub data ℤ : Type 0 where
  pos : ℕ → ℤ
  negsuc : ℕ → ℤ

abbrev pub pos_part : ℤ → ℕ
pos_part (pos n) = n
pos_part (negsuc n) = 0

abbrev pub neg_part : ℤ → ℕ
neg_part (pos n) = 0
neg_part (negsuc n) = suc n

-- A JSON number. A finite Python `float` is a dyadic fraction: `float m k` is m / 2 ^ k, exactly.
-- `not_finite` stands for NaN and the two infinities, which Python's parser accepts.
pub data Number : Type 0 where
  int : ℤ → Number
  float : ℤ → ℕ → Number
  not_finite : Number

mutual
  pub data Json : Type 0 where
    null : Json
    bool : Bool → Json
    num : Number → Json
    str : String → Json
    arr : Items → Json
    obj : Fields → Json

  pub data Items : Type 0 where
    nil : Items
    cons : Json → Items → Items

  pub data Fields : Type 0 where
    end : Fields
    field : String → Json → Fields → Fields

-- What a check raises. `invalid name` is `ValueError(f"Invalid {name}")`, `refused text` a
-- `ValueError` with another text, `unhashable` the `TypeError` of a list or a dict as a key, and
-- `too_large` the `OverflowError` of `math.isfinite` at an `int` that no float can hold.
pub data Error : Type 0 where
  invalid : String → Error
  refused : String → Error
  unhashable : Error
  too_large : Error

-- What a check returns, or what it raises.
pub data Result {ℓ} (V : Type ℓ) : Type ℓ where
  err : Error → Result V
  ok : V → Result V

-- The exception of the first check that raises is the exception of the whole.
module _ {ℓ κ} {V : Type ℓ} {W : Type κ} where
  infixl 5 ◌>>=◌
  abbrev pub ◌>>=◌ : Result V → (V → Result W) → Result W
  err raised >>= next = err raised
  ok value >>= next = next value

-- A check that has no value, before the rest of the handler.
module _ {κ} {W : Type κ} where
  infixl 5 ◌>>◌
  abbrev pub ◌>>◌ : Result (Unit {0}) → Result W → Result W
  check >> rest = check >>= λ done. rest

-- `if refused_when: raise error`
abbrev pub unless : Bool → Error → Result (Unit {0})
unless false raised = ok tt
unless true raised = err raised

-- `body.get(key)`, with `None` where the key is missing.
unfoldable pub get : String → Fields → Json
get k end = null
get k (field j v rest) = if j == k then v else get k rest

-- Whether the key is there, for `body.get(key, "missing")`.
unfoldable pub has : String → Fields → Bool
has k end = false
has k (field j v rest) = j == k || has k rest

-- `_text(value, name, maximum)`
unfoldable pub text_of : Json → String → ℕ → Result String
text_of (str s) name maximum = if s == "" || ltb maximum (count s) then err (invalid name) else ok s
text_of _ name maximum = err (invalid name)

-- The least `int` that has no float: Python rounds half to even at the top of the range.
abbrev float_limit : ℕ
float_limit = 2 ^ 1024 - 2 ^ 970

magnitude : ℤ → ℕ
magnitude (pos n) = n
magnitude (negsuc n) = suc n

is_negative : ℤ → Bool
is_negative (pos n) = false
is_negative (negsuc n) = true

-- `_number(value, name)`; `_timestamp(value)` is the same check with the name "timestamp".
unfoldable pub number : Json → String → Result Number
unfolding magnitude is_negative
number (num (int z)) name =
    if leb float_limit (magnitude z)
    then err too_large
    else if is_negative z
    then err (invalid name)
    else ok (int z)
number (num (float m k)) name = if is_negative m then err (invalid name) else ok (float m k)
number _ name = err (invalid name)

-- `_optional_number(value, name)`
unfoldable pub optional_number : Json → String → Result (Option Number)
unfolding number
optional_number null name = ok none
optional_number value name = do n ← number value name; ok (some n)

-- `this < that` between finite numbers, exact as Python's is; NaN compares false.
unfoldable pub number_lt : Number → Number → Bool
number_lt not_finite b = false
number_lt (int x) not_finite = false
number_lt (float x j) not_finite = false
number_lt (int x) (int y) = ltb (pos_part x + neg_part y) (pos_part y + neg_part x)
number_lt (int x) (float y k) =
    ltb (pos_part x * 2 ^ k + neg_part y) (pos_part y + neg_part x * 2 ^ k)
number_lt (float x j) (int y) =
    ltb (pos_part x + neg_part y * 2 ^ j) (pos_part y * 2 ^ j + neg_part x)
number_lt (float x j) (float y k) =
    ltb (pos_part x * 2 ^ k + neg_part y * 2 ^ j) (pos_part y * 2 ^ j + neg_part x * 2 ^ k)

-- A later time is not before the earlier one.
pub number_lt_asymm : (a b : Number) → number_lt a b ≡ true → number_lt b a ≡ false
unfolding number_lt
number_lt_asymm (int x) (int y) h = ground arith
number_lt_asymm (int x) (float y k) h = ground arith
number_lt_asymm (float x j) (int y) h = ground arith
number_lt_asymm (float x j) (float y k) h = ground arith
number_lt_asymm not_finite b h = ground arith
number_lt_asymm a not_finite h = ground arith
