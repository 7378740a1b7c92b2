-- ===== src/Value.antt =====
-- Values of a dynamic program, as `unknown` inputs are: trees without sharing. An own property of
-- an object is an enumerable data property; a key is a text or a symbol.
pub mod Json
use stadtstack.Base.{
  ℕ, suc, ◌/◌, ◌%◌, ◌^◌, String, Bool, true, false, not, ◌&&◌, Option, none, some, List, [], ◌∷◌,
  eqb, if◌then◌else◌, ◌==◌, Result, ok, err,
}
use stadtstack.Text.{trim, is_blank}

-- A number is a non-negative integer (both zeros are 0), or any other by its binary64 bits.
pub data Number : Type 0 where
  nat other : ℕ → Number

pub data Key : Type 0 where
  name symbol : String → Key

mutual
  pub data Value : Type 0 where
    undefined null : Value
    bool : Bool → Value
    num : Number → Value
    str : String → Value
    arr : Items → Value
    obj : Fields → Value

  pub data Items : Type 0 where
    nil : Items
    cons : Value → Items → Items

  pub data Fields : Type 0 where
    end : Fields
    field : Key → Value → Fields → Fields

-- The exponent bits of infinities and NaN are all ones.
pub is_finite : ℕ → Bool
is_finite bits = not (eqb (bits / 2 ^ 52 % 2 ^ 11) 2047)

pub is_nan : ℕ → Bool
unfolding is_finite
is_nan bits = not (is_finite bits) && not (eqb (bits % 2 ^ 52) 0)

-- `Boolean(value)`
unfoldable pub truthy : Value → Bool
unfolding is_nan
truthy undefined = false
truthy null = false
truthy (bool b) = b
truthy (num (nat n)) = not (eqb n 0)
truthy (num (other bits)) = not (is_nan bits)
truthy (str s) = not (s == "")
truthy (arr xs) = true
truthy (obj fs) = true

key_is : String → Key → Bool
key_is k (name j) = j == k
key_is k (symbol j) = false

-- `value.k`, undefined where the property is missing
unfoldable pub get : String → Fields → Value
unfolding key_is
get k end = undefined
get k (field j v fs) = if key_is k j then v else get k fs

-- `Object.prototype.hasOwnProperty.call(value, k)`
unfoldable pub has_own : String → Fields → Bool
unfolding key_is
has_own k end = false
has_own k (field j v fs) = if key_is k j then true else has_own k fs

-- `Reflect.ownKeys`
unfoldable pub own_keys : Fields → List Key
own_keys end = []
own_keys (field j v fs) = j ∷ own_keys fs

unfoldable pub items : Items → List Value
items nil = []
items (cons v vs) = v ∷ items vs

-- The fields of an object that is no array (`isRecord`).
abbrev pub as_record : Value → Option Fields
as_record (obj fs) = some fs
as_record _ = none

-- A text that is not blank, trimmed.
abbrev pub full_text : Value → Option String
full_text (str s) = if is_blank s then none else some (trim s)
full_text _ = none

abbrev pub is_text : String → Value → Bool
is_text s (str t) = t == s
is_text s _ = false
