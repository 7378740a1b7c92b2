-- ===== src/Staging/Raw.antt =====
-- Inputs that have objects in them: servers, functions and opaque tokens beside dynamic values.
use stadtstack.Base.{
  ℕ, String, Bool, true, ◌&&◌, ◌≤◌, ◌≡◌, arith, Option, none, some, List, [], ◌∷◌, eqb, leb, length,
  if◌then◌else◌,
}
use stadtstack.Value.{nat, Value, undefined, num, Key}
use stadtstack.Staging.Listeners.{key_among}
use stadtstack.Staging.Runtime.Start.{ServerView}

-- What passes for a server: a Node server, perhaps behind a proxy.
pub record ServerInput : Type 0 where
  pub identity : ℕ
  pub is_proxy : Bool
  pub view : ServerView

pub record FunctionInput : Type 0 where
  pub identity : ℕ
  pub is_proxy : Bool
  pub is_async : Bool

pub data Raw : Type 0 where
  plain : Value → Raw
  token : ℕ → Raw
  server_object : ServerInput → Raw
  function_object : FunctionInput → Raw

-- The own enumerable data properties of a plain object.
abbrev pub RawObject : Type 0
RawObject = List (Key × Raw)

-- A property, undefined where it is missing
unfoldable pub raw_get : String → RawObject → Raw
raw_get k [] = plain undefined
raw_get k ((j, v) ∷ fs) = let rest = raw_get k fs in if key_among (k ∷ []) j then v else rest

unfoldable pub keys_among : List String → RawObject → Bool
keys_among names [] = true
keys_among names ((k, v) ∷ fs) = key_among names k && keys_among names fs

-- `exactObject`: exactly these keys
unfoldable pub exact_object : List String → RawObject → Bool
unfolding keys_among
exact_object names fs = eqb (length fs) (length names) && keys_among names fs

-- An integer within bounds, both safe.
unfoldable pub integer_within : ℕ → ℕ → Raw → Option ℕ
integer_within low high (plain (num (nat n))) = if leb low n && leb n high then some n else none
integer_within low high _ = none

abbrev pub server_of : Raw → Option ServerInput
server_of (server_object s) = some s
server_of _ = none

abbrev pub function_of : Raw → Option FunctionInput
function_of (function_object f) = some f
function_of _ = none

pub integer_within-bounds :
    (low high : ℕ) (r : Raw) {n : ℕ} → integer_within low high r ≡ some n → (low ≤ n) × (n ≤ high)
unfolding integer_within
integer_within-bounds low high r h = ground arith
