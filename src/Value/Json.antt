-- ===== src/Value/Json.antt =====
-- `JSON.stringify(a) === JSON.stringify(b)`, decided on the trees that the two texts stand for.
use stadtstack.Base.{Bool, true, false, ◌&&◌, ◌≡◌, refl, arith, eqb, if◌then◌else◌, ◌==◌, eq_refl}
use stadtstack.Value.{
  Number, nat, other, Key, name, symbol, Value, undefined, null, bool, num, str, arr, obj, Items,
  nil, cons, Fields, end, field, is_finite,
}

json_number : Number → Value
json_number (nat n) = num (nat n)
json_number (other bits) = if is_finite bits then num (other bits) else null

abbrev add_item : Value → Items → Items
add_item undefined vs = cons null vs
add_item v vs = cons v vs

abbrev add_field : Key → Value → Fields → Fields
add_field (symbol k) v fs = fs
add_field (name k) undefined fs = fs
add_field (name k) v fs = field (name k) v fs

-- What a value leaves in its JSON text: no symbol, no undefined property, no NaN.
mutual
  pub json : Value → Value
  json undefined = undefined
  json null = null
  json (bool b) = bool b
  json (num n) = json_number n
  json (str s) = str s
  json (arr vs) = arr (json_items vs)
  json (obj fs) = obj (json_fields fs)

  pub json_items : Items → Items
  json_items nil = nil
  json_items (cons v vs) = add_item (json v) (json_items vs)

  pub json_fields : Fields → Fields
  json_fields end = end
  json_fields (field k v fs) = add_field k (json v) (json_fields fs)

number_eq : Number → Number → Bool
number_eq (nat a) (nat b) = eqb a b
number_eq (other a) (other b) = eqb a b
number_eq _ _ = false

key_eq : Key → Key → Bool
key_eq (name a) (name b) = a == b
key_eq (symbol a) (symbol b) = a == b
key_eq _ _ = false

bool_eq : Bool → Bool → Bool
bool_eq true b = b
bool_eq false true = false
bool_eq false false = true

mutual
  unfolding number_eq key_eq bool_eq

  value_eq : Value → Value → Bool
  value_eq undefined undefined = true
  value_eq null null = true
  value_eq (bool a) (bool b) = bool_eq a b
  value_eq (num a) (num b) = number_eq a b
  value_eq (str a) (str b) = a == b
  value_eq (arr a) (arr b) = items_eq a b
  value_eq (obj a) (obj b) = fields_eq a b
  value_eq _ _ = false

  items_eq : Items → Items → Bool
  items_eq nil nil = true
  items_eq (cons a as_) (cons b bs) = value_eq a b && items_eq as_ bs
  items_eq _ _ = false

  fields_eq : Fields → Fields → Bool
  fields_eq end end = true
  fields_eq (field j a as_) (field k b bs) = key_eq j k && value_eq a b && fields_eq as_ bs
  fields_eq _ _ = false

unfoldable pub same_json : Value → Value → Bool
unfolding value_eq json json_number
same_json a b = value_eq (json a) (json b)

number_eq_refl : (n : Number) → number_eq n n ≡ true
unfolding number_eq
number_eq_refl (nat n) = ground arith
number_eq_refl (other n) = ground arith

key_eq_refl : (k : Key) → key_eq k k ≡ true
unfolding key_eq
key_eq_refl (name s) = eq_refl s
key_eq_refl (symbol s) = eq_refl s

bool_eq_refl : (b : Bool) → bool_eq b b ≡ true
unfolding bool_eq
bool_eq_refl true = refl
bool_eq_refl false = refl

mutual
  unfolding value_eq

  value_eq_refl : (v : Value) → value_eq v v ≡ true
  value_eq_refl undefined = refl
  value_eq_refl null = refl
  value_eq_refl (bool b) = bool_eq_refl b
  value_eq_refl (num n) = number_eq_refl n
  value_eq_refl (str s) = eq_refl s
  value_eq_refl (arr vs) = items_eq_refl vs
  value_eq_refl (obj fs) = fields_eq_refl fs

  items_eq_refl : (vs : Items) → items_eq vs vs ≡ true
  items_eq_refl nil = refl
  items_eq_refl (cons v vs) = rw (value_eq_refl v, items_eq_refl vs)

  fields_eq_refl : (fs : Fields) → fields_eq fs fs ≡ true
  fields_eq_refl end = refl
  fields_eq_refl (field k v fs) = rw (key_eq_refl k, value_eq_refl v, fields_eq_refl fs)

-- A value has the JSON text that it has.
pub same_json_refl : (v : Value) → same_json v v ≡ true
unfolding same_json
same_json_refl v = value_eq_refl (json v)
