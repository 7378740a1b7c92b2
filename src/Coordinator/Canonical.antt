-- ===== src/Coordinator/Canonical.antt =====
-- `canonicalize`: values with their keys in order. Texts are compared by their code points.
use stadtstack.Base.{String, Bool, true, false, Option, none, some, if◌then◌else◌}
use stadtstack.Value.{
  nat, other, Key, name, symbol, Value, undefined, null, bool, num, str, arr, obj, Items, nil, cons,
  Fields, end, field, is_finite,
}
use Prim.Native.String.{compare}
use Prim.Native.Nat.{Ordering}

abbrev is_before : String → String → Bool
is_before a b = elim (compare a b) [ Ordering.lt ↦ true | _ ↦ false ]

-- A property among those of greater keys; an equal key is overwritten.
insert_field : String → Value → Fields → Fields
insert_field k v end = field (name k) v end
insert_field k v (field (name j) w fs) =
    let rest = insert_field k v fs in
    if is_before k j then field (name k) v (field (name j) w fs) else field (name j) w rest
insert_field k v (field (symbol j) w fs) = field (symbol j) w (insert_field k v fs)

abbrev and_item : Option Value → Option Items → Option Items
and_item (some v) (some vs) = some (cons v vs)
and_item _ _ = none

abbrev and_field :
    (String → Value → Fields → Fields) → Key → Option Value → Option Fields → Option Fields
and_field f (name k) (some v) (some fs) = some (f k v fs)
and_field f _ _ _ = none

abbrev as_array : Option Items → Option Value
as_array (some vs) = some (arr vs)
as_array none = none

abbrev as_object : Option Fields → Option Value
as_object (some fs) = some (obj fs)
as_object none = none

-- `canonicalize`; nothing where the source throws `canonical_value_invalid`.
unfoldable mutual
  unfolding insert_field

  pub canonicalize : Value → Option Value
  canonicalize undefined = none
  canonicalize null = some null
  canonicalize (bool b) = some (bool b)
  canonicalize (num (nat n)) = some (num (nat n))
  canonicalize (num (other bits)) = if is_finite bits then some (num (other bits)) else none
  canonicalize (str s) = some (str s)
  canonicalize (arr vs) = as_array (canonical_items vs)
  canonicalize (obj fs) = as_object (canonical_fields fs)

  pub canonical_items : Items → Option Items
  canonical_items nil = some nil
  canonical_items (cons v vs) = and_item (canonicalize v) (canonical_items vs)

  pub canonical_fields : Fields → Option Fields
  canonical_fields end = some end
  canonical_fields (field k v fs) = and_field insert_field k (canonicalize v) (canonical_fields fs)
