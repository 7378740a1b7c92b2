-- ===== src/Kernel/Screen.antt =====
-- The screen for raw participation data: what passes it.
use stadtstack.Base.{ℕ, ◌+◌, false, String, ◌≡◌, ◌↔◌, refl, arith, Result, ok, err, ◌>>◌}
use stadtstack.Value.{
  Value, undefined, null, bool, num, str, arr, obj, Items, nil, cons, Fields, end, field,
}
use stadtstack.Kernel.Errors.{ResultPath, KernelError}
use stadtstack.Kernel.Shape.{has_raw_marker, no_raw_values, no_raw_items, no_raw_fields}

-- Every text of a value, at any depth, satisfies `P`.
abbrev mutual
  pub EveryText : (String → Type 0) → Value → Type 0
  EveryText P undefined = Unit
  EveryText P null = Unit
  EveryText P (bool b) = Unit
  EveryText P (num n) = Unit
  EveryText P (str s) = P s
  EveryText P (arr vs) = EveryItemText P vs
  EveryText P (obj fs) = EveryFieldText P fs

  pub EveryItemText : (String → Type 0) → Items → Type 0
  EveryItemText P nil = Unit
  EveryItemText P (cons v vs) = EveryText P v × EveryItemText P vs

  pub EveryFieldText : (String → Type 0) → Fields → Type 0
  EveryFieldText P end = Unit
  EveryFieldText P (field k v fs) = EveryText P v × EveryFieldText P fs

abbrev pub IsScreened : String → Type 0
IsScreened s = has_raw_marker s ≡ false

then_ok : (m k : Result KernelError (Unit {0})) → (m >> k) ≡ ok tt → (m ≡ ok tt) × (k ≡ ok tt)
then_ok (ok tt) k h = (refl, h)
then_ok (err e) k h = cc

both_ok : (m k : Result KernelError (Unit {0})) → m ≡ ok tt → k ≡ ok tt → (m >> k) ≡ ok tt
both_ok (ok tt) k p q = q
both_ok (err e) k p q = cc

mutual
  unfolding no_raw_values

  screened : (path : ResultPath) (v : Value) → no_raw_values path v ≡ ok tt → EveryText IsScreened v
  screened path undefined h = tt
  screened path null h = tt
  screened path (bool b) h = tt
  screened path (num n) h = tt
  screened path (str s) h = ground arith
  screened path (arr vs) h = IsScreened-items path 0 vs h
  screened path (obj fs) h = IsScreened-fields path fs h

  IsScreened-items :
      (path : ResultPath) (i : ℕ) (vs : Items)
      → no_raw_items path i vs ≡ ok tt
      → EveryItemText IsScreened vs
  IsScreened-items path i nil h = tt
  IsScreened-items path i (cons v vs) h =
      let (p, q) = then_ok _ _ h in (screened _ v p, IsScreened-items path (i + 1) vs q)

  IsScreened-fields :
      (path : ResultPath) (fs : Fields)
      → no_raw_fields path fs ≡ ok tt
      → EveryFieldText IsScreened fs
  IsScreened-fields path end h = tt
  IsScreened-fields path (field k v fs) h =
      let (p, q) = then_ok _ _ h in (screened _ v p, IsScreened-fields path fs q)

mutual
  unfolding no_raw_values

  passes : (path : ResultPath) (v : Value) → EveryText IsScreened v → no_raw_values path v ≡ ok tt
  passes path undefined h = refl
  passes path null h = refl
  passes path (bool b) h = refl
  passes path (num n) h = refl
  passes path (str s) h = rw h
  passes path (arr vs) h = passes_items path 0 vs h
  passes path (obj fs) h = passes_fields path fs h

  passes_items :
      (path : ResultPath) (i : ℕ) (vs : Items)
      → EveryItemText IsScreened vs
      → no_raw_items path i vs ≡ ok tt
  passes_items path i nil h = refl
  passes_items path i (cons v vs) h =
      both_ok _ _ (passes _ v h.0) (passes_items path (i + 1) vs h.1)

  passes_fields :
      (path : ResultPath) (fs : Fields)
      → EveryFieldText IsScreened fs
      → no_raw_fields path fs ≡ ok tt
  passes_fields path end h = refl
  passes_fields path (field k v fs) h = both_ok _ _ (passes _ v h.0) (passes_fields path fs h.1)

-- The screen passes exactly the values in which no text, at any depth, has a raw-data marker.
pub no_raw_values_iff :
    (path : ResultPath) (v : Value) → (no_raw_values path v ≡ ok tt) ↔ EveryText IsScreened v
no_raw_values_iff path v = (screened path v, passes path v)
