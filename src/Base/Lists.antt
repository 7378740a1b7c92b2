-- ===== src/Base/Lists.antt =====
-- Lists of texts and lists measured by native numbers.
use Prim.Native.Nat.{ℕ, zero, suc, ◌+◌, ◌≤◌}
use Prim.Native.String.{String}
use mathlib.Core.Path.{◌≡◌, refl, ap}
use mathlib.Core.Bool.{Bool, true, false, ◌||◌}
use mathlib.Core.Logic.{◌⊎◌, inl, inr}
use mathlib.Core.Option.{Option, none, some}
use mathlib.Core.List.{List, [], ◌∷◌, ◌++◌, map}
use native.Mathlib.Omega.{arith}
use text.Mathlib.Text.{◌==◌}
use text.Mathlib.TextEquality.{eq_iff}
use text.Mathlib.TextPositions.{eq_refl}
use stadtstack.Base.Tests.{if◌then◌else◌, eqb, Bool-cases}

module _ {ℓ} {A : Type ℓ} where
  abbrev pub length : List A → ℕ
  length [] = 0
  length (x ∷ xs) = suc (length xs)

  abbrev pub is_empty : List A → Bool
  is_empty [] = true
  is_empty (x ∷ xs) = false

  abbrev pub is_some : Option A → Bool
  is_some none = false
  is_some (some a) = true

  abbrev pub any : (A → Bool) → List A → Bool
  any p [] = false
  any p (x ∷ xs) = p x || any p xs

  abbrev pub count_if : (A → Bool) → List A → ℕ
  count_if p [] = 0
  count_if p (x ∷ xs) = (if p x then 1 else 0) + count_if p xs

  abbrev pub take : ℕ → List A → List A
  take zero xs = []
  take (suc n) [] = []
  take (suc n) (x ∷ xs) = x ∷ take n xs

  pub take-append : (n : ℕ) (xs ys : List A) → n ≤ length xs → take n (xs ++ ys) ≡ take n xs
  take-append zero xs ys h = refl
  take-append (suc n) [] ys h = absurd (omega arith)
  take-append (suc n) (x ∷ xs) ys h = ap (◌∷◌ x) (take-append n xs ys (omega arith))

  pub take-length : (xs : List A) → take (length xs) xs ≡ xs
  take-length [] = refl
  take-length (x ∷ xs) = ap (◌∷◌ x) (take-length xs)

  -- `Array.prototype.find`
  abbrev pub find : (A → Bool) → List A → Option A
  find p [] = none
  find p (x ∷ xs) = if p x then some x else find p xs

  abbrev pub concat_map {κ} : {B : Type κ} → (A → List B) → List A → List B
  concat_map f [] = []
  concat_map f (x ∷ xs) = f x ++ concat_map f xs

  abbrev pub All {κ} : (A → Type κ) → List A → Type κ
  All P [] = Unit
  All P (x ∷ xs) = P x × All P xs

  pub length-append : (xs ys : List A) → length (xs ++ ys) ≡ length xs + length ys
  length-append [] ys = omega arith
  length-append (x ∷ xs) ys = omega (arith, length-append xs ys)

  pub All-append {κ} :
      (P : A → Type κ) (front back : List A) → All P front → All P back → All P (front ++ back)
  All-append P [] back in_front in_back = in_back
  All-append P (a ∷ front) back in_front in_back =
      (in_front.0, All-append P front back in_front.1 in_back)

  pub All-of_All {κ} : (P : A → Type κ) (xs : List A) → ((x : A) → P x) → All P xs
  All-of_All P [] h = tt
  All-of_All P (x ∷ xs) h = (h x, All-of_All P xs h)

pub length-map {ℓ κ} :
    {A : Type ℓ} {B : Type κ} (f : A → B) (xs : List A) → length (map f xs) ≡ length xs
length-map f [] = refl
length-map f (x ∷ xs) = ap suc (length-map f xs)

-- Membership of a list of data, by recursion.
abbrev pub IsIn : {A : Type 0} → A → List A → Type 0
IsIn a [] = ⊥
IsIn a (x ∷ xs) = (a ≡ x) ⊎ IsIn a xs

abbrev pub contains : String → List String → Bool
contains k [] = false
contains k (x ∷ xs) = x == k || contains k xs

-- `new Set(xs)`, in insertion order.
abbrev pub set_add : List String → String → List String
set_add s x = if contains x s then s else s ++ x ∷ []

abbrev pub set_of : List String → List String → List String
set_of s [] = s
set_of s (x ∷ xs) = set_of (set_add s x) xs

-- `new Set(xs).size === xs.length`
unfoldable pub has_no_duplicates : List String → Bool
has_no_duplicates xs = eqb (length (set_of [] xs)) (length xs)

abbrev pub IsDistinct : List String → Type 0
IsDistinct [] = Unit
IsDistinct (x ∷ xs) = (contains x xs ≡ false) × IsDistinct xs

length-set_of : (s xs : List String) → length (set_of s xs) ≤ length s + length xs
length-set_of s [] = omega arith
length-set_of s (x ∷ xs) =
    ground (arith, length-set_of s xs, length-set_of (s ++ x ∷ []) xs, length-append s (x ∷ []))

contains-append :
    (k : String) (xs ys : List String) → contains k (xs ++ ys) ≡ (contains k xs || contains k ys)
contains-append k [] ys = refl
contains-append k (x ∷ xs) ys = ground (arith, contains-append k xs ys)

abbrev Fits : List String → List String → Type 0
Fits s xs = IsDistinct xs × ((k : String) → contains k s ≡ true → contains k xs ≡ false)

Fits-step :
    (s : List String) (x : String) (xs : List String)
    → contains x s ≡ false
    → Fits (s ++ x ∷ []) xs
    → Fits s (x ∷ xs)
Fits-step s x xs new f = (
  (f.1 x (ground (arith, contains-append x s (x ∷ []), eq_refl x)), f.0),
  λ k old. ground (arith, f.1 k, contains-append k s (x ∷ []), eq_iff x k),
)

-- A set as large as the list: the list repeats nothing and meets nothing that was there before.
set_of-full : (s xs : List String) → length (set_of s xs) ≡ length s + length xs → Fits s xs
set_of-full s [] h = (tt, λ k _. refl)
set_of-full s (x ∷ xs) h = elim (Bool-cases (contains x s)) [
  | inl old ↦ absurd (ground (arith, length-set_of s xs))
  | inr new ↦
      Fits-step s x xs new (set_of-full (s ++ x ∷ []) xs (ground (arith, length-append s (x ∷ []))))
]

pub has_no_duplicates-IsDistinct : (xs : List String) → has_no_duplicates xs ≡ true → IsDistinct xs
unfolding has_no_duplicates
has_no_duplicates-IsDistinct xs h = (set_of-full [] xs (ground arith)).0
