-- ===== src/Base/Dict.antt =====
-- `Map` with text keys: an association list in insertion order; a write to a present key keeps
-- its place.
use Prim.Native.Nat.{ℕ, ◌+◌}
use Prim.Native.String.{String}
use mathlib.Core.Path.{◌≡◌, refl, subst₂}
use mathlib.Core.Logic.{inl, inr}
use mathlib.Core.Bool.{Bool}
use mathlib.Core.Option.{Option, none, some}
use mathlib.Core.List.{List, [], ◌∷◌}
use native.Mathlib.Omega.{arith}
use text.Mathlib.Text.{◌==◌}
use text.Mathlib.TextEquality.{eq_iff}
use stadtstack.Base.Tests.{if◌then◌else◌, Bool-cases}

module _ {ℓ} {V : Type ℓ} where
  unfoldable pub lookup : String → List (String × V) → Option V
  lookup key [] = none
  lookup key ((first, value) ∷ rest) = if first == key then some value else lookup key rest

  unfoldable pub insert : String → V → List (String × V) → List (String × V)
  insert key value [] = (key, value) ∷ []
  insert key value ((first, held) ∷ rest) =
      if first == key then (key, value) ∷ rest else (first, held) ∷ insert key value rest

  -- `new Map(entries)`
  unfoldable pub from_entries : List (String × V) → List (String × V) → List (String × V)
  from_entries rest [] = rest
  from_entries rest ((key, value) ∷ es) = from_entries (insert key value rest) es

  pub lookup-insert :
      (key first : String) (value : V) (rest : List (String × V))
      → lookup first (insert key value rest)
        ≡ (if key == first then some value else lookup first rest)
  unfolding lookup insert
  lookup-insert key first value [] = refl
  lookup-insert key first value ((i, held) ∷ rest) =
      ground
        (arith, eq_iff key first, eq_iff i key, eq_iff i first, lookup-insert key first value rest)

  abbrev pub Entries {κ} : (String → V → Type κ) → List (String × V) → Type κ
  Entries P [] = Unit
  Entries P ((key, value) ∷ rest) = P key value × Entries P rest

  pub insert-Entries {κ} :
      (P : String → V → Type κ) (key : String) (value : V) (rest : List (String × V))
      → P key value
      → Entries P rest
      → Entries P (insert key value rest)
  unfolding insert
  insert-Entries P key value [] p h = (p, tt)
  insert-Entries P key value ((first, held) ∷ rest) p h =
      ground (arith, insert-Entries P key value rest p h.1)

  -- What holds of every entry written holds of every entry kept.
  pub from_entries-Entries {κ} :
      (P : String → V → Type κ) (rest es : List (String × V))
      → Entries P rest
      → Entries P es
      → Entries P (from_entries rest es)
  unfolding from_entries
  from_entries-Entries P rest [] h key = h
  from_entries-Entries P rest ((first, value) ∷ es) h key =
      from_entries-Entries P (insert first value rest) es
        (insert-Entries P first value rest key.0 h) key.1

  pub Entries-lookup {κ} :
      (P : String → V → Type κ) (rest : List (String × V)) (key : String) {value : V}
      → Entries P rest
      → lookup key rest ≡ some value
      → P key value
  unfolding lookup
  Entries-lookup P [] key h e = cc
  Entries-lookup P ((first, held) ∷ rest) key {value} h e = elim (Bool-cases (first == key)) [
    | inl same ↦ subst₂ P ((eq_iff first key).0 same) (ground arith) h.0
    | inr other ↦ Entries-lookup P rest key h.1 (ground arith)
  ]

  pub Entries-map {κ μ} :
      {P : String → V → Type κ} {Q : String → V → Type μ} (rest : List (String × V))
      → ((key : String) (value : V) → P key value → Q key value)
      → Entries P rest
      → Entries Q rest
  Entries-map [] f h = tt
  Entries-map ((key, value) ∷ rest) f h = (f key value h.0, Entries-map rest f h.1)

  -- How many values pass a test.
  abbrev pub count_values : (V → Bool) → List (String × V) → ℕ
  count_values p [] = 0
  count_values p ((key, value) ∷ rest) = (if p value then 1 else 0) + count_values p rest

  pub count_values-insert_new :
      (p : V → Bool) (key : String) (value : V) (rest : List (String × V))
      → lookup key rest ≡ none
      → count_values p (insert key value rest) ≡ count_values p rest + (if p value then 1 else 0)
  unfolding lookup insert
  count_values-insert_new p key value [] e = ground arith
  count_values-insert_new p key value ((first, held) ∷ rest) e =
      ground (arith, count_values-insert_new p key value rest)

  pub count_values-insert_old :
      (p : V → Bool) (key : String) (value old : V) (rest : List (String × V))
      → lookup key rest ≡ some old
      → count_values p (insert key value rest) + (if p old then 1 else 0)
        ≡ count_values p rest + (if p value then 1 else 0)
  unfolding lookup insert
  count_values-insert_old p key value old [] e = cc
  count_values-insert_old p key value old ((first, held) ∷ rest) e =
      ground (arith, count_values-insert_old p key value old rest)
