-- ===== src/Text/Laws.antt =====
-- Trimming twice is trimming once.
use Prim.Native.Char.{Char, code}
use Prim.Native.String.{[], ◌∷◌}
use stadtstack.Base.{String, false, ◌≡◌, refl, arith, ap, ◌∙◌, inl, inr, Bool-cases}
use stadtstack.Text.{is_space, trim_start, keep_end, trim_end, trim}

-- A text that does not begin with a space.
abbrev StartsFull : String → Type 0
StartsFull [] = Unit
StartsFull (c ∷ s) = is_space (code c) ≡ false

trim_start-StartsFull : (s : String) → StartsFull (trim_start s)
unfolding trim_start
trim_start-StartsFull [] = tt
trim_start-StartsFull (c ∷ s) = ground (arith, trim_start-StartsFull s)

keep_end-StartsFull :
    (c : Char) (s : String) → is_space (code c) ≡ false → StartsFull (keep_end c s)
unfolding keep_end
keep_end-StartsFull c [] h = ground arith
keep_end-StartsFull c (d ∷ s) h = h

trim_end-StartsFull : (s : String) → StartsFull s → StartsFull (trim_end s)
unfolding trim_end
trim_end-StartsFull [] h = tt
trim_end-StartsFull (c ∷ s) h = keep_end-StartsFull c (trim_end s) h

trim_start_of_StartsFull : (s : String) → StartsFull s → trim_start s ≡ s
unfolding trim_start
trim_start_of_StartsFull [] h = refl
trim_start_of_StartsFull (c ∷ s) h = ground arith

keep_end_again : (c : Char) (s : String) → trim_end s ≡ s → trim_end (keep_end c s) ≡ keep_end c s
unfolding trim_end keep_end
keep_end_again c [] h = elim (Bool-cases (is_space (code c))) [
  | inl space ↦ rw space
  | inr full ↦ rw (full, keep_end) (rw full)
]
keep_end_again c (d ∷ s) h = ap (keep_end c) h

trim_end_idempotent : (s : String) → trim_end (trim_end s) ≡ trim_end s
unfolding trim_end
trim_end_idempotent [] = refl
trim_end_idempotent (c ∷ s) = keep_end_again c (trim_end s) (trim_end_idempotent s)

pub trim_idempotent : (s : String) → trim (trim s) ≡ trim s
unfolding trim
trim_idempotent s =
    ap trim_end (
      trim_start_of_StartsFull (trim s)
        (trim_end-StartsFull (trim_start s) (trim_start-StartsFull s)))
    ∙ trim_end_idempotent (trim_start s)
