-- ===== src/Regex.antt =====
-- The regular expressions of the source, run by derivatives: `RegExp.prototype.test`, which is not
-- anchored, and with the `i` flag folds the ASCII letters. A text is its list of code points.
use Prim.Native.Char.{code}
use mathlib.Core.Bool.{xor}
use stadtstack.Base.{
  ℕ, zero, suc, ◌+◌, String, Bool, true, false, ◌&&◌, ◌||◌, List, [], ◌∷◌, leb, eqb, if◌then◌else◌,
}

pub data Regex : Type 0 where
  nothing empty boundary start end : Regex
  char_in : (ℕ → Bool) → Regex
  seq alt : Regex → Regex → Regex
  star : Regex → Regex

abbrev pub codes : String → List ℕ
codes String.[] = []
codes (String.◌∷◌ c s) = code c ∷ codes s

pub is_word : ℕ → Bool
is_word c =
    (leb b'a' c && leb c b'z')
    || (leb b'A' c && leb c b'Z')
    || (leb b'0' c && leb c b'9')
    || eqb c b'_'

-- What stands next to a position: `none` at an end of the text.
pub data Side : Type 0 where
  edge : Side
  beside : ℕ → Side

word_side : Side → Bool
word_side edge = false
word_side (beside c) = is_word c

at_edge : Side → Bool
at_edge edge = true
at_edge (beside c) = false

nullable : Side → Side → Regex → Bool
nullable before after nothing = false
nullable before after empty = true
nullable before after boundary = xor (word_side before) (word_side after)
nullable before after start = at_edge before
nullable before after end = at_edge after
nullable before after (char_in p) = false
nullable before after (seq r s) = nullable before after r && nullable before after s
nullable before after (alt r s) = nullable before after r || nullable before after s
nullable before after (star r) = true

-- `seq` and `alt` without what can no longer match.
cat : Regex → Regex → Regex
cat nothing s = nothing
cat empty s = s
cat r s = seq r s

union : Regex → Regex → Regex
union nothing s = s
union r nothing = r
union r s = alt r s

-- What is left to match after one more character.
derive : Side → ℕ → Regex → Regex
unfolding cat union nullable
derive before c nothing = nothing
derive before c empty = nothing
derive before c boundary = nothing
derive before c start = nothing
derive before c end = nothing
derive before c (char_in p) = if p c then empty else nothing
derive before c (seq r s) =
    union (cat (derive before c r) s)
      (if nullable before (beside c) r then derive before c s else nothing)
derive before c (alt r s) = union (derive before c r) (derive before c s)
derive before c (star r) = cat (derive before c r) (star r)

-- `whole` may begin at every position; `current` is what is left of the matches that have begun.
scan : Regex → Side → Regex → List ℕ → Bool
scan whole before current [] = nullable before edge current
scan whole before current (c ∷ s) =
    nullable before (beside c) current
    || scan whole (beside c) (union (derive before c current) whole) s

unfoldable pub test : Regex → String → Bool
unfolding scan derive nullable at_edge word_side is_word xor
test r s = scan r edge r (codes s)

-- The notation of the source: `[…]`, `(…)?`, `r+`, `r{n,}`, `r{n}`, and a literal text.
abbrev pub optional : Regex → Regex
optional r = alt r empty

abbrev pub plus : Regex → Regex
plus r = seq r (star r)

abbrev pub times : ℕ → Regex → Regex
times zero r = empty
times (suc n) r = seq r (times n r)

abbrev pub at_least : ℕ → Regex → Regex
at_least n r = seq (times n r) (star r)

abbrev pub one_of : List ℕ → ℕ → Bool
one_of [] c = false
one_of (d ∷ ds) c = eqb d c || one_of ds c

abbrev pub between : ℕ → ℕ → ℕ → Bool
between lo hi c = leb lo c && leb c hi

-- The other case of an ASCII letter, and any other character.
pub fold_case : ℕ → ℕ
fold_case c = if leb b'A' c && leb c b'Z' then c + 32 else c

abbrev pub any_case : (ℕ → Bool) → ℕ → Bool
any_case p c = p (fold_case c)

literal_codes : List ℕ → Regex
literal_codes [] = empty
literal_codes (c ∷ s) = seq (char_in (any_case (eqb c))) (literal_codes s)

-- A literal text in lower case under the `i` flag.
unfoldable pub literal : String → Regex
unfolding literal_codes fold_case
literal s = literal_codes (codes s)

abbrev pub alternatives : List Regex → Regex
alternatives [] = nothing
alternatives (r ∷ rs) = alt r (alternatives rs)
