-- ===== src/Text.antt =====
-- Texts as the source uses them: `String.prototype.trim` and the blank test.
pub mod Laws
use Prim.Native.Char.{Char, code}
use Prim.Native.String
use Prim.Native.String.{[], ◌∷◌}
use stadtstack.Base.{ℕ, String, Bool, true, false, ◌||◌, ◌&&◌, leb, eqb, if◌then◌else◌, ◌==◌}

-- The white space and line terminators of ECMAScript.
unfoldable pub is_space : ℕ → Bool
is_space c =
    (leb 9 c && leb c 13)
    || eqb c 32
    || eqb c 0xa0
    || eqb c 0x1680
    || (leb 0x2000 c && leb c 0x200a)
    || eqb c 0x2028
    || eqb c 0x2029
    || eqb c 0x202f
    || eqb c 0x205f
    || eqb c 0x3000
    || eqb c 0xfeff

pub trim_start : String → String
trim_start [] = []
trim_start (c ∷ s) = let rest = trim_start s in if is_space (code c) then rest else c ∷ s

keep_end : Char → String → String
keep_end c [] = if is_space (code c) then [] else c ∷ []
keep_end c (d ∷ s) = c ∷ d ∷ s

pub trim_end : String → String
unfolding keep_end
trim_end [] = []
trim_end (c ∷ s) = keep_end c (trim_end s)

unfoldable pub trim : String → String
unfolding trim_start trim_end is_space
trim s = trim_end (trim_start s)

-- `s.trim() === ""`
unfoldable pub is_blank : String → Bool
is_blank s = trim s == ""
