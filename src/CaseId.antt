-- ===== src/CaseId.antt =====
-- src/case-id.ts: the identities of cases. Texts are lists of character codes here.
pub mod Laws
pub mod Derived
mod Tests
use stadtstack.Base.{
  ℕ, zero, suc, Bool, true, false, ◌&&◌, ◌||◌, Option, none, some, List, [], ◌∷◌, ◌++◌, eqb, leb,
  length, take, ◌+◌, ◌/◌, ◌%◌, ◌^◌, ◌-◌, ◌*◌, is_some, if◌then◌else◌, ◌>>=◌,
}
use stadtstack.Value.{Number, nat, other}
use stadtstack.Regex.{codes, between}

-- `urn:stadtstack:case:municipality:`
abbrev pub municipal_case_id_prefix : List ℕ
municipal_case_id_prefix = codes "urn:stadtstack:case:municipality:"

-- `urn:stadtstack:synthetic-case:municipality:`
abbrev pub synthetic_case_id_prefix : List ℕ
synthetic_case_id_prefix = codes "urn:stadtstack:synthetic-case:municipality:"

abbrev pub legacy_test_case_id_prefix : List ℕ
legacy_test_case_id_prefix = codes "urn:stadtstack:case:test:"

abbrev pub is_hex : ℕ → Bool
is_hex c = between b'0' b'9' c || between b'a' b'f' c

abbrev is_lower_or_digit : ℕ → Bool
is_lower_or_digit c = between b'a' b'z' c || between b'0' b'9' c

-- The rest of an id after its first character: `(?:[a-z0-9-]{0,61}[a-z0-9])?`, where the characters
-- before the last may be dashes as well.
is_municipality_rest : List ℕ → Bool
is_municipality_rest [] = true
is_municipality_rest (c ∷ []) = is_lower_or_digit c
is_municipality_rest (c ∷ cs) = (is_lower_or_digit c || eqb c b'-') && is_municipality_rest cs

-- `^[a-z0-9](?:[a-z0-9-]{0,61}[a-z0-9])?$`
unfoldable pub is_municipality_id : List ℕ → Bool
unfolding is_municipality_rest
is_municipality_id [] = false
is_municipality_id (c ∷ cs) = is_lower_or_digit c && is_municipality_rest cs && leb (length cs) 62

-- A pattern of single characters, `^` to `$`.
unfoldable pub matches : List (ℕ → Bool) → List ℕ → Bool
matches [] [] = true
matches (p ∷ ps) (c ∷ cs) = p c && matches ps cs
matches _ _ = false

abbrev pub hexes : ℕ → List (ℕ → Bool) → List (ℕ → Bool)
hexes zero rest = rest
hexes (suc n) rest = is_hex ∷ hexes n rest

abbrev is_dash : ℕ → Bool
is_dash c = eqb c b'-'

abbrev pub node_pattern : List (ℕ → Bool)
node_pattern = is_dash ∷ hexes 12 []

abbrev pub variant_pattern : List (ℕ → Bool)
variant_pattern =
    is_dash ∷ (λ c. eqb c b'8' || eqb c b'9' || eqb c b'a' || eqb c b'b') ∷ hexes 3 node_pattern

abbrev pub version_pattern : List (ℕ → Bool)
version_pattern = is_dash ∷ eqb b'7' ∷ hexes 3 variant_pattern

abbrev pub middle_pattern : List (ℕ → Bool)
middle_pattern = is_dash ∷ hexes 4 version_pattern

-- `^[0-9a-f]{8}-[0-9a-f]{4}-7[0-9a-f]{3}-[89ab][0-9a-f]{3}-[0-9a-f]{12}$`
abbrev pub uuid_v7_pattern : List (ℕ → Bool)
uuid_v7_pattern = hexes 8 middle_pattern

unfoldable pub is_uuid_v7 : List ℕ → Bool
unfolding matches
is_uuid_v7 cs = matches uuid_v7_pattern cs

-- `canonicalMunicipalCaseId` and `canonicalSyntheticCaseId`, by their prefix.
unfoldable pub canonical_case_id : List ℕ → List ℕ → List ℕ → Option (List ℕ)
canonical_case_id prefix municipality_id uuid =
    if is_municipality_id municipality_id && is_uuid_v7 uuid
    then some (prefix ++ (municipality_id ++ b':' ∷ uuid))
    else none

pub record MunicipalCaseIdentity : Type 0 where
  pub case_id : List ℕ
  pub municipality_id : List ℕ
  pub uuid_v7 : List ℕ

unfoldable pub strip_prefix : List ℕ → List ℕ → Option (List ℕ)
strip_prefix [] cs = some cs
strip_prefix (p ∷ ps) [] = none
strip_prefix (p ∷ ps) (c ∷ cs) = let rest = strip_prefix ps cs in if eqb p c then rest else none

-- What stands before the last `n` characters, and these.
unfoldable pub split_last : ℕ → List ℕ → List ℕ × List ℕ
split_last n [] = ([], [])
split_last n (c ∷ cs) =
    let rest = split_last n cs in
    if leb (length (c ∷ cs)) n then ([], c ∷ cs) else (c ∷ rest.0, rest.1)

-- The two groups after the prefix. A UUID has 36 characters, so that there is one way to match.
unfoldable pub read_identity : List ℕ → List ℕ × List ℕ → Option MunicipalCaseIdentity
read_identity id (municipality_id, []) = none
read_identity id (municipality_id, c ∷ uuid) =
    if eqb c b':' && is_municipality_id municipality_id && is_uuid_v7 uuid
    then some (record { case_id = id; municipality_id = municipality_id; uuid_v7 = uuid })
    else none

abbrev pub parse_stripped : List ℕ → Option (List ℕ) → Option MunicipalCaseIdentity
parse_stripped id none = none
parse_stripped id (some rest) = read_identity id (split_last 37 rest)

-- `parseMunicipalCaseId` and `parseSyntheticCaseId` on texts, by their prefix.
unfoldable pub parse_case_id : List ℕ → List ℕ → Option MunicipalCaseIdentity
parse_case_id prefix cs = parse_stripped cs (strip_prefix prefix cs)

-- `isLegacyTestCaseId`
unfoldable pub is_legacy_test_case_id : List ℕ → Bool
is_legacy_test_case_id cs = is_some (strip_prefix legacy_test_case_id_prefix cs)

-- The digit of a number below sixteen.
abbrev pub hex_digit : ℕ → ℕ
hex_digit n = if leb n 9 then 48 + n else 87 + n

-- `toString(16).padStart(n, "0")` of a number below 16 ^ n.
unfoldable pub hex_text : ℕ → ℕ → List ℕ
hex_text zero t = []
hex_text (suc n) t = hex_digit (t / 16 ^ n % 16) ∷ hex_text n t

-- `created_at` in milliseconds, a safe integer of at most 48 bits. The bound is below 2^53, so that
-- the product is exact where it is kept.
unfoldable pub timestamp_ms : Number → Option ℕ
timestamp_ms (other bits) = none
timestamp_ms (nat created_at) =
    if leb created_at 9007199254740991 && leb (created_at * 1000) 281474976710655
    then some (created_at * 1000)
    else none

-- `(Number.parseInt(c, 16) & 0x3) | 0x8` for a hexadecimal digit, as a digit.
abbrev pub variant_digit : ℕ → ℕ
variant_digit c = hex_digit ((if leb c b'9' then c - 48 else c - 87) % 4 + 8)

abbrev pub drop : ℕ → List ℕ → List ℕ
drop zero cs = cs
drop (suc n) [] = []
drop (suc n) (c ∷ cs) = drop n cs

abbrev pub char_at : ℕ → List ℕ → ℕ
char_at n [] = 0
char_at zero (c ∷ cs) = c
char_at (suc n) (c ∷ cs) = char_at n cs

abbrev pub node_text : List ℕ → List ℕ
node_text entropy = b'-' ∷ (take 12 (drop 7 entropy) ++ [])

abbrev pub variant_text : List ℕ → List ℕ
variant_text entropy =
    b'-' ∷ variant_digit (char_at 3 entropy) ∷ (take 3 (drop 4 entropy) ++ node_text entropy)

abbrev pub version_text : List ℕ → List ℕ
version_text entropy = b'-' ∷ b'7' ∷ (take 3 entropy ++ variant_text entropy)

abbrev pub uuid_text : List ℕ → List ℕ → List ℕ
uuid_text time entropy = take 8 time ++ (b'-' ∷ (drop 8 time ++ version_text entropy))

-- `deriveCaseUuidV7`. The hexadecimal SHA-256 digest of an id's UTF-8 text is a parameter.
unfoldable pub derive_case_uuid_v7 : (List ℕ → List ℕ) → List ℕ → Number → Option (List ℕ)
derive_case_uuid_v7 sha256_hex id created_at = elim (timestamp_ms created_at) [
  | none ↦ none
  | some ms ↦ some (uuid_text (hex_text 12 ms) (sha256_hex id))
]
