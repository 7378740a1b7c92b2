-- ===== src/CaseId/Tests.antt =====
-- Case ids on concrete texts.
use stadtstack.Base.{ℕ, ◌≤◌, List, ◌≡◌, refl, some, true, false, arith}
use stadtstack.Regex.{codes}
use stadtstack.CaseId.{
  municipal_case_id_prefix, synthetic_case_id_prefix, canonical_case_id, is_municipality_id,
  is_uuid_v7, parse_case_id, derive_case_uuid_v7, hex_text, timestamp_ms,
}
use stadtstack.Value.{nat}
use stadtstack.CaseId.Derived.{AllHex, derive_case_uuid_v7_lem}
use stadtstack.CaseId.Laws.{parse-canonical, kinds_of, kinds_apart}

abbrev town : List ℕ
town = codes "roebel-1"

abbrev uuid : List ℕ
uuid = codes "0190a1b2-c3d4-7e5f-8a6b-0123456789ab"

abbrev municipal : List ℕ
municipal = codes "urn:stadtstack:case:municipality:roebel-1:0190a1b2-c3d4-7e5f-8a6b-0123456789ab"

abbrev synthetic : List ℕ
synthetic =
    codes "urn:stadtstack:synthetic-case:municipality:roebel-1:0190a1b2-c3d4-7e5f-8a6b-0123456789ab"

dash_refused : is_municipality_id (codes "roebel-") ≡ false
unfolding is_municipality_id
dash_refused = refl

canonical_municipal : canonical_case_id municipal_case_id_prefix town uuid ≡ some municipal
unfolding canonical_case_id is_municipality_id is_uuid_v7
canonical_municipal = refl

canonical_synthetic : canonical_case_id synthetic_case_id_prefix town uuid ≡ some synthetic
unfolding canonical_case_id is_municipality_id is_uuid_v7
canonical_synthetic = refl

parse-canonical_example :
    parse_case_id municipal_case_id_prefix municipal
    ≡ some (record { case_id = municipal; municipality_id = town; uuid_v7 = uuid })
parse-canonical_example =
    parse-canonical municipal_case_id_prefix town uuid municipal canonical_municipal

kinds_apart_example : kinds_of synthetic ≤ 1
kinds_apart_example = kinds_apart synthetic

-- A stand-in for the digest, the same for every text.
abbrev sample_digest : List ℕ → List ℕ
sample_digest id = codes "00112233445566778899aabbccddeeff00112233445566778899aabbccddeeff"

derived :
    derive_case_uuid_v7 sample_digest town (nat 1700000000)
    ≡ some (codes "018bcfe5-6800-7001-9223-344556677889")
unfolding derive_case_uuid_v7 hex_text timestamp_ms
derived = refl

digest_hex : AllHex (sample_digest town)
digest_hex = ground arith

derive_case_uuid_v7_example : is_uuid_v7 (codes "018bcfe5-6800-7001-9223-344556677889") ≡ true
derive_case_uuid_v7_example =
    derive_case_uuid_v7_lem sample_digest town (codes "018bcfe5-6800-7001-9223-344556677889")
      (nat 1700000000) digest_hex refl derived
