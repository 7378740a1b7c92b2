-- ===== src/City/Ledgers/Receipts.antt =====
-- The ledger of reviews: what is kept, and what is forgotten when a response changes.
use stadtstack.Base.{
  String, true, false, none, List, [], ◌∷◌, ◌≡◌, sym, ap, ◌∙◌, ◌==◌, eq_iff, lookup, insert,
  lookup-insert, All, Bool-cases, inl, inr,
}
use text.Mathlib.Text.{starts_with}
use text.Mathlib.TextLemmas.{append_assoc}
use text.Mathlib.TextPositions.{starts_with_of_prefix}
use stadtstack.Kernel.Types.{DepartmentWorkPackage}
use stadtstack.City.State.{ResponseEntry}
use stadtstack.City.Operations.{review_key, forget_reviews}
use stadtstack.City.Ledgers.{IsAssessed, IsReceipt}

true_not_false : true ≡ false → ⊥
true_not_false h = cc

-- A receipt of another package.
pub record IsElsewhere (entries : List (String × ResponseEntry)) (ps : List DepartmentWorkPackage)
    (id key : String) : Type 0 where
  pub receipt : IsReceipt entries ps key
  pub other : (id == receipt.id) ≡ false

own_prefix : (id reviewer : String) → starts_with (review_key id reviewer) (review_key id "") ≡ true
own_prefix id reviewer =
    starts_with_of_prefix (review_key id "") (review_key id reviewer)
      (reviewer, append_assoc id ":" reviewer)

-- The receipts of a package have the prefix that `forget_reviews` looks for.
unforgotten :
    (entries : List (String × ResponseEntry)) (ps : List DepartmentWorkPackage) (id key : String)
    → IsReceipt entries ps key
    → starts_with key (review_key id "") ≡ false
    → IsElsewhere entries ps id key
unforgotten entries ps id key r miss = elim (Bool-cases (id == r.id)) [
  | inr other ↦ record { receipt = r; other = other }
  | inl same ↦
      let hit : starts_with key (review_key id "") ≡ true =
        ap (λ k. starts_with k (review_key id "")) r.key_is
        ∙ ap (λ i. starts_with (review_key i r.reviewer_id) (review_key id ""))
            (sym ((eq_iff id r.id).0 same))
        ∙ own_prefix id r.reviewer_id in
      absurd (true_not_false (sym hit ∙ miss))
]

-- What is left once the receipts of a package are forgotten is of other packages.
pub forget_reviews-IsElsewhere :
    (entries : List (String × ResponseEntry)) (ps : List DepartmentWorkPackage) (id : String)
    (keys : List String)
    → All (IsReceipt entries ps) keys
    → All (IsElsewhere entries ps id) (forget_reviews (review_key id "") keys)
unfolding forget_reviews
forget_reviews-IsElsewhere entries ps id [] h = tt
forget_reviews-IsElsewhere entries ps id (key ∷ keys) h =
    let rest = forget_reviews-IsElsewhere entries ps id keys h.1 in
    elim (Bool-cases (starts_with key (review_key id ""))) [
      | inl hit ↦ rw hit rest
      | inr miss ↦ rw miss (unforgotten entries ps id key h.0 miss, rest)
    ]

-- Where there is no response in the ledger, there is no receipt of it.
pub unanswered-IsElsewhere :
    (entries : List (String × ResponseEntry)) (ps : List DepartmentWorkPackage) (id : String)
    (keys : List String)
    → lookup id entries ≡ none
    → All (IsReceipt entries ps) keys
    → All (IsElsewhere entries ps id) keys
unanswered-IsElsewhere entries ps id [] fresh h = tt
unanswered-IsElsewhere entries ps id (key ∷ keys) fresh h = (
  record {
    receipt = h.0;
    other = elim (Bool-cases (id == h.0.id)) [
      | inr other ↦ other
      | inl same ↦
          absurd
            (h.0.entered (ap (λ i. lookup i entries) (sym ((eq_iff id h.0.id).0 same)) ∙ fresh))
    ];
  },
  unanswered-IsElsewhere entries ps id keys fresh h.1,
)

pub elsewhere-IsReceipt :
    (entries : List (String × ResponseEntry)) (ps : List DepartmentWorkPackage) (id : String)
    (keys : List String)
    → All (IsElsewhere entries ps id) keys
    → All (IsReceipt entries ps) keys
elsewhere-IsReceipt entries ps id [] h = tt
elsewhere-IsReceipt entries ps id (key ∷ keys) h =
    (h.0.receipt, elsewhere-IsReceipt entries ps id keys h.1)

-- Receipts of packages that stay reviewed.
pub kept-IsReceipt :
    (entries : List (String × ResponseEntry)) (ps qs : List DepartmentWorkPackage)
    (keys : List String)
    → ((id : String) → IsAssessed ps id → IsAssessed qs id)
    → All (IsReceipt entries ps) keys
    → All (IsReceipt entries qs) keys
kept-IsReceipt entries ps qs [] f h = tt
kept-IsReceipt entries ps qs (key ∷ keys) f h = (
  record {
    id = h.0.id;
    reviewer_id = h.0.reviewer_id;
    key_is = h.0.key_is;
    entered = h.0.entered;
    assessed = f h.0.id h.0.assessed;
  },
  kept-IsReceipt entries ps qs keys f h.1,
)

-- A response that changes leaves the receipts of other packages.
pub answered-IsReceipt :
    (entries : List (String × ResponseEntry)) (ps qs : List DepartmentWorkPackage) (id : String)
    (e : ResponseEntry) (keys : List String)
    → ((j : String) → (id == j) ≡ false → IsAssessed ps j → IsAssessed qs j)
    → All (IsElsewhere entries ps id) keys
    → All (IsReceipt (insert id e entries) qs) keys
answered-IsReceipt entries ps qs id e [] f h = tt
answered-IsReceipt entries ps qs id e (key ∷ keys) f h =
    let r = h.0.receipt in
    (
      record {
        id = r.id;
        reviewer_id = r.reviewer_id;
        key_is = r.key_is;
        entered = rw (lookup-insert id r.id e entries, h.0.other) r.entered;
        assessed = f r.id h.0.other r.assessed;
      },
      answered-IsReceipt entries ps qs id e keys f h.1,
    )
