-- ===== src/City/Repeats.antt =====
-- A request that succeeded can be made again, with the same outcome.
use stadtstack.Base.{
  ℕ, String, ◌&&◌, Option, none, ◌≡◌, refl, ap, arith, ◌==◌, eq_refl, Bool-cases, Result-cases,
  Option-cases, inl, inr, Result, ok,
}
use stadtstack.Value.{Value}
use stadtstack.Kernel.Types.{
  CivicKernelConfig, CivicCommand, publish_reviewed_citizen_brief, publisher,
}
use stadtstack.Kernel.Dispatch.{dispatch}
use stadtstack.Kernel.Replay.{dispatch_idempotent}
use stadtstack.City.Types.{ActorRecord, CityConfig, CityError, PublishedBriefReceipt}
use stadtstack.City.Config.{role_actor}
use stadtstack.City.State.{PlaneState, dispatched}
use stadtstack.City.Publishing.{publish, publish_reviewed_brief, publication_request}

module _ (clock : String → Option ℕ) (city : CityConfig) (config : CivicKernelConfig) where
  -- After a command that succeeded, with what follows it reading the state alone.
  dispatched_twice :
      {B : Type 0} (s : PlaneState) (c : CivicCommand) (answer : PlaneState → Result CityError B)
      {b : B}
      → (dispatched clock config s c (λ t. record { state = t; answer = answer t })).answer ≡ ok b
      → dispatched clock config
          (dispatched clock config s c (λ t. record { state = t; answer = answer t })).state
          c
          (λ t. record { state = t; answer = answer t })
        ≡ dispatched clock config s c (λ t. record { state = t; answer = answer t })
  unfolding dispatched
  dispatched_twice s c answer h = elim (Result-cases (dispatch clock config s.kernel c)) [
    | inl (e, fails) ↦ absurd (ground arith)
    | inr (k, done) ↦ rw done (rw (dispatch_idempotent clock config s.kernel k c done) refl)
  ]

  publish_twice :
      (s : PlaneState) (a : ActorRecord) (m : String) {b : PublishedBriefReceipt}
      → (publish clock city config s a m).answer ≡ ok b
      → publish clock city config (publish clock city config s a m).state a m
        ≡ publish clock city config s a m
  unfolding publish dispatched
  publish_twice s a m h = elim (Option-cases s.published_brief) [
    | inl fresh ↦
        elim (Result-cases (
          dispatch clock config s.kernel
            (publish_reviewed_citizen_brief (role_actor a.id publisher none) m))) [
              | inl (e, fails) ↦ absurd (ground arith)
              | inr (k, done) ↦ rw (fresh, done) (rw (eq_refl a.id, eq_refl m) refl)
            ]
    | inr (entry, e) ↦ elim (Bool-cases (entry.publisher_id == a.id && entry.summary == m)) [
      | inl same ↦ ap (λ t. publish clock city config t a m) (simp (e, same) refl)
      | inr other ↦ absurd (ground arith)
    ]
  ]

  -- A publication that succeeded can be made again: the same answer, and the same state.
  pub publication_twice :
      (s : PlaneState) (raw : Value) {b : PublishedBriefReceipt}
      → (publish_reviewed_brief clock city config s raw).answer ≡ ok b
      → publish_reviewed_brief clock city config
          (publish_reviewed_brief clock city config s raw).state
          raw
        ≡ publish_reviewed_brief clock city config s raw
  unfolding publish_reviewed_brief
  publication_twice s raw h = elim (Result-cases (publication_request clock city config raw)) [
    | inl (e, fails) ↦ absurd (ground arith)
    | inr ((a, m), checks) ↦ rw checks (publish_twice s a m (rw checks at h))
  ]
