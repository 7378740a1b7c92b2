-- ===== src/Kernel/Discussions.antt =====
-- `dispatch` on discussions and suggestions.
use stadtstack.Base.{
  String, Bool, not, ◌&&◌, Option, none, some, if◌then◌else◌, ◌==◌, lookup, insert, Result, ok, err,
  ◌>>=◌, ◌>>◌, guard, is_some,
}
use stadtstack.Text.{is_blank}
use stadtstack.Value.{Value, truthy}
use stadtstack.Value.Json.{same_json}
use stadtstack.Kernel.Types.{
  citizen, CivicActor, CivicKernelConfig, draft, DiscussionProvenance, CivicDiscussion,
  DiscussionInput,
}
use stadtstack.Kernel.Errors.{
  KernelError, citizen_required, discussion_signature_required, discussion_conflict,
  discussion_not_found, suggestion_conflict,
}
use stadtstack.Kernel.Actors.{role_eq}
use stadtstack.Kernel.Provenance.{normalize_discussion_provenance}
use stadtstack.Kernel.State.{KernelState, provenance_value}

-- The provenance that a discussion is stored with.
unfoldable pub discussion_provenance :
    CivicKernelConfig → Value → Result KernelError (Option DiscussionProvenance)
discussion_provenance config v =
    if truthy v then (normalize_discussion_provenance config v >>= λ p. ok (some p)) else ok none

abbrev pub same_discussion : CivicDiscussion → DiscussionInput → Option DiscussionProvenance → Bool
same_discussion old given provenance =
    old.content == given.content
    && old.transport == given.transport
    && old.signature == given.signature
    && same_json (provenance_value old.provenance) (provenance_value provenance)

abbrev pub new_discussion : DiscussionInput → Option DiscussionProvenance → CivicDiscussion
new_discussion given provenance = record {
  id = given.id;
  content = given.content;
  transport = given.transport;
  signature = given.signature;
  provenance = provenance;
}

unfoldable pub store_discussion :
    KernelState → DiscussionInput → Option DiscussionProvenance → Result KernelError KernelState
store_discussion s given provenance = elim (lookup given.id s.discussions) [
  | some old ↦ if same_discussion old given provenance then ok s else err discussion_conflict
  | none ↦
      ok
        (record s { discussions = insert given.id (new_discussion given provenance) s.discussions })
]

unfoldable pub dispatch_discussion :
    CivicKernelConfig → KernelState → CivicActor → DiscussionInput → Result KernelError KernelState
dispatch_discussion config s actor given = do
  guard (role_eq actor.role citizen) citizen_required
  guard (not (is_blank given.signature)) discussion_signature_required
  provenance ← discussion_provenance config given.provenance
  store_discussion s given provenance

store_suggestion : KernelState → String → String → String → Result KernelError KernelState
store_suggestion s id discussion_id title = elim (lookup id s.suggestions) [
  | some old ↦
      if old.discussion_id == discussion_id && old.title == title
      then ok s
      else err suggestion_conflict
  | none ↦ do
    guard (is_some (lookup discussion_id s.discussions)) discussion_not_found
    ok (record s {
      suggestions =
          insert id
            (record { id = id; discussion_id = discussion_id; title = title; status = draft })
            s.suggestions;
    })
]

unfoldable pub dispatch_suggestion :
    KernelState → CivicActor → String → String → String → Result KernelError KernelState
unfolding store_suggestion
dispatch_suggestion s actor id discussion_id title = do
  guard (role_eq actor.role citizen) citizen_required
  store_suggestion s id discussion_id title
