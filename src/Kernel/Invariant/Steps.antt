-- ===== src/Kernel/Invariant/Steps.antt =====
-- Every accepted command keeps the invariant.
use stadtstack.Base.{
  ℕ, String, false, Option, none, some, List, map, ◌≡◌, ◌≢◌, refl, sym, ap, subst, ◌∙◌, arith,
  length, length-append, length-map, any, take, take-append, take-length, concat_map, All-append,
  IsIn, lookup, insert, lookup-insert, insert-Entries, Entries-map, Entries-lookup, ok,
}
use stadtstack.Kernel.Types.{
  department_agent, CivicActor, CivicKernelConfig, draft, Suggestion, CivicDiscussion,
  DepartmentWorkPackage, CivicCommand,
}
use stadtstack.Kernel.State.{KernelState}
use stadtstack.Kernel.Packages.{
  has_id, new_package, submitted_state, responded_state, reviewed_state, published_state,
  mark_reviewed, set_response, response_citations,
}
use stadtstack.Kernel.Dispatch.{dispatch}
use stadtstack.Kernel.Changes.{
  Change, unchanged, discussion_added, suggestion_added, suggestion_submitted, response_recorded,
  response_reviewed, brief_published, result_recorded, dispatch-Change,
}
use stadtstack.Kernel.Invariant.{unreviewed, Inv}
use stadtstack.Kernel.Invariant.Rounds.{
  suggestion_added-IsAssigned, submitted-IsAssigned, updated-IsAssigned,
}
use stadtstack.Kernel.Invariant.Lemmas.{
  lookup-insert_keeps, length-update_first, All-update_first, All-weaken, new_packages-IsAuthored,
  take-update_first, IsBacked-of_take, submitted_count-insert_draft, submitted_count-submit,
  hit_sym, IsAuthored-insert, mark_reviewed-IsAuthored,
}

module _ (config : CivicKernelConfig) (s : KernelState) (v : Inv config s) where
  discussion_added-Inv :
      (id : String) (d : CivicDiscussion)
      → Inv config (record s { discussions = insert id d s.discussions })
  discussion_added-Inv id d = record {
    discussed =
        Entries-map s.suggestions
          (λ k x h. lookup-insert_keeps id x.discussion_id d s.discussions h) v.discussed;
    counted = v.counted;
    named = v.named;
    rounds = v.rounds;
    authored = v.authored;
    backed = v.backed;
  }

  suggestion_added-Inv :
      (x : Suggestion)
      → x.status ≡ draft
      → lookup x.id s.suggestions ≡ none
      → lookup x.discussion_id s.discussions ≢ none
      → Inv config (record s { suggestions = insert x.id x s.suggestions })
  suggestion_added-Inv x is_draft new known = record {
    discussed = insert-Entries _ x.id x s.suggestions known v.discussed;
    counted = rw (submitted_count-insert_draft x s.suggestions is_draft new) v.counted;
    named = insert-Entries _ x.id x s.suggestions refl v.named;
    rounds = suggestion_added-IsAssigned config s v.rounds x is_draft new;
    authored = v.authored;
    backed = v.backed;
  }

  submitted-Inv :
      (key : String) (x : Suggestion)
      → lookup key s.suggestions ≡ some x
      → x.status ≡ draft
      → Inv config (submitted_state config s key x)
  submitted-Inv key x e is_draft = record {
    discussed =
        insert-Entries _ key _ s.suggestions (Entries-lookup _ s.suggestions key v.discussed e)
          v.discussed;
    counted = rw (submitted_count-submit key x s.suggestions e is_draft) (
        omega (
          arith,
          v.counted,
          length-append s.department_work_packages (map (new_package x.id) config.departments),
          length-map (new_package x.id) config.departments,
        ));
    named =
        insert-Entries _ key _ s.suggestions (Entries-lookup _ s.suggestions key v.named e) v.named;
    rounds =
        submitted-IsAssigned config s v.rounds key x e is_draft
          (Entries-lookup _ s.suggestions key v.named e);
    authored =
        All-append _ s.department_work_packages _ v.authored
          (new_packages-IsAuthored config s.response_authors x.id config.departments);
    backed =
        IsBacked-of_take config s.department_work_packages _ s.reviewed_citizen_brief
          (omega (
            arith,
            length-append s.department_work_packages (map (new_package x.id) config.departments),
          ))
          (λ complete _. take-append _ s.department_work_packages _ complete) v.backed;
  }

  reviewed-Inv : (p : DepartmentWorkPackage) → Inv config (reviewed_state s p)
  reviewed-Inv p = record {
    discussed = v.discussed;
    counted = length-update_first _ _ s.department_work_packages ∙ v.counted;
    named = v.named;
    rounds = updated-IsAssigned config s v.rounds (has_id p.id) mark_reviewed (λ q. refl);
    authored =
        All-update_first _ _ mark_reviewed s.department_work_packages
          (λ q _ h. mark_reviewed-IsAuthored config s.response_authors q h) v.authored;
    backed =
        IsBacked-of_take config s.department_work_packages _ s.reviewed_citizen_brief
          (omega
            (arith, length-update_first (has_id p.id) mark_reviewed s.department_work_packages))
          (λ _ all_reviewed. take-update_first _ p.id s.department_work_packages all_reviewed)
          v.backed;
  }

  published-Inv :
      (actor : CivicActor) (summary : String)
      → length s.department_work_packages ≡ length config.departments
      → any unreviewed s.department_work_packages ≡ false
      → Inv config (published_state s actor.id summary)
  published-Inv actor summary same all_reviewed = record {
    discussed = v.discussed;
    counted = v.counted;
    named = v.named;
    rounds = v.rounds;
    authored = v.authored;
    backed =
        let e : take (length config.departments) s.department_work_packages
            ≡ s.department_work_packages =
          rw (← same) (take-length s.department_work_packages) in
        record {
          complete = omega (arith, same);
          all_reviewed = rw e all_reviewed;
          cited = ap (concat_map response_citations) (sym e);
        };
  }

  responded-Inv :
      (actor : CivicActor) (p : DepartmentWorkPackage) (summary : String) (citations : List String)
      → IsIn actor config.actors
      → actor.role ≡ department_agent
      → Inv config (responded_state s p actor.id summary citations)
  responded-Inv actor p summary citations listed is_agent = record {
    discussed = v.discussed;
    counted = length-update_first _ _ s.department_work_packages ∙ v.counted;
    named = v.named;
    rounds =
        updated-IsAssigned config s v.rounds (has_id p.id) (set_response summary citations)
          (λ q. refl);
    authored =
        All-update_first _ (has_id p.id) _ s.department_work_packages
          (λ q hit h. (
            actor,
            listed,
            is_agent,
            rw (lookup-insert p.id q.id actor.id s.response_authors, hit_sym p q hit),
          ))
          (All-weaken s.department_work_packages
            (IsAuthored-insert config s.response_authors p.id actor listed is_agent) v.authored);
    backed = tt;
  }

-- Every step keeps the invariant.
Change-Inv :
    (clock : String → Option ℕ) (config : CivicKernelConfig) (actor : CivicActor)
    (s t : KernelState)
    → IsIn actor config.actors
    → Inv config s
    → Change clock config actor s t
    → Inv config t
Change-Inv clock config actor s t listed v (unchanged e) = subst (Inv config) (sym e) v
Change-Inv clock config actor s t listed v (discussion_added given provenance new found e) =
    subst (Inv config) (sym e) (discussion_added-Inv config s v given.id _)
Change-Inv clock config actor s t listed v (suggestion_added x is_draft new known e) =
    subst (Inv config) (sym e) (suggestion_added-Inv config s v x is_draft new known)
Change-Inv clock config actor s t listed v (suggestion_submitted key x found is_draft e) =
    subst (Inv config) (sym e) (submitted-Inv config s v key x found is_draft)
Change-Inv clock config actor s t listed v
      (response_recorded p summary citations found is_agent own cited e) =
    subst (Inv config) (sym e) (responded-Inv config s v actor p summary citations listed is_agent)
Change-Inv clock config actor s t listed v
      (response_reviewed p r author found is_reviewer own given written differs e) =
    subst (Inv config) (sym e) (reviewed-Inv config s v p)
Change-Inv clock config actor s t listed v (brief_published summary may same all_reviewed e) =
    subst (Inv config) (sym e) (published-Inv config s v actor summary same all_reviewed)
Change-Inv clock config actor s t listed v (result_recorded given r new found e) =
    subst (Inv config) (sym e) (record {
      discussed = v.discussed;
      counted = v.counted;
      named = v.named;
      rounds = v.rounds;
      authored = v.authored;
      backed = v.backed;
    })

pub dispatch-Inv :
    (clock : String → Option ℕ) (config : CivicKernelConfig) (s t : KernelState) (c : CivicCommand)
    → Inv config s
    → dispatch clock config s c ≡ ok t
    → Inv config t
dispatch-Inv clock config s t c v h =
    let (actor, listed, step) = dispatch-Change clock config s t c h in
    Change-Inv clock config actor s t listed v step
