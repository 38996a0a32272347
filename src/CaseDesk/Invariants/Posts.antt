-- ===== src/CaseDesk/Invariants/Posts.antt =====
-- Posting a message and correcting an entry keep a stable invariant.
use message_router.Prelude.{
  ◌∙◌, ◌≡◌, refl, subst, Bool, true, false, Option, none, some, Text, arith, ◌==◌,
}
use message_router.Models.{
  Uuid, User, Case, CaseEntry, CaseStatus, LifecycleStatus, lifecycle_status_eq, WaitingOn,
  MessageIntent, EntrySide,
}
use message_router.Session.{Db, Env, ok, ok-injective}
use message_router.Session.Query
use message_router.Session.Query.{Query}
use message_router.Session.Tx.{query}
use message_router.Session.Tx.Rules.{
  Yields, Any, Yields-pure, Yields-done, Yields-bind, Yields-read_then, Yields-ensure_then,
  Yields-query, Yields-modify, Yields-uuid4,
}
use message_router.CaseDesk.Commands.{Actor, PostFormalMessage, CorrectEntry}
use message_router.CaseDesk.Common.{assert_open}
use message_router.CaseDesk.Messages
use message_router.CaseDesk.Messages.{
  group_target, queue_status_update, copy_to_consultant, mark_processing, marks_processing,
  post_new, post_once, post_formal_message,
}
use message_router.CaseDesk.Speakers.{Speaker}
use message_router.CaseDesk.Corrections
use message_router.CaseDesk.Corrections.{correct_entry}
use message_router.CaseDesk.Outgoing.{opposite_waiting_side}
use message_router.CaseDesk.Invariants.Stable.{Stable, SameState}
use message_router.CaseDesk.Invariants.Steps.{
  load_case-keeps, save_case-keeps, append_entry-keeps, add_parts-keeps, Like,
}
use message_router.CaseDesk.Invariants.Deliveries.{
  create_formal_delivery-keeps, create_notice_delivery-keeps,
}

module _ {J : Db → Type 0} {C : Case → Type 0} {D : Option WaitingOn → Type 0} (env : Env)
    (st : Stable J C D) where
  opposite :
      (side : EntrySide) (db : Db) {w : WaitingOn}
      → opposite_waiting_side side env db ≡ ok w
      → D (some w)
  unfolding opposite_waiting_side Query.pure Query.raise
  opposite EntrySide.consult db h = subst (λ w. D (some w)) (ok-injective h) st.to_dev
  opposite EntrySide.dev db h = subst (λ w. D (some w)) (ok-injective h) st.to_consult
  opposite EntrySide.system db h = absurd (cc)

  handoff_side :
      (side : EntrySide) (db : Db) {w : Option WaitingOn}
      → (Query.◌>>=◌ (opposite_waiting_side side) λ waiting. Query.pure (some waiting)) env db
        ≡ ok w
      → D w
  unfolding Query.pure
  handoff_side side db h =
      let (w, h₀, h₁) = Query.>>=-eq-ok (opposite_waiting_side side) _ env db h in
      subst D (ok-injective h₁) (opposite side db h₀)

  pub wait_after-keeps :
      (intent : MessageIntent) (side : EntrySide)
      → Yields env J D (query (Messages.wait_after intent side))
  unfolding Messages.wait_after Query.pure
  wait_after-keeps MessageIntent.sync side =
      Yields-query D (Query.pure none) (λ db w j h. subst D (ok-injective h) st.nowhere)
  wait_after-keeps MessageIntent.handoff side =
      Yields-query D _ (λ db w j h. handoff_side side db h)

  corrected_wait-keeps :
      (intent : Option MessageIntent) (side : EntrySide)
      → Yields env J D (query (Corrections.wait_after intent side))
  unfolding Corrections.wait_after Query.pure
  corrected_wait-keeps (some MessageIntent.handoff) side =
      Yields-query D _ (λ db w j h. handoff_side side db h)
  corrected_wait-keeps (some MessageIntent.sync) side =
      Yields-query D _ (λ db w j h. subst D (ok-injective h) st.nowhere)
  corrected_wait-keeps none side =
      Yields-query D _ (λ db w j h. subst D (ok-injective h) st.nowhere)

  group_target-side :
      (suppress : Bool) (chatid : Text) (w : Option WaitingOn)
      → D w
      → D (group_target suppress chatid w).waiting_on_after_delivery
  group_target-side true chatid w d = d
  group_target-side false chatid w d = d

  queue_status_update-keeps :
      (c : Case) (e : CaseEntry) → Yields env J Any (queue_status_update c e)
  unfolding queue_status_update
  queue_status_update-keeps c e =
      Yields-bind _ _ Yields-uuid4
        λ id _. Yields-read_then _ _ λ now. Yields-modify _ (λ db j. st.add_job _ db j)

  SameState-refl : (c : Case) → SameState c c
  SameState-refl c = record { id = refl; lifecycle = refl; status = refl; waiting = refl }

  copy_to_consultant-keeps :
      (consultant : Option User) (c : Case) (e : CaseEntry)
      → C c
      → Yields env J (Like env st c) (copy_to_consultant consultant c e)
  unfolding copy_to_consultant
  copy_to_consultant-keeps none c e h = Yields-pure _ (h, SameState-refl c)
  copy_to_consultant-keeps (some user) c e h =
      Yields-bind _ _ (create_formal_delivery-keeps env st c e _ h st.nowhere)
        λ r like. Yields-pure _ like

  mark_processing-keeps :
      (b : Bool) (c : Case) (speaker : Speaker)
      → C c
      → c.lifecycle_status ≡ LifecycleStatus.opened
      → Yields env J C (mark_processing b c speaker)
  unfolding mark_processing
  mark_processing-keeps false c speaker h is_opened = Yields-pure c h
  mark_processing-keeps true c speaker h is_opened =
      Yields-bind _ _
        (append_entry-keeps env st _ _ (st.moved c CaseStatus.in_progress h is_opened (λ e. cc)))
        λ r like. Yields-pure r.0 like.0

  opened_of :
      (c : Case)
      → (c.lifecycle_status == LifecycleStatus.opened) ≡ true
      → c.lifecycle_status ≡ LifecycleStatus.opened
  opened_of c h = ground arith

  post_new-keeps :
      (c : Case) (speaker : Speaker) (command : PostFormalMessage) (actor : Actor)
      → C c
      → Yields env J Any (post_new c speaker command actor)
  unfolding post_new assert_open
  post_new-keeps c speaker command actor h = Yields-read_then _ _ λ _.
      Yields-ensure_then _ _ _ λ is_opened. Yields-read_then _ _ λ parts. Yields-read_then _ _ λ _.
        Yields-read_then _ _ λ source. Yields-bind _ _ (append_entry-keeps env st c _ h) λ r like.
          Yields-bind _ _ (add_parts-keeps env st r.1 parts) λ _ _.
            Yields-bind _ _ (queue_status_update-keeps r.0 r.1) λ _ _.
              Yields-read_then _ _ λ channel.
                Yields-bind _ _ (wait_after-keeps command.intent speaker.side) λ w d.
                  Yields-bind _ _
                    (create_formal_delivery-keeps env st r.0 r.1 _ like.0
                      (group_target-side command.suppress_delivery channel.chatid w d))
                    λ r₂ like₂. Yields-read_then _ _ λ consultant.
                      Yields-bind _ _ (copy_to_consultant-keeps consultant r₂.0 r.1 like₂.0)
                        λ r₃ like₃.
                          Yields-bind _ _
                            (mark_processing-keeps (marks_processing actor speaker.side c) r₃.0
                              speaker like₃.0
                              (like₃.1.lifecycle
                                ∙ like₂.1.lifecycle
                                ∙ like.1.lifecycle
                                ∙ opened_of c is_opened))
                            λ c₄ h₄.
                              Yields-bind _ _
                                (save_case-keeps env st _ (
                                  st.same c₄ _
                                    (record {
                                      id = refl;
                                      lifecycle = refl;
                                      status = refl;
                                      waiting = refl;
                                    })
                                    h₄))
                                λ _ _. Yields-done _

  post_once-keeps :
      (existing : Option CaseEntry) (c : Case) (speaker : Speaker) (command : PostFormalMessage)
      (actor : Actor)
      → C c
      → Yields env J Any (post_once existing c speaker command actor)
  unfolding post_once
  post_once-keeps none c speaker command actor h = post_new-keeps c speaker command actor h
  post_once-keeps (some existing) c speaker command actor h =
      Yields-read_then _ _ λ _. Yields-done _

  pub post_formal_message-keeps :
      (command : PostFormalMessage) (actor : Actor)
      → Yields env J Any (post_formal_message command actor)
  unfolding post_formal_message
  post_formal_message-keeps command actor =
      Yields-bind _ _ (load_case-keeps env st command.case_ref) λ c h.
        Yields-read_then _ _ λ speaker.
          Yields-read_then _ _ λ existing. post_once-keeps existing c speaker command actor h

  pub correct_entry-keeps :
      (command : CorrectEntry) (actor : Uuid) → Yields env J Any (correct_entry command actor)
  unfolding correct_entry
  correct_entry-keeps command actor = Yields-read_then _ _ λ _. Yields-read_then _ _ λ _.
      Yields-read_then _ _ λ _.
        Yields-bind _ _ (load_case-keeps env st command.case_ref) λ source h.
          Yields-bind _ _ (load_case-keeps env st command.target_case_ref) λ target k.
            Yields-read_then _ _ λ _. Yields-read_then _ _ λ _. Yields-read_then _ _ λ _.
              Yields-read_then _ _ λ _. Yields-read_then _ _ λ _. Yields-read_then _ _ λ user.
                Yields-read_then _ _ λ found. Yields-read_then _ _ λ original.
                  Yields-read_then _ _ λ _. Yields-read_then _ _ λ rows. Yields-read_then _ _ λ _.
                    Yields-read_then _ _ λ parts.
                      Yields-bind _ _
                        (append_entry-keeps env st _ _ (
                          st.same source _
                            (record { id = refl; lifecycle = refl; status = refl; waiting = refl })
                            h))
                        λ r like.
                          Yields-bind _ _
                            (append_entry-keeps env st _ _ (
                              st.same target _
                                (record {
                                  id = refl;
                                  lifecycle = refl;
                                  status = refl;
                                  waiting = refl;
                                })
                                k))
                            λ t like'. Yields-bind _ _ (add_parts-keeps env st t.1 parts) λ _ _.
                              Yields-read_then _ _ λ channel.
                                Yields-bind _ _
                                  (create_notice_delivery-keeps env st r.1 r.0 _ _ _ like.0)
                                  λ r₂ _. Yields-read_then _ _ λ target_channel.
                                    Yields-bind _ _
                                      (corrected_wait-keeps original.message_intent original.side)
                                      λ w d.
                                        Yields-bind _ _
                                          (create_formal_delivery-keeps env st t.0 t.1 _ like'.0 d)
                                          λ t₂ _. Yields-done _
