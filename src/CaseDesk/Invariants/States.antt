-- ===== src/CaseDesk/Invariants/States.antt =====
-- Closing, moving and reopening an issue keep a stable invariant.
use message_router.Prelude.{
  ℕ, ◌+◌, ◌≡◌, ◌≢◌, refl, Bool, true, false, not, Option, none, some, Text, arith, ◌==◌,
}
use message_router.Models.{
  Uuid, Case, CaseEntry, CaseStatus, case_status_eq, LifecycleStatus, lifecycle_status_eq,
  WaitingOn, waiting_on_eq,
}
use message_router.Session.{Db, Env}
use message_router.Session.Tx.Rules.{
  Yields, Any, Yields-done, Yields-bind, Yields-read_then, Yields-ensure_then,
}
use message_router.Directory.Lookup.{TeamChannel}
use message_router.CaseDesk.Common.{assert_open}
use message_router.CaseDesk.Workflow.{
  close_case, set_case_status, change_status, reopen_case, tell_reopened,
}
use message_router.CaseDesk.Invariants.Stable.{Stable, Closes, Reopens, SameState}
use message_router.CaseDesk.Invariants.Steps.{load_case-keeps, append_entry-keeps}
use message_router.CaseDesk.Invariants.Deliveries.{create_notice_delivery-keeps}

module _ {J : Db → Type 0} {C : Case → Type 0} {D : Option WaitingOn → Type 0} (env : Env)
    (st : Stable J C D) where
  pub close_case-keeps :
      (closes : Closes C) (ref : Text) (version : ℕ) (actor : Uuid)
      → Yields env J Any (close_case ref version actor)
  unfolding close_case
  close_case-keeps closes ref version actor = Yields-bind _ _ (load_case-keeps env st ref) λ c h.
      Yields-read_then _ _ λ _. Yields-read_then _ _ λ _. Yields-read_then _ _ λ _.
        Yields-read_then _ _ λ channel. Yields-read_then _ _ λ user.
          Yields-bind _ _ (append_entry-keeps env st _ _ (closes.closed c _ h refl refl refl refl))
            λ r like.
              Yields-bind _ _ (create_notice_delivery-keeps env st r.1 r.0 _ _ _ like.0)
                λ r' _. Yields-done _

  change_status-keeps :
      (b : Bool) (c : Case) (status : CaseStatus) (actor : Uuid)
      → C c
      → c.lifecycle_status ≡ LifecycleStatus.opened
      → status ≢ CaseStatus.closed
      → Yields env J Any (change_status b c status actor)
  unfolding change_status
  change_status-keeps true c status actor h is_opened not_closed = Yields-done _
  change_status-keeps false c status actor h is_opened not_closed =
      let moved = record c { status = status } in
      let moved' = record c { status = status; version = c.version + 1 } in
      let eq : SameState moved moved' = record {
        id = refl;
        lifecycle = refl;
        status = refl;
        waiting = refl;
      } in
      Yields-read_then _ _ λ _. Yields-read_then _ _ λ member. Yields-read_then _ _ λ _.
        Yields-read_then _ _ λ user.
          Yields-bind _ _
            (append_entry-keeps env st moved' _
              (st.same moved moved' eq (st.moved c status h is_opened not_closed)))
            λ r like. Yields-done _

  is_open :
      (c : Case)
      → (c.lifecycle_status == LifecycleStatus.opened) ≡ true
      → c.lifecycle_status ≡ LifecycleStatus.opened
  is_open c h = ground arith

  is_other : (a b : CaseStatus) → not (a == b) ≡ true → a ≢ b
  is_other a b h = ground arith

  pub set_case_status-keeps :
      (ref : Text) (version : ℕ) (status : CaseStatus) (actor : Uuid)
      → Yields env J Any (set_case_status ref version status actor)
  unfolding set_case_status assert_open
  set_case_status-keeps ref version status actor =
      Yields-bind _ _ (load_case-keeps env st ref) λ c h. Yields-read_then _ _ λ _.
        Yields-read_then _ _ λ _. Yields-ensure_then _ _ _ λ opened.
          Yields-ensure_then _ _ _ λ not_closed. Yields-read_then _ _ λ _. Yields-read_then _ _ λ _.
            change_status-keeps (c.status == status) c status actor h (is_open c opened)
              (is_other status CaseStatus.closed not_closed)

  tell_reopened-keeps :
      (channel : Option TeamChannel) (e : CaseEntry) (c : Case)
      → C c
      → Yields env J Any (tell_reopened channel e c)
  unfolding tell_reopened
  tell_reopened-keeps none e c h = Yields-done _
  tell_reopened-keeps (some channel) e c h =
      Yields-bind _ _ (create_notice_delivery-keeps env st e c _ _ _ h) λ r _. Yields-done _

  given_side : (side : WaitingOn) → not (side == WaitingOn.none) ≡ true → side ≢ WaitingOn.none
  given_side side h = ground arith

  pub reopen_case-keeps :
      (reopens : Reopens C) (ref : Text) (version : ℕ) (side : WaitingOn) (actor : Uuid)
      → Yields env J Any (reopen_case ref version side actor)
  unfolding reopen_case
  reopen_case-keeps reopens ref version side actor =
      Yields-bind _ _ (load_case-keeps env st ref) λ c h. Yields-read_then _ _ λ _.
        Yields-read_then _ _ λ _. Yields-read_then _ _ λ _. Yields-ensure_then _ _ _ λ given.
          Yields-read_then _ _ λ user. Yields-read_then _ _ λ channel.
            Yields-bind _ _
              (append_entry-keeps env st _ _
                (reopens.reopened c _ h refl refl (λ e. cc) (given_side side given)))
              λ r like. tell_reopened-keeps channel r.1 r.0 like.0
