-- ===== src/CaseDesk/Invariants/Columns.antt =====
-- Commands that change other columns of an issue keep a stable invariant: its deadline, its
-- metadata, its conclusion, and who is responsible for it.
use message_router.Prelude.{
  ℕ, refl, subst, Bool, true, false, Option, List, [], ◌∷◌, Text, ◌==◌, nat_eq, text_eq,
}
use message_router.Prelude.Int.{ℤ, pos}
use message_router.Models.{Uuid, Moment, Case, EntryMetadata, FieldChange, WaitingOn}
use message_router.Session.{Db, Env, ok-injective}
use message_router.Session.Query
use message_router.Session.Query.{Query, >>=-eq-ok}
use message_router.Session.Tx.{query}
use message_router.Session.Tx.Rules.{
  Yields, Any, Yields-done, Yields-bind, Yields-read_then, Yields-query, Yields-modify,
}
use message_router.CaseDesk.Commands.{GivenTime, UpdateCaseMetadata}
use message_router.CaseDesk.Common.{load_case}
use message_router.CaseDesk.Timeline.{NewEntry, append_entry}
use message_router.CaseDesk.Deadlines.{
  load_for_deadline, record_change, move_deadline, adjust_case_deadline, extend_case_deadline,
  replace_deadline, set_case_deadline, replace_window, set_case_approaching_window,
}
use message_router.CaseDesk.Metadata.{
  write_metadata, update_case_metadata, change_issue_status, set_issue_current_status,
  field_changes,
}
use message_router.CaseDesk.Transfers.{transfer_consultant, transfer_dev_team}
use message_router.CaseDesk.Invariants.Stable.{Stable, SameState}
use message_router.CaseDesk.Invariants.Steps.{
  load_case-yields, load_case-keeps, append_entry-keeps, Like,
}
use message_router.CaseDesk.Invariants.Deliveries.{create_notice_delivery-keeps}

module _ {J : Db → Type 0} {C : Case → Type 0} {D : Option WaitingOn → Type 0} (env : Env)
    (st : Stable J C D) where
  load_for_deadline-keeps :
      (ref : Text) (version : ℕ) (actor : Uuid)
      → Yields env J C (query (load_for_deadline ref version actor))
  unfolding load_for_deadline Query.pure
  load_for_deadline-keeps ref version actor =
      Yields-query C (load_for_deadline ref version actor) λ db c j h.
        let (c', h₀, h₁) = >>=-eq-ok (load_case ref) _ env db h in
        let (_, _, h₂) = >>=-eq-ok _ _ env db h₁ in
        let (_, _, h₃) = >>=-eq-ok _ _ env db h₂ in
        let (_, _, h₄) = >>=-eq-ok _ _ env db h₃ in
        subst C (ok-injective h₄) (load_case-yields env st ref db j h₀)

  -- `c'` is `c` with other columns changed.
  changed-keeps :
      (c c' : Case) (new : NewEntry)
      → SameState c c'
      → C c
      → Yields env J (Like env st c') (append_entry c' new)
  changed-keeps c c' new eq h = append_entry-keeps env st c' new (st.same c c' eq h)

  record_change-keeps :
      (c c' : Case) (actor : Uuid) (metadata : EntryMetadata)
      → SameState c c'
      → C c
      → Yields env J Any (record_change c' actor metadata)
  unfolding record_change
  record_change-keeps c c' actor metadata eq h =
      Yields-read_then _ _
        λ user. Yields-bind _ _ (changed-keeps c c' _ eq h) λ r like. Yields-done _

  move_deadline-keeps :
      (c : Case) (actor : Uuid) (name : Text) (minutes : ℤ)
      → C c
      → Yields env J Any (move_deadline c actor name minutes)
  unfolding move_deadline
  move_deadline-keeps c actor name minutes h = Yields-read_then _ _ λ _. Yields-read_then _ _ λ t.
      record_change-keeps c _ actor _
        (record { id = refl; lifecycle = refl; status = refl; waiting = refl }) h

  pub adjust_case_deadline-keeps :
      (ref : Text) (version : ℕ) (minutes : ℤ) (actor : Uuid)
      → Yields env J Any (adjust_case_deadline ref version minutes actor)
  unfolding adjust_case_deadline
  adjust_case_deadline-keeps ref version minutes actor =
      Yields-bind _ _ (load_for_deadline-keeps ref version actor)
        λ c h. Yields-read_then _ _ λ n. move_deadline-keeps c actor _ n h

  pub extend_case_deadline-keeps :
      (ref : Text) (version : ℕ) (minutes : ℤ) (actor : Uuid)
      → Yields env J Any (extend_case_deadline ref version minutes actor)
  unfolding extend_case_deadline
  extend_case_deadline-keeps ref version minutes actor =
      Yields-bind _ _ (load_for_deadline-keeps ref version actor)
        λ c h. Yields-read_then _ _ λ n. move_deadline-keeps c actor _ (pos n) h

  replace_deadline-keeps :
      (b : Bool) (c : Case) (t : Moment) (actor : Uuid)
      → C c
      → Yields env J Any (replace_deadline b c t actor)
  unfolding replace_deadline
  replace_deadline-keeps true c t actor h = Yields-done _
  replace_deadline-keeps false c t actor h =
      record_change-keeps c _ actor _
        (record { id = refl; lifecycle = refl; status = refl; waiting = refl }) h

  pub set_case_deadline-keeps :
      (ref : Text) (version : ℕ) (given : GivenTime) (actor : Uuid)
      → Yields env J Any (set_case_deadline ref version given actor)
  unfolding set_case_deadline
  set_case_deadline-keeps ref version given actor =
      Yields-bind _ _ (load_for_deadline-keeps ref version actor)
        λ c h. Yields-read_then _ _ λ t. replace_deadline-keeps (c.deadline == t) c t actor h

  replace_window-keeps :
      (b : Bool) (c : Case) (n : ℕ) (actor : Uuid)
      → C c
      → Yields env J Any (replace_window b c n actor)
  unfolding replace_window
  replace_window-keeps true c n actor h = Yields-done _
  replace_window-keeps false c n actor h =
      record_change-keeps c _ actor _
        (record { id = refl; lifecycle = refl; status = refl; waiting = refl }) h

  pub set_case_approaching_window-keeps :
      (ref : Text) (version : ℕ) (minutes : ℤ) (actor : Uuid)
      → Yields env J Any (set_case_approaching_window ref version minutes actor)
  unfolding set_case_approaching_window
  set_case_approaching_window-keeps ref version minutes actor =
      Yields-bind _ _ (load_for_deadline-keeps ref version actor) λ c h.
        Yields-read_then _ _
          λ n. replace_window-keeps (n == c.approaching_window_minutes) c n actor h

  write_metadata-keeps :
      (changes : List FieldChange) (c new : Case) (actor : Uuid)
      → SameState c new
      → C c
      → Yields env J Any (write_metadata changes c new actor)
  unfolding write_metadata
  write_metadata-keeps [] c new actor eq h = Yields-done _
  write_metadata-keeps (change ∷ rest) c new actor eq h = Yields-read_then _ _ λ user.
      Yields-bind _ _
        (changed-keeps c _ _
          (record {
            id = eq.id;
            lifecycle = eq.lifecycle;
            status = eq.status;
            waiting = eq.waiting;
          })
          h)
        λ r like. Yields-done _

  pub update_case_metadata-keeps :
      (command : UpdateCaseMetadata) (actor : Uuid)
      → Yields env J Any (update_case_metadata command actor)
  unfolding update_case_metadata
  update_case_metadata-keeps command actor =
      Yields-bind _ _ (load_case-keeps env st command.case_ref) λ c h. Yields-read_then _ _ λ _.
        Yields-read_then _ _ λ _. Yields-read_then _ _ λ _. Yields-read_then _ _ λ name.
          write_metadata-keeps (field_changes c _) c _ actor
            (record { id = refl; lifecycle = refl; status = refl; waiting = refl }) h

  change_issue_status-keeps :
      (b : Bool) (c : Case) (status : Text) (actor : Uuid)
      → C c
      → Yields env J Any (change_issue_status b c status actor)
  unfolding change_issue_status
  change_issue_status-keeps true c status actor h = Yields-done _
  change_issue_status-keeps false c status actor h = Yields-read_then _ _ λ user.
      Yields-bind _ _ (Yields-modify _ (st.cancel_jobs c.id)) λ _ _.
        Yields-bind _ _
          (changed-keeps c _ _
            (record { id = refl; lifecycle = refl; status = refl; waiting = refl }) h)
          λ r like. Yields-done _

  pub set_issue_current_status-keeps :
      (ref : Text) (version : ℕ) (status : Text) (actor : Uuid)
      → Yields env J Any (set_issue_current_status ref version status actor)
  unfolding set_issue_current_status
  set_issue_current_status-keeps ref version status actor =
      Yields-bind _ _ (load_case-keeps env st ref) λ c h. Yields-read_then _ _ λ _.
        Yields-read_then _ _ λ _.
          Yields-read_then _ _
            λ _. change_issue_status-keeps (c.issue_current_status == status) c status actor h

  pub transfer_consultant-keeps :
      (ref : Text) (version : ℕ) (to actor : Uuid)
      → Yields env J Any (transfer_consultant ref version to actor)
  unfolding transfer_consultant
  transfer_consultant-keeps ref version to actor =
      Yields-bind _ _ (load_case-keeps env st ref) λ c h. Yields-read_then _ _ λ _.
        Yields-read_then _ _ λ _. Yields-read_then _ _ λ user. Yields-read_then _ _ λ consultant.
          Yields-read_then _ _ λ _. Yields-read_then _ _ λ old.
            Yields-bind _ _
              (changed-keeps c _ _
                (record { id = refl; lifecycle = refl; status = refl; waiting = refl }) h)
              λ r like. Yields-read_then _ _ λ channel.
                Yields-bind _ _ (create_notice_delivery-keeps env st r.1 r.0 _ _ _ like.0)
                  λ r' like'.
                    Yields-bind _ _ (create_notice_delivery-keeps env st r.1 r'.0 _ _ _ like'.0)
                      λ r'' like''. Yields-done _

  pub transfer_dev_team-keeps :
      (ref : Text) (version : ℕ) (to actor : Uuid)
      → Yields env J Any (transfer_dev_team ref version to actor)
  unfolding transfer_dev_team
  transfer_dev_team-keeps ref version to actor = Yields-bind _ _ (load_case-keeps env st ref) λ c h.
      Yields-read_then _ _ λ _. Yields-read_then _ _ λ _. Yields-read_then _ _ λ user.
        Yields-read_then _ _ λ _. Yields-read_then _ _ λ old_channel.
          Yields-read_then _ _ λ new_channel. Yields-read_then _ _ λ old_team.
            Yields-read_then _ _ λ new_team.
              Yields-bind _ _
                (changed-keeps c _ _
                  (record { id = refl; lifecycle = refl; status = refl; waiting = refl }) h)
                λ r like.
                  Yields-bind _ _ (create_notice_delivery-keeps env st r.1 r.0 _ _ _ like.0)
                    λ r' like'.
                      Yields-bind _ _ (create_notice_delivery-keeps env st r.1 r'.0 _ _ _ like'.0)
                        λ r'' like''. Yields-done _
