-- ===== src/CaseDesk/Invariants/Creations.antt =====
-- Creating an issue keeps a stable invariant.
use message_router.Prelude.{ℕ, zero, suc, refl, Option, none, some, List, Text, is_empty}
use message_router.Models.{Case, lifecycle_status_eq, WaitingOn}
use message_router.Session.{Db, Env}
use message_router.Session.Tx.{Tx}
use message_router.Session.Tx.Rules.{
  Yields, Any, Yields-done, Yields-bind, Yields-read, Yields-read_then, Yields-modify, Yields-drawn,
  Yields-draw, Yields-if,
}
use message_router.Markers.{normalize_case_ref, new_case_ref, draw_chars, default_case_ref_length}
use message_router.CaseDesk.Commands.{Actor, CreateCase, CommandResult, ContentPart}
use message_router.CaseDesk.CreationChecks.{Creator, unique_case_ref, number_of}
use message_router.CaseDesk.Creation.{create_new, create_once, create_case}
use message_router.CaseDesk.Invariants.Stable.{Stable, Creates}
use message_router.CaseDesk.Invariants.Steps.{
  append_entry-keeps, add_parts-keeps, next_bug_number-keeps,
}
use message_router.CaseDesk.Invariants.Deliveries.{create_formal_delivery-keeps}

module _ {J : Db → Type 0} {C : Case → Type 0} {D : Option WaitingOn → Type 0} (env : Env)
    (st : Stable J C D) where
  draw_chars-keeps : (n : ℕ) → Yields env J Any (draw_chars n)
  unfolding draw_chars
  draw_chars-keeps zero = Yields-done _
  draw_chars-keeps (suc n) =
      Yields-bind _ _ Yields-draw
        λ i _. Yields-bind _ _ (draw_chars-keeps n) λ rest _. Yields-done _

  unique_case_ref-keeps : (attempts : ℕ) → Yields env J Any (unique_case_ref attempts)
  unfolding unique_case_ref new_case_ref
  unique_case_ref-keeps zero = Yields-read _
  unique_case_ref-keeps (suc attempts) =
      Yields-bind _ _ (Yields-read_then _ _ λ _. draw_chars-keeps default_case_ref_length) λ ref _.
        Yields-read_then _ _
          λ new. Yields-if new (λ _. Yields-done ref) (λ _. unique_case_ref-keeps attempts)

  number_of-keeps : (given : Option Text) → Yields env J Any (number_of given)
  unfolding number_of
  number_of-keeps none = unique_case_ref-keeps 16
  number_of-keeps (some s) =
      Yields-if (is_empty s) (λ _. unique_case_ref-keeps 16)
        (λ _. Yields-read (normalize_case_ref s))

  create_new-keeps :
      (creates : Creates env C) (command : CreateCase) (creator : Creator)
      (parts : List ContentPart) (source : Option Text)
      → Yields env J Any (create_new command creator parts source)
  unfolding create_new
  create_new-keeps creates command creator parts source = Yields-read_then _ _ λ _.
      Yields-read_then _ _ λ dev_team. Yields-read_then _ _ λ channel. Yields-read_then _ _ λ _.
        Yields-read_then _ _ λ title. Yields-read_then _ _ λ group_name.
          Yields-read_then _ _ λ handler. Yields-read_then _ _ λ related.
            Yields-read_then _ _ λ created_at. Yields-read_then _ _ λ deadline.
              Yields-bind _ _ (number_of-keeps command.issue_number) λ number _.
                Yields-read_then _ _ λ _. Yields-read_then _ _ λ _. Yields-read_then _ _ λ _.
                  Yields-read_then _ _ λ _. Yields-read_then _ _ λ _. Yields-read_then _ _ λ _.
                    Yields-bind _ _ (next_bug_number-keeps env st created_at) λ bug _.
                      Yields-read_then _ _ λ _. Yields-bind _ _ Yields-drawn λ id (n, drawn).
                        Yields-bind _ _
                          (Yields-modify _ (λ db j.
                            st.add_case _ db (creates.created n _ drawn refl (λ e. cc) (λ e. cc))
                              j))
                          λ _ _.
                            Yields-bind _ _
                              (append_entry-keeps env st _ _
                                (creates.created n _ drawn refl (λ e. cc) (λ e. cc)))
                              λ r like. Yields-bind _ _ (add_parts-keeps env st r.1 parts) λ _ _.
                                Yields-bind _ _
                                  (create_formal_delivery-keeps env st r.0 r.1 _ like.0 st.to_dev)
                                  λ r' like'. Yields-done _

  create_once-keeps :
      (known : Option CommandResult) (create : Tx CommandResult)
      → Yields env J Any create
      → Yields env J Any (create_once known create)
  unfolding create_once
  create_once-keeps none create y = y
  create_once-keeps (some r) create y = Yields-done r

  pub create_case-keeps :
      (creates : Creates env C) (command : CreateCase) (actor : Actor)
      → Yields env J Any (create_case command actor)
  unfolding create_case
  create_case-keeps creates command actor = Yields-read_then _ _ λ creator.
      Yields-read_then _ _ λ existing. Yields-read_then _ _ λ known. create_once-keeps known _ (
        Yields-read_then _ _ λ parts. Yields-read_then _ _ λ source. Yields-read_then _ _ λ again.
          Yields-read_then _ _ λ known_again.
            create_once-keeps known_again _ (create_new-keeps creates command creator parts source))
