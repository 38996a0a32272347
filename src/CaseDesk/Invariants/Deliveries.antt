-- ===== src/CaseDesk/Invariants/Deliveries.antt =====
-- Creating a delivery keeps a stable invariant.
use message_router.Prelude.{Option, none, Text, is_empty}
use message_router.Models.{Case, CaseEntry, WaitingOn, DeliveryDestination}
use message_router.Session.{Db, Env}
use message_router.Session.Tx.Rules.{
  Yields, Yields-pure, Yields-done, Yields-uuid4, Yields-bind, Yields-read_then,
}
use message_router.Formatting.{build_notice_bundle}
use message_router.CaseDesk.Outgoing.{
  Target, Notice, to_send, ensure_bug_number, known_number, create_formal_delivery,
  create_notice_delivery,
}
use message_router.CaseDesk.Invariants.Stable.{Stable}
use message_router.CaseDesk.Invariants.Steps.{Like, number_case-keeps, create_delivery-keeps}

module _ {J : Db → Type 0} {C : Case → Type 0} {D : Option WaitingOn → Type 0} (env : Env)
    (st : Stable J C D) where
  ensure_bug_number-keeps : (c : Case) → C c → Yields env J (Like env st c) (ensure_bug_number c)
  unfolding ensure_bug_number
  ensure_bug_number-keeps c h = number_case-keeps env st (is_empty (known_number c.bug_number)) c h

  pub create_formal_delivery-keeps :
      (c : Case) (e : CaseEntry) (target : Target)
      → C c
      → D target.waiting_on_after_delivery
      → Yields env J (Like env st c) (create_formal_delivery c e target)
  unfolding create_formal_delivery
  create_formal_delivery-keeps c e target h d =
      Yields-bind _ _ (ensure_bug_number-keeps c h) λ r like. Yields-read_then _ _ λ items.
        Yields-bind _ _ (create_delivery-keeps env st e.id target items d)
          λ id _. Yields-pure _ like

  pub create_notice_delivery-keeps :
      (e : CaseEntry) (c : Case) (to : DeliveryDestination) (address : Text) (notice : Notice)
      → C c
      → Yields env J (Like env st c) (create_notice_delivery e c to address notice)
  unfolding create_notice_delivery build_notice_bundle
  create_notice_delivery-keeps e c to address notice h =
      Yields-bind _ _ (ensure_bug_number-keeps c h) λ r like. Yields-read_then _ _ λ url.
        Yields-bind _ _
          (Yields-read_then _ _ λ text.
            Yields-bind _ _ (Yields-bind _ _ Yields-uuid4 λ id _. Yields-done _)
              λ card _. Yields-done _)
          λ items _.
            Yields-bind _ _
              (create_delivery-keeps env st e.id (to_send to address none) items st.nowhere)
              λ id _. Yields-pure _ like
