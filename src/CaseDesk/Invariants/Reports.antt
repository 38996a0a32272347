-- ===== src/CaseDesk/Invariants/Reports.antt =====
-- The reports of the worker keep a stable invariant.
use message_router.Prelude.{
  ◌≡◌, refl, subst, Bool, true, false, Option, none, some, Text, any, arith, ◌==◌, nat_eq,
}
use message_router.Models.{
  Uuid, Case, CaseEntry, Delivery, DeliveryItem, DeliveryItemStatus, delivery_item_status_eq,
  delivery_status_eq, LifecycleStatus, lifecycle_status_eq, WaitingOn, PlatformResult,
}
use message_router.Session.{Db, Env, ok, ok-injective, not_found}
use message_router.Session.Query
use message_router.Session.Query.{gets, require, >>=-eq-ok, gets-require-eq-ok}
use message_router.Session.Tx.{query}
use message_router.Session.Tx.Rules.{
  Yields, Any, Yields-done, Yields-bind, Yields-read_then, Yields-query, Yields-modify,
}
use message_router.CaseDesk.Outbox.{
  Context, delivery_by_id, entry_of, case_of, delivery_context, delivery_transition, transition,
  is_later_handoff, apply_transition, waiting_case, finish_bundle, succeed_item,
  delivery_item_succeeded, fail_item, failed_attempt, delivery_item_failed,
}
use message_router.CaseDesk.Invariants.Stable.{of_case, of_delivery, Stable, SameState}
use message_router.CaseDesk.Invariants.Steps.{save_case-keeps}

-- A delivery hands an issue over only while the issue is open, and to the side that it carries.
transition-eq-some :
    (c : Case) (superseded : Bool) (w : Option WaitingOn) {side : WaitingOn}
    → transition (c.lifecycle_status == LifecycleStatus.opened) superseded w ≡ some side
    → (c.lifecycle_status ≡ LifecycleStatus.opened) × (w ≡ some side)
transition-eq-some c superseded none h = absurd (cc)
transition-eq-some c superseded (some w) h = ground arith

module _ {J : Db → Type 0} {C : Case → Type 0} {D : Option WaitingOn → Type 0} (env : Env)
    (st : Stable J C D) where
  abbrev pub Known : Context → Type 0
  Known ctx = C ctx.case × D ctx.delivery.waiting_on_after_delivery

  case_of-yields :
      (entry : CaseEntry) (db : Db) {c : Case} → J db → case_of entry env db ≡ ok c → C c
  unfolding case_of
  case_of-yields entry db j h =
      of_case st (λ x. x.id == entry.case_id) db j (gets-require-eq-ok _ not_found env db h)

  delivery_by_id-yields :
      (id : Uuid) (db : Db) {d : Delivery}
      → J db
      → delivery_by_id id env db ≡ ok d
      → D d.waiting_on_after_delivery
  unfolding delivery_by_id
  delivery_by_id-yields id db j h =
      of_delivery st (λ x. x.id == id) db j (gets-require-eq-ok _ not_found env db h)

  delivery_context-keeps : (id : Uuid) → Yields env J Known (query (delivery_context id))
  unfolding delivery_context Query.pure
  delivery_context-keeps id = Yields-query Known (delivery_context id) λ db ctx j h.
      let (delivery, h₁, h₂) = >>=-eq-ok (delivery_by_id id) _ env db h in
      let (entry, _, h₃) = >>=-eq-ok (entry_of delivery) _ env db h₂ in
      let (case, h₄, h₅) = >>=-eq-ok (case_of entry) _ env db h₃ in
      subst Known (ok-injective h₅) (case_of-yields entry db j h₄, delivery_by_id-yields id db j h₁)

  abbrev pub Open : Case → Option WaitingOn → Type 0
  Open c none = Unit
  Open c (some side) = (c.lifecycle_status ≡ LifecycleStatus.opened) × D (some side)

  pub delivery_transition-keeps :
      (c : Case) (e : CaseEntry) (d : Delivery)
      → D d.waiting_on_after_delivery
      → Yields env J (Open c) (query (delivery_transition c e d))
  unfolding delivery_transition Query.pure
  delivery_transition-keeps c e d known =
      Yields-query (Open c) (delivery_transition c e d) λ db w j h.
        let (superseded, _, h') =
          >>=-eq-ok (gets (λ env db. any (is_later_handoff c e) db.entries)) _ env db h in
        step superseded w (ok-injective h')
    where
      step :
          (superseded : Bool) (w : Option WaitingOn)
          → transition
              (c.lifecycle_status == LifecycleStatus.opened)
              superseded
              d.waiting_on_after_delivery
            ≡ w
          → Open c w
      step superseded none h = tt
      step superseded (some side) h =
          let (is_opened, eq) = transition-eq-some c superseded d.waiting_on_after_delivery h in
          (is_opened, subst D eq known)

  pub apply_transition-keeps :
      (w : Option WaitingOn) (c : Case) → C c → Open c w → Yields env J Any (apply_transition w c)
  unfolding apply_transition
  apply_transition-keeps none c h o = Yields-done c
  apply_transition-keeps (some side) c h o =
      let handed = record c { waiting_on = side } in
      let eq : SameState handed (waiting_case c side) = record {
        id = refl;
        lifecycle = refl;
        status = refl;
        waiting = refl;
      } in
      Yields-bind _ _
        (save_case-keeps env st (waiting_case c side)
          (st.same handed (waiting_case c side) eq (st.handed c side h o.0 o.1)))
        λ _ _. Yields-done _

  finish_bundle-keeps :
      (b : Bool) (ctx : Context) → Known ctx → Yields env J Any (finish_bundle b ctx)
  unfolding finish_bundle
  finish_bundle-keeps true ctx k = Yields-done _
  finish_bundle-keeps false ctx k =
      Yields-bind _ _ (Yields-modify _ (λ db j. st.put_delivery _ db k.1 j)) λ _ _.
        Yields-bind _ _ (delivery_transition-keeps ctx.case ctx.entry ctx.delivery k.1)
          λ w o. Yields-bind _ _ (apply_transition-keeps w ctx.case k.0 o) λ c _. Yields-done _

  succeed_item-keeps :
      (b : Bool) (ctx : Context) (item : DeliveryItem) (outcome : PlatformResult)
      → Known ctx
      → Yields env J Any (succeed_item b ctx item outcome)
  unfolding succeed_item
  succeed_item-keeps true ctx item outcome k = Yields-done _
  succeed_item-keeps false ctx item outcome k = Yields-read_then _ _ λ _.
      Yields-bind _ _ (Yields-modify _ (λ db j. st.put_item _ db j))
        λ _ _. Yields-read_then _ _ λ remaining. finish_bundle-keeps remaining ctx k

  pub delivery_item_succeeded-keeps :
      (delivery item token : Uuid) (outcome : PlatformResult)
      → Yields env J Any (delivery_item_succeeded delivery item token outcome)
  unfolding delivery_item_succeeded
  delivery_item_succeeded-keeps delivery item token outcome =
      Yields-bind _ _ (delivery_context-keeps delivery) λ ctx k. Yields-read_then _ _ λ _.
        Yields-read_then _ _
          λ i. succeed_item-keeps (i.status == DeliveryItemStatus.sent) ctx i outcome k

  fail_item-keeps :
      (b : Bool) (ctx : Context) (item : DeliveryItem) (error : Text)
      → Known ctx
      → Yields env J Any (fail_item b ctx item error)
  unfolding fail_item failed_attempt
  fail_item-keeps true ctx item error k = Yields-done _
  fail_item-keeps false ctx item error k = Yields-read_then _ _ λ now.
      Yields-bind _ _ (Yields-modify _ (λ db j. st.put_delivery _ db k.1 j))
        λ _ _. Yields-bind _ _ (Yields-modify _ (λ db j. st.put_item _ db j)) λ _ _. Yields-done _

  pub delivery_item_failed-keeps :
      (delivery item token : Uuid) (error : Text)
      → Yields env J Any (delivery_item_failed delivery item token error)
  unfolding delivery_item_failed
  delivery_item_failed-keeps delivery item token error =
      Yields-bind _ _ (delivery_context-keeps delivery)
        λ ctx k. Yields-read_then _ _ λ _. Yields-read_then _ _ λ i. fail_item-keeps _ ctx i error k
