-- ===== src/CaseDesk/Invariants/Steps.antt =====
-- The helpers of the case desk keep a stable invariant.
use message_router.Prelude.{
  ℕ, suc, ◌+◌, ◌≡◌, refl, Bool, true, false, Option, some, List, [], ◌∷◌, ◌==◌, nat_eq, Text,
  text_eq,
}
use message_router.Models.{Uuid, Moment, Case, CaseEntry, WaitingOn}
use message_router.Session.{Db, Env, ok, not_found}
use message_router.Session.Query.{>>=-eq-ok, gets-require-eq-ok}
use message_router.Session.Tx.{query}
use message_router.Session.Tx.Rules.{
  Yields, Any, Yields-pure, Yields-uuid4, Yields-modify, Yields-query, Yields-read, Yields-bind,
}
use message_router.Numbering.{next_sequence, next_bug_number}
use message_router.Formatting.{RenderedDeliveryItem}
use message_router.CaseDesk.Commands.{ContentPart}
use message_router.CaseDesk.Common.{load_case, case_by_id, save_case, put_case}
use message_router.Markers.{normalize_case_ref}
use message_router.CaseDesk.Timeline.{NewEntry, append_entry, add_parts, add_parts_from}
use message_router.CaseDesk.Outgoing.{Target, create_delivery, add_items, number_case}
use message_router.CaseDesk.Invariants.Stable.{of_case, Stable, SameState}

module _ {J : Db → Type 0} {C : Case → Type 0} {D : Option WaitingOn → Type 0} (env : Env)
    (st : Stable J C D) where
  pub load_case-yields :
      (ref : Text) (db : Db) {c : Case} → J db → load_case ref env db ≡ ok c → C c
  unfolding load_case
  load_case-yields ref db j h =
      let (n, _, h') = >>=-eq-ok (normalize_case_ref ref) _ env db h in
      of_case st (λ x. x.case_ref == n) db j (gets-require-eq-ok _ not_found env db h')

  pub load_case-keeps : (ref : Text) → Yields env J C (query (load_case ref))
  load_case-keeps ref = Yields-query C (load_case ref) (λ db c j h. load_case-yields ref db j h)

  pub case_by_id-keeps : (id : Uuid) → Yields env J C (query (case_by_id id))
  unfolding case_by_id
  case_by_id-keeps id =
      Yields-query C (case_by_id id)
        λ db c j h. of_case st (λ x. x.id == id) db j (gets-require-eq-ok _ not_found env db h)

  pub save_case-keeps : (c : Case) → C c → Yields env J Any (save_case c)
  unfolding save_case
  save_case-keeps c h = Yields-modify (put_case c) (λ db j. st.put_case c db h j)

  -- The new issue differs in its sequence alone.
  pub append_entry-keeps :
      (c : Case) (new : NewEntry)
      → C c
      → Yields env J (λ (r : Case × CaseEntry). C r.0 × SameState c r.0) (append_entry c new)
  unfolding append_entry
  append_entry-keeps c new h =
      let c' = record c { last_entry_sequence = c.last_entry_sequence + 1 } in
      let eq : SameState c c' = record {
        id = refl;
        lifecycle = refl;
        status = refl;
        waiting = refl;
      } in
      let h' : C c' = st.same c c' eq h in
      Yields-bind _ _ (Yields-read _) λ name _. Yields-bind _ _ Yields-uuid4 λ id _.
        Yields-bind _ _ (save_case-keeps c' h') λ _ _.
          Yields-bind _ _ (Yields-modify _ (λ db j. st.add_entry _ db j))
            λ _ _. Yields-pure _ (h', eq)

  add_parts_from-keeps :
      (id : Uuid) (position : ℕ) (parts : List ContentPart)
      → Yields env J Any (add_parts_from id position parts)
  unfolding add_parts_from
  add_parts_from-keeps id position [] = Yields-pure tt tt
  add_parts_from-keeps id position (part ∷ rest) = Yields-bind _ _ Yields-uuid4 λ x _.
      Yields-bind _ _ (Yields-modify _ (λ db j. st.add_part _ db j))
        λ _ _. add_parts_from-keeps id (suc position) rest

  pub add_parts-keeps :
      (e : CaseEntry) (parts : List ContentPart) → Yields env J Any (add_parts e parts)
  unfolding add_parts
  add_parts-keeps e parts = add_parts_from-keeps e.id 0 parts

  add_items-keeps :
      (id : Uuid) (target : Target) (position : ℕ) (items : List RenderedDeliveryItem)
      → Yields env J Any (add_items id target position items)
  unfolding add_items
  add_items-keeps id target position [] = Yields-pure tt tt
  add_items-keeps id target position (item ∷ rest) = Yields-bind _ _ Yields-uuid4 λ x _.
      Yields-bind _ _ Yields-uuid4 λ y _.
        Yields-bind _ _ (Yields-modify _ (λ db j. st.add_item _ db j))
          λ _ _. add_items-keeps id target (suc position) rest

  pub create_delivery-keeps :
      (id : Uuid) (target : Target) (items : List RenderedDeliveryItem)
      → D target.waiting_on_after_delivery
      → Yields env J Any (create_delivery id target items)
  unfolding create_delivery
  create_delivery-keeps id target items d = Yields-bind _ _ (Yields-read _) λ _ _.
      Yields-bind _ _ Yields-uuid4 λ new _. Yields-bind _ _ (Yields-read _) λ now _.
        Yields-bind _ _ (Yields-modify _ (λ db j. st.add_delivery _ db d j))
          λ _ _. Yields-bind _ _ (add_items-keeps new target 0 items) λ _ _. Yields-pure new tt

  pub next_bug_number-keeps : (t : Moment) → Yields env J Any (next_bug_number t)
  unfolding next_bug_number next_sequence
  next_bug_number-keeps t = Yields-bind _ _ (Yields-read _) λ local _.
      Yields-bind _ _
        (Yields-bind _ _ (Yields-modify _ (st.insert_if_absent local.date_key)) λ _ _.
          Yields-bind _ _ (Yields-modify _ (st.increment local.date_key)) λ _ _.
            Yields-bind _ _ (Yields-read _)
              λ found _. Yields-bind _ _ (Yields-read _) λ row _. Yields-pure _ tt)
        λ n _. Yields-pure _ tt

  -- The issue that comes back, with something else beside it, is the given one but for the columns
  -- that no invariant looks at.
  abbrev pub Like {ℓ} : {A : Type ℓ} → Case → Case × A → Type 0
  Like c r = C r.0 × SameState c r.0

  pub number_case-keeps : (b : Bool) (c : Case) → C c → Yields env J (Like c) (number_case b c)
  unfolding number_case
  number_case-keeps false c h =
      Yields-pure _ (h, record { id = refl; lifecycle = refl; status = refl; waiting = refl })
  number_case-keeps true c h = Yields-bind _ _ (next_bug_number-keeps c.created_at) λ number _.
      let c' = record c { bug_number = some number } in
      let eq : SameState c c' = record {
        id = refl;
        lifecycle = refl;
        status = refl;
        waiting = refl;
      } in
      let h' : C c' = st.same c c' eq h in
      Yields-bind _ _ (save_case-keeps c' h') λ _ _. Yields-pure _ (h', eq)
