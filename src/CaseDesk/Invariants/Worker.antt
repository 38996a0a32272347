-- ===== src/CaseDesk/Invariants/Worker.antt =====
-- What the worker does (claims, passive replies, status evaluations) keeps a stable invariant.
use message_router.Prelude.{
  ℕ, ◌≡◌, refl, subst, Bool, true, false, Option, none, some, List, [], ◌∷◌, ◌==◌, nat_eq, first,
  select, All, All-select, All-first,
}
use message_router.Models.{Uuid, Moment, Case, CaseEntry, lifecycle_status_eq, WaitingOn, Delivery}
use message_router.Session.{Db, Env, ok-injective}
use message_router.Session.Query.{gets}
use message_router.Session.Tx.{query}
use message_router.Session.Tx.Rules.{
  Yields, Any, Yields-done, Yields-bind, Yields-read_then, Yields-query, Yields-modify,
  Yields-uuid4,
}
use message_router.CaseDesk.Outbox.{Context}
use message_router.CaseDesk.Leasing.{
  join_case, join_entry, joined, due_rows, is_earlier, is_due, claim_row, claim_rows,
  claim_pending_deliveries,
}
use message_router.CaseDesk.Leasing.Rows.{All-take, All-sort_by}
use message_router.CaseDesk.Deferred.{
  is_among, restore_deferred_delivery, restore_if, restore_each, restore_deferred_deliveries,
  recover_deferred_deliveries, found_or, current_case, complete_deferred_delivery, complete_if,
  complete_each, complete_deferred_deliveries,
}
use message_router.CaseDesk.Invariants.Stable.{Stable}
use message_router.CaseDesk.Invariants.Reports.{
  Known, delivery_transition-keeps, apply_transition-keeps,
}

module _ {J : Db → Type 0} {C : Case → Type 0} {D : Option WaitingOn → Type 0} (env : Env)
    (st : Stable J C D) where
  abbrev Carries : Delivery → Type 0
  Carries d = D d.waiting_on_after_delivery

  case-Known :
      (db : Db) (d : Delivery) (e : CaseEntry) (c : Option Case) (rest : List Context)
      → All C db.cases
      → Carries d
      → first (λ x. x.id == e.case_id) db.cases ≡ c
      → All (Known env st) rest
      → All (Known env st) (join_case d e c rest)
  case-Known db d e none rest h k q r = r
  case-Known db d e (some c) rest h k q r =
      ((All-first C (λ x. x.id == e.case_id) db.cases h q, k), r)

  entry-Known :
      (db : Db) (d : Delivery) (e : Option CaseEntry) (rest : List Context)
      → All C db.cases
      → Carries d
      → All (Known env st) rest
      → All (Known env st) (join_entry db d e rest)
  entry-Known db d none rest h k r = r
  entry-Known db d (some e) rest h k r =
      case-Known db d e (first (λ x. x.id == e.case_id) db.cases) rest h k refl r

  joined-Known :
      (db : Db) (ds : List Delivery)
      → All C db.cases
      → All Carries ds
      → All (Known env st) (joined db ds)
  unfolding joined
  joined-Known db [] h k = tt
  joined-Known db (d ∷ ds) h (k, ks) =
      entry-Known db d (first (λ e. e.id == d.entry_id) db.entries) (joined db ds) h k
        (joined-Known db ds h ks)

  claim_rows-keeps :
      (until : Moment) (rows : List Context)
      → All (Known env st) rows
      → Yields env J Any (claim_rows until rows)
  unfolding claim_rows claim_row
  claim_rows-keeps until [] h = Yields-done _
  claim_rows-keeps until (row ∷ rows) (k, ks) =
      Yields-bind _ _
        (Yields-bind _ _ Yields-uuid4 λ token _.
          Yields-bind _ _ (Yields-modify _ (λ db j. st.put_delivery _ db k.1 j))
            λ _ _. Yields-read_then _ _ λ items. Yields-done _)
        λ work _. Yields-bind _ _ (claim_rows-keeps until rows ks) λ rest _. Yields-done _

  pub claim_pending_deliveries-keeps :
      (limit : ℕ) (lease : Moment) → Yields env J Any (claim_pending_deliveries limit lease)
  unfolding claim_pending_deliveries due_rows gets
  claim_pending_deliveries-keeps limit lease = Yields-read_then _ _ λ _. Yields-read_then _ _ λ now.
      Yields-bind _ _
        (Yields-query (All (Known env st)) (gets (λ env db. due_rows now db)) λ db rows j e.
          subst (All (Known env st)) (ok-injective e) (
            All-sort_by (Known env st) is_earlier _ (
              joined-Known db (select (is_due now) db.deliveries) (st.all_cases db j)
                (All-select Carries (is_due now) db.deliveries (st.all_deliveries db j)))))
        λ rows known. claim_rows-keeps _ _ (All-take (Known env st) limit rows known)

  restore_each-keeps : (ds : List Delivery) → All Carries ds → Yields env J Any (restore_each ds)
  unfolding restore_each restore_if restore_deferred_delivery
  restore_each-keeps [] h = Yields-done _
  restore_each-keeps (d ∷ ds) (k, ks) = Yields-read_then _ _ λ items.
      Yields-bind _ _ (step _)
        λ n _. Yields-bind _ _ (restore_each-keeps ds ks) λ m _. Yields-done _
    where
      step : (b : Bool) → Yields env J Any (restore_if b d)
      step false = Yields-done _
      step true = Yields-read_then _ _ λ now.
          Yields-bind _ _ (Yields-modify _ (λ db j. st.put_delivery _ db k j)) λ _ _.
            Yields-bind _ _ (Yields-modify _ (λ db j. st.put_items _ _ db j)) λ _ _. Yields-done _

  selected-keeps :
      (p : Delivery → Bool)
      → Yields env J (All Carries) (query (gets (λ env db. select p db.deliveries)))
  unfolding gets
  selected-keeps p = Yields-query (All Carries) _ λ db rows j e.
      subst (All Carries) (ok-injective e)
        (All-select Carries p db.deliveries (st.all_deliveries db j))

  pub restore_deferred_deliveries-keeps :
      (ids : List Uuid) → Yields env J Any (restore_deferred_deliveries ids)
  unfolding restore_deferred_deliveries
  restore_deferred_deliveries-keeps [] = Yields-done _
  restore_deferred_deliveries-keeps (id ∷ ids) =
      Yields-bind _ _ (selected-keeps (is_among (id ∷ ids))) λ rows h. restore_each-keeps rows h

  pub recover_deferred_deliveries-keeps : Yields env J Any recover_deferred_deliveries
  unfolding recover_deferred_deliveries
  recover_deferred_deliveries-keeps =
      Yields-bind _ _ (selected-keeps _) λ rows h. restore_each-keeps rows h

  current_case-keeps : (c : Case) → C c → Yields env J C (query (current_case c))
  unfolding current_case gets
  current_case-keeps c h = Yields-query C (current_case c) λ db found j e.
      subst C (ok-injective e)
        (known db (st.all_cases db j) (first (λ x. x.id == c.id) db.cases) refl)
    where
      known :
          (db : Db)
          → All C db.cases
          → (o : Option Case) → first (λ x. x.id == c.id) db.cases ≡ o
          → C (found_or c o)
      known db hs none q = h
      known db hs (some x) q = All-first C (λ x. x.id == c.id) db.cases hs q

  complete_each-keeps :
      (rows : List Context) → All (Known env st) rows → Yields env J Any (complete_each rows)
  unfolding complete_each complete_if complete_deferred_delivery
  complete_each-keeps [] h = Yields-done _
  complete_each-keeps (row ∷ rows) (k, ks) = Yields-read_then _ _ λ items.
      Yields-bind _ _ (step _)
        λ n _. Yields-bind _ _ (complete_each-keeps rows ks) λ m _. Yields-done _
    where
      step : (b : Bool) → Yields env J Any (complete_if b row)
      step false = Yields-done _
      step true = Yields-bind _ _ (Yields-modify _ (λ db j. st.put_items _ _ db j)) λ _ _.
          Yields-bind _ _ (Yields-modify _ (λ db j. st.put_delivery _ db k.1 j)) λ _ _.
            Yields-bind _ _ (current_case-keeps row.case k.0) λ c h.
              Yields-bind _ _ (delivery_transition-keeps env st c row.entry row.delivery k.1)
                λ w o. Yields-bind _ _ (apply_transition-keeps env st w c h o) λ _ _. Yields-done _

  pub complete_deferred_deliveries-keeps :
      (ids : List Uuid) → Yields env J Any (complete_deferred_deliveries ids)
  unfolding complete_deferred_deliveries gets
  complete_deferred_deliveries-keeps [] = Yields-done _
  complete_deferred_deliveries-keeps (id ∷ ids) =
      Yields-bind _ _
        (Yields-query (All (Known env st)) _ λ db rows j e.
          subst (All (Known env st)) (ok-injective e) (
            joined-Known db (select (is_among (id ∷ ids)) db.deliveries) (st.all_cases db j)
              (All-select Carries (is_among (id ∷ ids)) db.deliveries (st.all_deliveries db j))))
        λ rows h. complete_each-keeps rows h
