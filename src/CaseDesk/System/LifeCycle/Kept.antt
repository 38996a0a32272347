-- ===== src/CaseDesk/System/LifeCycle/Kept.antt =====
-- The writes of src/kefu/case_desk/service.py, seen by the abstract life cycle.
use message_router.Prelude.{
  ◌≡◌, refl, sym, subst, some, [], ◌∷◌, ◌==◌, nat_eq, All, All-append, All-update, Bool-cases, inl,
  inr, Text,
}
use message_router.Models.{Uuid, Case}
use message_router.Session.{Db}
use message_router.Session.Tx.Rules.{Any, All-Any}
use message_router.Numbering.{insert_if_absent, increment, is_none, sequence_of}
use message_router.CaseDesk.Common.{put_case}
use message_router.CaseDesk.Timeline.{add_entry, add_part}
use message_router.CaseDesk.Outgoing.{add_delivery, add_item}
use message_router.CaseDesk.Metadata.{cancel_jobs}
use message_router.CaseDesk.Messages.{add_job}
use message_router.CaseDesk.Creation.{add_case}
use message_router.CaseDesk.Outbox.{put_delivery, put_item}
use message_router.CaseDesk.Deferred.{put_items}
use message_router.CaseDesk.StatusJobs.{put_job}
use message_router.CaseDesk.Invariants.Stable.{Stable, SameState}
use message_router.CaseDesk.System.LifeCycle.{
  Event, View, Move, view, view_in, Written, update-Written, append-Written,
}

module _ (e : Event) (base : Db) where
  -- The issue comes from the base by a move, and the tables do.
  abbrev pub Moved : Case → Type 0
  Moved c = Move e (view c.id base) (some c.lifecycle_status)

  pub record AllMoved (db : Db) : Type 0 where
    pub cases : All Moved db.cases
    pub views : (id : Uuid) → Move e (view id base) (view id db)

  Written-Move :
      (id : Uuid) (c : Case) (v w : View)
      → Moved c
      → Move e (view id base) v
      → Written id c v w
      → Move e (view id base) w
  Written-Move id c v w m h (inl q) = rw q h
  Written-Move id c v w m h (inr (i, q)) =
      rw q (subst (λ x. Move e (view x base) (some c.lifecycle_status)) i m)

  put_case-AllMoved : (c : Case) (db : Db) → Moved c → AllMoved db → AllMoved (put_case c db)
  unfolding put_case
  put_case-AllMoved c db m h = record {
    cases = All-update Moved (λ x. x.id == c.id) (λ _. c) db.cases (λ x _ _. m) h.cases;
    views = λ id. Written-Move id c _ _ m (h.views id) (update-Written id c db.cases);
  }

  add_case-AllMoved : (c : Case) (db : Db) → Moved c → AllMoved db → AllMoved (add_case c db)
  unfolding add_case
  add_case-AllMoved c db m h = record {
    cases = All-append Moved db.cases (c ∷ []) h.cases (m, tt);
    views = λ id. Written-Move id c _ _ m (h.views id) (append-Written id c db.cases);
  }

  -- Statements that do not touch the issues.
  keep-AllMoved : (db db' : Db) → db'.cases ≡ db.cases → AllMoved db → AllMoved db'
  keep-AllMoved db db' q h = record {
    cases = rw q h.cases;
    views = λ id. subst (λ cs. Move e (view id base) (view_in id cs)) (sym q) (h.views id);
  }

  insert_if_absent-AllMoved :
      (key : Text) (db : Db) → AllMoved db → AllMoved (insert_if_absent key db)
  unfolding insert_if_absent
  insert_if_absent-AllMoved key db h = elim (Bool-cases (is_none (sequence_of key db))) [
    | inl t ↦ rw t (keep-AllMoved db _ refl h)
    | inr f ↦ rw f h
  ]

  same-Moved : (a b : Case) → SameState a b → Moved a → Moved b
  same-Moved a b s m =
      rw (s.lifecycle) (subst (λ x. Move e (view x base) (some a.lifecycle_status)) (sym s.id) m)

  pub AllMoved-Stable : Stable AllMoved Moved Any
  unfolding add_entry add_part add_delivery put_delivery add_item put_item put_items put_job add_job
      cancel_jobs increment
  AllMoved-Stable = record {
    put_case = put_case-AllMoved;
    add_case = add_case-AllMoved;
    add_entry = λ _ db h. keep-AllMoved db _ refl h;
    add_part = λ _ db h. keep-AllMoved db _ refl h;
    add_delivery = λ _ db _ h. keep-AllMoved db _ refl h;
    put_delivery = λ _ db _ h. keep-AllMoved db _ refl h;
    add_item = λ _ db h. keep-AllMoved db _ refl h;
    put_item = λ _ db h. keep-AllMoved db _ refl h;
    put_items = λ _ _ db h. keep-AllMoved db _ refl h;
    add_job = λ _ db h. keep-AllMoved db _ refl h;
    put_job = λ _ db h. keep-AllMoved db _ refl h;
    cancel_jobs = λ _ db h. keep-AllMoved db _ refl h;
    insert_if_absent = insert_if_absent-AllMoved;
    increment = λ _ db h. keep-AllMoved db _ refl h;
    all_cases = λ db h. h.cases;
    all_deliveries = λ db _. All-Any db.deliveries;
    same = same-Moved;
    moved = λ c _ m _ _. m;
    handed = λ c _ m _ _. m;
    nowhere = tt;
    to_consult = tt;
    to_dev = tt;
  }
