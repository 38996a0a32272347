-- ===== src/CaseDesk/Leasing/Exclusive.antt =====
-- Two claims of src/kefu/case_desk/service.py do not lease the same delivery at the same time.
use message_router.Prelude.{
  ℕ, ◌+◌, ◌≤◌, ◌≡◌, ◌≢◌, refl, true, false, some, List, [], ◌∷◌, ◌==◌, nat_eq, ltb, update, take,
  All, All-update, Bool-cases, ◌⊎◌, inl, inr, arith, sym, subst,
}
use message_router.Models.{Uuid, Moment, Delivery}
use message_router.Session.{Db, Env, ok, ok-injective}
use message_router.Session.Query.{gets}
use message_router.Session.Tx.{Session, query, pure, ◌>>=◌, >>=-eq-ok, query_then-eq-ok}
use message_router.CaseDesk.Outbox.{Context, put_delivery}
use message_router.CaseDesk.Leasing.Rows.{All-take, Row, All-due_rows}
use message_router.CaseDesk.Leasing.{
  DeliveryWork, is_due, due_rows, leased_until, claim_row, claim_rows, claim_pending_deliveries,
}

-- The rows of a delivery are leased until a moment.
abbrev pub LeasedUntil : Moment → Uuid → Delivery → Type 0
LeasedUntil until id d = (d.id ≢ id) ⊎ (d.locked_until ≡ some until)

abbrev pub AllLeased : Moment → Db → Uuid → Type 0
AllLeased until db id = All (LeasedUntil until id) db.deliveries

put-AllLeased :
    (until : Moment) (token id : Uuid) (d : Delivery) (db : Db)
    → AllLeased until db id
    → AllLeased until (put_delivery (leased_until until token d) db) id
unfolding put_delivery
put-AllLeased until token id d db h =
    All-update (LeasedUntil until id) (λ x. x.id == d.id) (λ _. leased_until until token d)
      db.deliveries (λ x _ _. inr refl) h

put-own_rows :
    (until : Moment) (token : Uuid) (d : Delivery) (ds : List Delivery)
    → All (LeasedUntil until d.id) (update (λ x. x.id == d.id) (λ _. leased_until until token d) ds)
unfolding update
put-own_rows until token d [] = tt
put-own_rows until token d (x ∷ xs) = elim (Bool-cases (x.id == d.id)) [
  | inl t ↦ rw t (inr refl, put-own_rows until token d xs)
  | inr n ↦ rw n (inl (λ e. ground arith), put-own_rows until token d xs)
]

-- What a claim of some rows leaves behind: what was leased stays leased, and what it returns is leased.
record Claimed (until : Moment) (rows : List Context) (db db' : Db) (ws : List DeliveryWork)
    : Type 1 where
  keeps : (id : Uuid) → AllLeased until db id → AllLeased until db' id
  leases : All (λ w. AllLeased until db' w.id) ws
  stems : (S : Uuid → Type 0) → All (λ r. S r.delivery.id) rows → All (λ w. S w.id) ws

Claimed-cons :
    (until : Moment) (token : Uuid) (row : Context) (rows : List Context) (db db' : Db)
    (w : DeliveryWork) (ws : List DeliveryWork)
    → w.id ≡ row.delivery.id
    → Claimed until rows (put_delivery (leased_until until token row.delivery) db) db' ws
    → Claimed until (row ∷ rows) db db' (w ∷ ws)
unfolding put_delivery
Claimed-cons until token row rows db db' w ws e later = record {
  keeps = λ id h. later.keeps id (put-AllLeased until token id row.delivery db h);
  leases = (
    subst (AllLeased until db') (sym e)
        (later.keeps row.delivery.id (put-own_rows until token row.delivery db.deliveries)),
    later.leases,
  );
  stems = λ S h. (subst S (sym e) h.0, later.stems S h.1);
}

claim_rows-Claimed :
    (until : Moment) (rows : List Context) (env : Env) (s s' : Session) (ws : List DeliveryWork)
    → claim_rows until rows env s ≡ ok (ws, s')
    → Claimed until rows s.db s'.db ws
unfolding claim_rows claim_row ◌>>=◌ gets
claim_rows-Claimed until [] env s s' ws h =
    subst (λ (p : List DeliveryWork × Session). Claimed until [] s.db p.1.db p.0) (ok-injective h)
      (record { keeps = λ id h. h; leases = tt; stems = λ S h. tt })
claim_rows-Claimed until (row ∷ rows) env s s' ws h =
    let (w, t, e₁, h₁) =
      >>=-eq-ok (claim_row until row) (λ work. claim_rows until rows >>= λ rest. pure (work ∷ rest))
        env s h in
    let (ws', t', e₂, h₂) = >>=-eq-ok (claim_rows until rows) (λ rest. pure (w ∷ rest)) env t h₁ in
    let later = claim_rows-Claimed until rows env t t' ws' e₂ in
    let first_claimed =
      subst
        (λ (p : DeliveryWork × Session).
          Claimed until rows p.1.db t'.db ws' → Claimed until (row ∷ rows) s.db t'.db (p.0 ∷ ws'))
        (ok-injective e₁)
        (λ c. Claimed-cons until (env.uuid s.drawn) row rows s.db t'.db _ ws' refl c) later in
    let q : Path (List DeliveryWork × Session) (w ∷ ws', t') (ws, s') = ok-injective h₂ in
    subst (λ (p : List DeliveryWork × Session). Claimed until (row ∷ rows) s.db p.1.db p.0) q
      first_claimed

not_due :
    (until now : Moment) (d : Delivery)
    → now ≤ until
    → d.locked_until ≡ some until
    → is_due now d ≢ true
unfolding is_due
not_due until now d le e due =
    let held : ltb until now ≡ false = ground arith in let k = rw e at due in ground arith

-- A delivery that is leased past a moment is not due then.
due_other :
    (until now : Moment) (id : Uuid) (d : Delivery)
    → now ≤ until
    → LeasedUntil until id d × (is_due now d ≡ true)
    → d.id ≢ id
due_other until now id d le (l, due) = elim l [
  | inl other ↦ other
  | inr e ↦ absurd (not_due until now d le e due)
]

claim_rest-Claimed :
    (limit : ℕ) (lease : Moment) (env : Env) (s s' : Session) (ws : List DeliveryWork)
    → (query (gets (λ env db. env.now)) >>= λ now.
          query (gets (λ env db. due_rows now db)) >>= λ rows.
          claim_rows (now + lease) (take limit rows))
        env s
      ≡ ok (ws, s')
    → Claimed (env.now + lease) (take limit (due_rows env.now s.db)) s.db s'.db ws
unfolding ◌>>=◌ gets
claim_rest-Claimed limit lease env s s' ws h =
    claim_rows-Claimed (env.now + lease) (take limit (due_rows env.now s.db)) env s s' ws h

claim-Claimed :
    (limit : ℕ) (lease : Moment) (env : Env) (s s' : Session) (ws : List DeliveryWork)
    → claim_pending_deliveries limit lease env s ≡ ok (ws, s')
    → Claimed (env.now + lease) (take limit (due_rows env.now s.db)) s.db s'.db ws
unfolding claim_pending_deliveries
claim-Claimed limit lease env s s' ws h =
    let (_, _, h₁) = query_then-eq-ok _ _ env s h in claim_rest-Claimed limit lease env s s' ws h₁

All-map {ℓ} :
    {A : Type ℓ} (P Q : A → Type 0) (xs : List A) → ((x : A) → P x → Q x) → All P xs → All Q xs
All-map P Q [] f h = tt
All-map P Q (x ∷ xs) f h = (f x h.0, All-map P Q xs f h.1)

-- When a claim has returned and, before its lease ends, another claim is made of the tables that it
-- left, by any worker and with any limit and lease of its own, then no delivery is in both.
pub claim_pending_deliveries-exclusive :
    (limit limit' : ℕ) (lease lease' : Moment) (env env' : Env) (s s' s'' : Session)
    (ws ws' : List DeliveryWork)
    → claim_pending_deliveries limit lease env s ≡ ok (ws, s')
    → claim_pending_deliveries limit' lease' env' s' ≡ ok (ws', s'')
    → env'.now ≤ env.now + lease
    → All (λ (w : DeliveryWork). All (λ (w' : DeliveryWork). w'.id ≢ w.id) ws') ws
claim_pending_deliveries-exclusive limit limit' lease lease' env env' s s' s'' ws ws' h h' le =
    let until = env.now + lease in
    let done = claim-Claimed limit lease env s s' ws h in
    let again = claim-Claimed limit' lease' env' s' s'' ws' h' in
    All-map (λ w. AllLeased until s'.db w.id) (λ w. All (λ w'. w'.id ≢ w.id) ws') ws
      (λ w leased.
        let rows = All-due_rows (LeasedUntil until w.id) env'.now s'.db leased in
        let others =
          All-map (Row (λ d. LeasedUntil until w.id d × (is_due env'.now d ≡ true)))
            (Row (λ d. d.id ≢ w.id)) (due_rows env'.now s'.db)
            (λ r p. due_other until env'.now w.id r.delivery le p) rows in
        again.stems (λ id. id ≢ w.id)
          (All-take (Row (λ d. d.id ≢ w.id)) limit' (due_rows env'.now s'.db) others))
      done.leases
