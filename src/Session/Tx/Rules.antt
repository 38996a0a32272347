-- ===== src/Session/Tx/Rules.antt =====
-- Invariants of transactions, by one rule for each way to build a transaction.
use message_router.Prelude.{
  List, [], ◌∷◌, All, ℕ, suc, ◌≡◌, refl, subst, Bool, true, false, if◌then◌else◌,
}
use message_router.Models.{Uuid}
use message_router.Session.Errors.{Error, Result, ok, err}
use message_router.Session.Tables.{Db, Env}
use message_router.Session.Query.{Query, ensure}
use message_router.Session.Tx.{
  Session, Tx, with_session, resume, pure, query, modify, uuid4, draw, ◌>>=◌, transact, commit,
}

-- When `m` returns from tables with `I`, its value has `F` and the tables still have `I`.
pub record Yields {ℓ} {A : Type ℓ} (env : Env) (I : Db → Type 0) (F : A → Type 0) (m : Tx A)
    : Type ℓ where
  pub run : (s : Session) {a : A} {s' : Session} → I s.db → m env s ≡ ok (a, s') → F a × I s'.db

abbrev pub Any {ℓ} : {A : Type ℓ} → A → Type 0
Any a = Unit

pub All-Any {ℓ} : {A : Type ℓ} (xs : List A) → All Any xs
All-Any [] = tt
All-Any (x ∷ xs) = (tt, All-Any xs)

module _ {ℓ} {A : Type ℓ} {env : Env} {I : Db → Type 0} where
  pub Yields-pure : {F : A → Type 0} (a : A) → F a → Yields env I F (pure a)
  unfolding ◌>>=◌
  Yields-pure {F} a f = record {
    run = λ s i e. (subst F (fst_of e) f, subst (λ (t : Session). I t.db) (snd_of e) i);
  }
    where
      fst_of :
          {s s' : Session} {x : A} → Path (Result (A × Session)) (ok (a, s)) (ok (x, s')) → a ≡ x
      fst_of e = cc

      snd_of :
          {s s' : Session} {x : A} → Path (Result (A × Session)) (ok (a, s)) (ok (x, s')) → s ≡ s'
      snd_of e = cc

  pub Yields-done : (a : A) → Yields env I Any (pure a)
  Yields-done a = Yields-pure a tt

  -- A statement that reads keeps every invariant; what it returned is what it read.
  pub Yields-query :
      (F : A → Type 0) (q : Query A)
      → ((db : Db) (a : A) → I db → q env db ≡ ok a → F a)
      → Yields env I F (query q)
  unfolding ◌>>=◌
  Yields-query F q h = record { run = λ s i e. split s i (q env s.db) refl e }
    where
      split :
          (s : Session)
          → I s.db
          → (r : Result A) → q env s.db ≡ r
          → {a : A} {s' : Session} → with_session r s ≡ ok (a, s')
          → F a × I s'.db
      split s i (ok b) e {a} {s'} k =
          let p : b ≡ a = cc in
          let q' : s ≡ s' = cc in (subst F p (h s.db b i e), subst (λ (t : Session). I t.db) q' i)
      split s i (err x) e k = absurd (cc)

  pub Yields-read : (q : Query A) → Yields env I Any (query q)
  Yields-read q = Yields-query Any q (λ s a i e. tt)

  pub Yields-weaken : {F : A → Type 0} {m : Tx A} → Yields env I F m → Yields env I Any m
  Yields-weaken y = record { run = λ s i e. (tt, (y.run s i e).1) }

  pub Yields-if :
      {F : A → Type 0} (b : Bool) {m n : Tx A}
      → (b ≡ true → Yields env I F m)
      → (b ≡ false → Yields env I F n)
      → Yields env I F (if b then m else n)
  Yields-if true ym yn = ym refl
  Yields-if false ym yn = yn refl

module _ {env : Env} {I : Db → Type 0} where
  pub Yields-ensure : (b : Bool) (e : Error) → Yields env I (λ _. b ≡ true) (query (ensure b e))
  unfolding ensure
  Yields-ensure b e = Yields-query (λ _. b ≡ true) (ensure b e) (λ db a i h. holds b db h)
    where
      holds : (b : Bool) (db : Db) {a : Unit {0}} → ensure b e env db ≡ ok a → b ≡ true
      holds true db h = refl
      holds false db h = absurd (cc)

  pub Yields-modify : (f : Db → Db) → ((db : Db) → I db → I (f db)) → Yields env I Any (modify f)
  unfolding ◌>>=◌
  Yields-modify f k = record { run = λ s i e. (tt, step s i e) }
    where
      step :
          (s : Session)
          → I s.db
          → {a : Unit {0}} {s' : Session}
          → Path (Result (Unit {0} × Session)) (ok (tt, record s { db = f s.db })) (ok (a, s'))
          → I s'.db
      step s i {s'} e =
          let q : record s { db = f s.db } ≡ s' = cc in subst (λ (t : Session). I t.db) q (k s.db i)

  -- The UUID is one that the session draws.
  pub Yields-drawn : Yields env I (λ id. (n : ℕ) × (id ≡ env.uuid n)) uuid4
  unfolding ◌>>=◌
  Yields-drawn = record { run = step }
    where
      step :
          (s : Session) {a : Uuid} {s' : Session}
          → I s.db
          → Path
              (Result (Uuid × Session))
              (ok (env.uuid s.drawn, record s { drawn = suc s.drawn }))
              (ok (a, s'))
          → ((n : ℕ) × (a ≡ env.uuid n)) × I s'.db
      step s {a} {s'} i e =
          let p : a ≡ env.uuid s.drawn = cc in
          let q : record s { drawn = suc s.drawn } ≡ s' = cc in
          ((s.drawn, p), subst (λ (t : Session). I t.db) q i)

  pub Yields-uuid4 : Yields env I Any uuid4
  Yields-uuid4 = Yields-weaken Yields-drawn

  pub Yields-draw : Yields env I Any draw
  unfolding ◌>>=◌
  Yields-draw = record { run = λ s i e. (tt, step s i e) }
    where
      step :
          (s : Session)
          → I s.db
          → {a : ℕ} {s' : Session}
          → Path
              (Result (ℕ × Session))
              (ok (env.choice s.chosen, record s { chosen = suc s.chosen }))
              (ok (a, s'))
          → I s'.db
      step s i {s'} e =
          let q : record s { chosen = suc s.chosen } ≡ s' = cc in
          subst (λ (t : Session). I t.db) q i

module _ {ℓ κ} {A : Type ℓ} {B : Type κ} {env : Env} {I : Db → Type 0} where
  pub Yields-bind :
      {F : A → Type 0} {G : B → Type 0} (m : Tx A) (f : A → Tx B)
      → Yields env I F m
      → ((a : A) → F a → Yields env I G (f a))
      → Yields env I G (m >>= f)
  unfolding ◌>>=◌
  Yields-bind {F} {G} m f ym yf = record { run = λ s i e. split s i (m env s) refl e }
    where
      split :
          (s : Session)
          → I s.db
          → (r : Result (A × Session)) → m env s ≡ r
          → {b : B} {s' : Session} → resume r f env ≡ ok (b, s')
          → G b × I s'.db
      split s i (ok (a, t)) e k = let (fa, it) = ym.run s i e in (yf a fa).run t it k
      split s i (err x) e k = absurd (cc)

-- The two commonest first steps: a statement whose value nothing is known of, and a test.
module _ {ℓ κ} {A : Type ℓ} {B : Type κ} {env : Env} {I : Db → Type 0} {G : B → Type 0} where
  pub Yields-read_then :
      (q : Query A) (f : A → Tx B)
      → ((a : A) → Yields env I G (f a))
      → Yields env I G (query q >>= f)
  Yields-read_then q f y = Yields-bind (query q) f (Yields-read q) (λ a _. y a)

module _ {κ} {B : Type κ} {env : Env} {I : Db → Type 0} {G : B → Type 0} where
  pub Yields-ensure_then :
      (b : Bool) (e : Error) (f : Unit {0} → Tx B)
      → (b ≡ true → Yields env I G (f tt))
      → Yields env I G (query (ensure b e) >>= f)
  Yields-ensure_then b e f y = Yields-bind (query (ensure b e)) f (Yields-ensure b e) (λ a h. y h)

-- The tables that a transaction leaves behind, whether it returns or raises.
pub Yields-transact {ℓ} :
    {A : Type ℓ} {I : Db → Type 0} {F : A → Type 0} {m : Tx A} (env : Env)
    → Yields env I F m
    → (db : Db) → I db
    → I (transact m env db).1
unfolding transact
Yields-transact {A} {I} {m} env y db i = split (m env start) refl
  where
    start : Session
    start = record { db = db; drawn = 0; chosen = 0 }

    split : (r : Result (A × Session)) → m env start ≡ r → I (commit r db).1
    split (ok (a, s)) e = (y.run start i e).1
    split (err x) e = i

pub ruleset yields_rules =
    (tt, Yields-pure, Yields-ensure, Yields-read, Yields-uuid4, Yields-draw, Yields-if, Yields-bind)
