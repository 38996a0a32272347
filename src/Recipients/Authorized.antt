-- ===== src/Recipients/Authorized.antt =====
-- What src/kefu/messages/recipients.py requires of a push: a registered address, and an actor
-- who may write to it.
use message_router.Prelude.{
  ◌≡◌, refl, Bool, true, false, ◌&&◌, ◌||◌, some, none, ◌==◌, nat_eq, Option, first, any-In, In,
  ◌⊎◌, inl, inr, Bool-cases, arith, ap, subst, sym, ◌∙◌,
}
use message_router.Models.{Uuid, User, Team, TeamMembership, team_kind_eq}
use message_router.Session.{Db, Env, ok, forbidden}
use message_router.Session.Query.{◌>>=◌, ◌>>◌, pure, gets, ensure, >>=-eq-ok}
use message_router.Directory.Lookup.{is_current, user_by_id, team_by_id}
use message_router.Recipients.{
  RecipientKind, RecipientReference, PushTarget, resolve, is_membership_of, is_shared,
  has_shared_team, has_membership, is_active_user, is_admin, authorize_person, authorize_team,
  authorize_kind, authorize, is_active_team, is_there,
}

module _ (env : Env) (db : Db) where
  abbrev pub ActiveUser : Uuid → User → Type 0
  ActiveUser user_id u = (first (λ x. x.id == user_id) db.users ≡ some u) × (u.active ≡ true)

  abbrev pub ActiveTeam : Uuid → Team → Type 0
  ActiveTeam team_id t = (first (λ x. x.id == team_id) db.teams ≡ some t) × (t.active ≡ true)

  abbrev pub CurrentMember : Uuid → Uuid → Type 0
  CurrentMember user_id team_id =
      (m : TeamMembership) × In m db.memberships
      × (m.user_id ≡ user_id)
      × (m.team_id ≡ team_id)
      × (is_current env.now m ≡ true)

  -- A user is a current member of an active team.
  abbrev pub Belongs : Uuid → Uuid → Type 0
  Belongs user_id team_id = ((t : Team) × ActiveTeam team_id t) × CurrentMember user_id team_id

  -- An actor may write to himself, to whom he shares an active team with, and to his own active teams.
  abbrev pub Reaches : Uuid → RecipientKind → Uuid → Type 0
  Reaches actor_id RecipientKind.person identity =
      (identity ≡ actor_id)
      ⊎ ((team_id : Uuid) × Belongs actor_id team_id × CurrentMember identity team_id)
  Reaches actor_id _ identity = Belongs actor_id identity

  abbrev pub Allowed : Uuid → RecipientReference → Type 0
  Allowed actor_id r =
      (u : User) × ActiveUser actor_id u
      × ((u.is_global_admin ≡ true) ⊎ Reaches actor_id r.kind r.identity)

  active_user :
      (o : Option User) → is_active_user o ≡ true → (u : User) × (o ≡ some u) × (u.active ≡ true)
  active_user none h = absurd (cc)
  active_user (some u) h = (u, refl, h)

  active_team :
      (o : Option Team) → is_active_team o ≡ true → (t : Team) × (o ≡ some t) × (t.active ≡ true)
  active_team none h = absurd (cc)
  active_team (some t) h = (t, refl, h)

  found_user :
      (user_id : Uuid)
      → is_active_user (first (λ x. x.id == user_id) db.users) ≡ true
      → (u : User) × ActiveUser user_id u
  found_user user_id h =
      let found = active_user (first (λ x. x.id == user_id) db.users) h in
      (found.0, (found.1, found.2))

  found_team :
      (team_id : Uuid)
      → is_active_team (first (λ x. x.id == team_id) db.teams) ≡ true
      → (t : Team) × ActiveTeam team_id t
  found_team team_id h =
      let found = active_team (first (λ x. x.id == team_id) db.teams) h in
      (found.0, (found.1, found.2))

  is_membership_of-Belongs :
      (user_id : Uuid) (m : TeamMembership)
      → In m db.memberships
      → is_membership_of user_id env.now db m ≡ true
      → Belongs user_id m.team_id
  unfolding is_membership_of
  is_membership_of-Belongs user_id m i h =
      (found_team m.team_id (ground arith), (m, i, (ground arith), refl, ground arith))

  has_membership-Belongs :
      (actor_id team_id : Uuid)
      → has_membership actor_id team_id env.now db ≡ true
      → Belongs actor_id team_id
  unfolding has_membership
  has_membership-Belongs actor_id team_id h =
      let found =
        any-In (λ m. (m.team_id == team_id) && is_membership_of actor_id env.now db m)
          db.memberships h in
      subst (Belongs actor_id) ((ground arith))
        (is_membership_of-Belongs actor_id found.0 found.1 (ground arith))

  is_shared-CurrentMember :
      (other_id : Uuid) (m : TeamMembership)
      → is_shared other_id env.now db m ≡ true
      → CurrentMember other_id m.team_id
  unfolding is_shared
  is_shared-CurrentMember other_id m h =
      let found =
        any-In (λ n. ((n.team_id == m.team_id) && (n.user_id == other_id)) && is_current env.now n)
          db.memberships h in
      (found.0, found.1, (ground arith), (ground arith), ground arith)

  has_shared_team-Reaches :
      (actor_id identity : Uuid)
      → has_shared_team actor_id identity env.now db ≡ true
      → (team_id : Uuid) × Belongs actor_id team_id × CurrentMember identity team_id
  unfolding has_shared_team
  has_shared_team-Reaches actor_id identity h =
      let found =
        any-In (λ m. is_membership_of actor_id env.now db m && is_shared identity env.now db m)
          db.memberships h in
      (
        found.0.team_id,
        is_membership_of-Belongs actor_id found.0 found.1 (ground arith),
        is_shared-CurrentMember identity found.0 (ground arith),
      )

  both_guards :
      (a b : Bool) {u : Unit {0}}
      → (ensure a forbidden >>= λ _. ensure b forbidden) env db ≡ ok u
      → (a ≡ true) × (b ≡ true)
  unfolding ◌>>=◌ ensure
  both_guards true true h = (refl, refl)
  both_guards true false h = absurd (cc)
  both_guards false b h = absurd (cc)

  -- An administrator may, and another actor where `b` holds.
  admin-or :
      (u : User) (o : Option User) (b : Bool)
      → o ≡ some u
      → is_admin o || b ≡ true
      → (u.is_global_admin ≡ true) ⊎ (b ≡ true)
  admin-or u none b e h = absurd (cc)
  admin-or u (some v) b e h =
      let same : v ≡ u = ground arith in
      elim (Bool-cases v.is_global_admin) [
        | inl t ↦ inl (ap (λ x. x.is_global_admin) (sym same) ∙ t)
        | inr n ↦ inr (rw n at h)
      ]

  right_of : (a b : Bool) → a && b ≡ true → b ≡ true
  right_of a b h = ground arith

  regroup : (a b c : Bool) → (a || b) || c ≡ true → a || (b || c) ≡ true
  regroup true b c h = refl
  regroup false b c h = h

  authorize_team-Belongs :
      (actor_id identity : Uuid) {u : Unit {0}}
      → authorize_team actor_id identity env db ≡ ok u
      → (u : User) × ActiveUser actor_id u
        × ((u.is_global_admin ≡ true) ⊎ Belongs actor_id identity)
  unfolding authorize_team ◌>>=◌ gets user_by_id team_by_id
  authorize_team-Belongs actor_id identity h =
      let there = is_there (first (λ t. t.id == identity) db.teams) in
      let row = first (λ u. u.id == actor_id) db.users in
      let member = has_membership actor_id identity env.now db in
      let guards = both_guards (there && is_active_user row) (is_admin row || member) h in
      let actor = found_user actor_id (right_of there (is_active_user row) guards.0) in
      (
        actor.0,
        actor.1,
        elim (admin-or actor.0 row member actor.1.0 guards.1) [
          | inl t ↦ inl t
          | inr t ↦ inr (has_membership-Belongs actor_id identity t)
        ],
      )

  authorize_person-Reaches :
      (actor_id identity : Uuid) {u : Unit {0}}
      → authorize_person actor_id identity env db ≡ ok u
      → (u : User) × ActiveUser actor_id u
        × ((u.is_global_admin ≡ true) ⊎ Reaches actor_id RecipientKind.person identity)
  unfolding authorize_person ◌>>=◌ gets user_by_id
  authorize_person-Reaches actor_id identity h =
      let person = is_active_user (first (λ u. u.id == identity) db.users) in
      let row = first (λ u. u.id == actor_id) db.users in
      let shared = has_shared_team actor_id identity env.now db in
      let guards =
        both_guards (person && is_active_user row)
          ((is_admin row || (identity == actor_id)) || shared) h in
      let actor = found_user actor_id (right_of person (is_active_user row) guards.0) in
      (
        actor.0,
        actor.1,
        elim (admin-or actor.0 row ((identity == actor_id) || shared) actor.1.0
            (regroup (is_admin row) (identity == actor_id) shared guards.1)) [
              | inl t ↦ inl t
              | inr t ↦ inr (elim (Bool-cases (identity == actor_id)) [
                | inl same ↦ inl (ground arith)
                | inr n ↦ inr (has_shared_team-Reaches actor_id identity (rw n at t))
              ])
            ],
      )

  authorize_kind-Allowed :
      (kind : RecipientKind) (actor_id identity : Uuid) {u : Unit {0}}
      → authorize_kind kind actor_id identity env db ≡ ok u
      → Allowed actor_id (record { kind = kind; identity = identity })
  unfolding authorize_kind
  authorize_kind-Allowed RecipientKind.person actor_id identity h =
      authorize_person-Reaches actor_id identity h
  authorize_kind-Allowed RecipientKind.team actor_id identity h =
      authorize_team-Belongs actor_id identity h
  authorize_kind-Allowed RecipientKind.consult_queue actor_id identity h =
      authorize_team-Belongs actor_id identity h

  -- Whoever gets a target from `authorize` gets the one that `resolve` finds for the recipient, and
  -- is an active user who is a global administrator, the person himself, a current member of an
  -- active team the person is a current member of, or, where the recipient is a team, a current
  -- member of that team, which is active.
  pub authorize-Allowed :
      (actor_id : Uuid) (recipient : RecipientReference) (target : PushTarget)
      → authorize actor_id recipient env db ≡ ok target
      → (resolve recipient env db ≡ ok target) × Allowed actor_id recipient
  unfolding authorize pure
  authorize-Allowed actor_id recipient target h =
      let found =
        >>=-eq-ok (resolve recipient)
          (λ t. authorize_kind recipient.kind actor_id recipient.identity >> pure t) env db h in
      let allowed =
        >>=-eq-ok (authorize_kind recipient.kind actor_id recipient.identity) (λ _. pure found.0)
          env db found.2 in
      (
        found.1 ∙ allowed.2,
        authorize_kind-Allowed recipient.kind actor_id recipient.identity allowed.1,
      )
