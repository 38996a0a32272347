-- ===== src/Recipients/Registered.antt =====
-- The addresses that `resolve` of src/kefu/messages/recipients.py gives out.
use message_router.Prelude.{
  ◌≡◌, refl, ap, ◌∙◌, sym, Bool, true, false, not, ◌&&◌, Option, some, none, List, [], ◌∷◌, ◌==◌,
  nat_eq, strip, lstrip, rstrip, is_empty, first, select, arith,
}
use message_router.Models.{
  Uuid, User, Team, TeamKind, team_kind_eq, WeComChannel, DeliveryDestination,
}
use message_router.Session.{Db, Env, ok, not_found, routing_unavailable, ok-injective}
use message_router.Session.Query.{Query, ◌>>=◌, ◌>>◌, pure, gets, require, ensure}
use message_router.Directory.Lookup.{user_by_id, team_by_id}
use message_router.Recipients.{
  RecipientKind, RecipientReference, PushTarget, only_chatid, is_channel_of, resolve, resolve_kind,
  resolve_person, resolve_team, target_of_user, target_of_team,
}

module _ (env : Env) (db : Db) where
  -- The target of an active user is the userid of his row.
  abbrev pub OfPerson : Uuid → PushTarget → Type 0
  OfPerson identity target =
      (u : User) × (first (λ x. x.id == identity) db.users ≡ some u)
      × (u.active ≡ true)
      × (target.destination_type ≡ DeliveryDestination.user)
      × (target.address ≡ u.wecom_userid)
      × (is_empty (strip target.address) ≡ false)

  -- The target of an active team of the kind is the chat of the only active channel of the team.
  abbrev pub OfTeam : TeamKind → Uuid → PushTarget → Type 0
  OfTeam kind identity target =
      (t : Team) × (c : WeComChannel) × (first (λ x. x.id == identity) db.teams ≡ some t)
      × (t.active ≡ true)
      × ((t.kind == kind) ≡ true)
      × (select (is_channel_of t.id) db.channels ≡ c ∷ [])
      × (target.destination_type ≡ DeliveryDestination.chat)
      × (target.address ≡ c.chatid)
      × (is_empty (strip target.address) ≡ false)

  abbrev pub Registered : RecipientReference → PushTarget → Type 0
  Registered r target = elim r.kind [
    | RecipientKind.person ↦ OfPerson r.identity target
    | RecipientKind.team ↦ OfTeam TeamKind.dev r.identity target
    | RecipientKind.consult_queue ↦ OfTeam TeamKind.consult_queue r.identity target
  ]

  guarded :
      (b : Bool) {target t : PushTarget}
      → (ensure b routing_unavailable >> pure t) env db ≡ ok target
      → (b ≡ true) × (t ≡ target)
  unfolding ◌>>=◌ ensure pure
  guarded true h = (refl, ok-injective h)
  guarded false h = absurd (cc)

  both : (a b : Bool) → a && not b ≡ true → (a ≡ true) × (b ≡ false)
  both a b h = (ground arith, ground arith)

  required :
      {A : Type 0} (o : Option A) (f : A → Query PushTarget) {target : PushTarget}
      → (require o not_found >>= f) env db ≡ ok target
      → (a : A) × (o ≡ some a) × (f a env db ≡ ok target)
  unfolding ◌>>=◌ require
  required none f h = absurd (cc)
  required (some a) f h = (a, refl, h)

  ensured :
      (b : Bool) (q : Query PushTarget) {target : PushTarget}
      → (ensure b routing_unavailable >> q) env db ≡ ok target
      → (b ≡ true) × (q env db ≡ ok target)
  unfolding ◌>>=◌ ensure
  ensured true q h = (refl, h)
  ensured false q h = absurd (cc)

  resolve_person-OfPerson :
      (identity : Uuid) (target : PushTarget)
      → resolve_person identity env db ≡ ok target
      → OfPerson identity target
  unfolding resolve_person target_of_user ◌>>=◌ gets user_by_id
  resolve_person-OfPerson identity target h =
      let row = required (first (λ x. x.id == identity) db.users) target_of_user h in
      let checks = guarded (row.0.active && not (is_empty (strip row.0.wecom_userid))) row.2 in
      let live = both row.0.active (is_empty (strip row.0.wecom_userid)) checks.0 in
      (
        row.0,
        row.1,
        live.0,
        ap (λ t. t.destination_type) (sym checks.1),
        ap (λ t. t.address) (sym checks.1),
        ap (λ t. is_empty (strip t.address)) (sym checks.1) ∙ live.1,
      )

  only_chatid-one :
      (cs : List WeComChannel)
      → not (is_empty (strip (only_chatid cs))) ≡ true
      → (c : WeComChannel) × (cs ≡ c ∷ []) × (is_empty (strip c.chatid) ≡ false)
  unfolding strip lstrip rstrip
  only_chatid-one [] h = absurd (cc)
  only_chatid-one (c ∷ []) h = (c, refl, ground arith)
  only_chatid-one (c ∷ d ∷ cs) h = absurd (cc)

  abbrev addressed : Team → Query PushTarget
  addressed t = gets (λ env db. select (is_channel_of t.id) db.channels) >>= λ channels.
      ensure (not (is_empty (strip (only_chatid channels)))) routing_unavailable
      >> pure
          (record { destination_type = DeliveryDestination.chat; address = only_chatid channels })

  resolve_team-OfTeam :
      (kind : TeamKind) (identity : Uuid) (target : PushTarget)
      → resolve_team kind identity env db ≡ ok target
      → OfTeam kind identity target
  unfolding resolve_team target_of_team ◌>>=◌ gets team_by_id
  resolve_team-OfTeam kind identity target h =
      let row = required (first (λ x. x.id == identity) db.teams) (target_of_team kind) h in
      let t = row.0 in
      let typed =
        ensured (t.kind == kind) (ensure t.active routing_unavailable >> addressed t) row.2 in
      let live = ensured t.active (addressed t) typed.1 in
      let channels = select (is_channel_of t.id) db.channels in
      let checks = guarded (not (is_empty (strip (only_chatid channels)))) live.1 in
      let one = only_chatid-one channels checks.0 in
      let sole = ap only_chatid one.1 in
      (
        t,
        one.0,
        row.1,
        live.0,
        typed.0,
        one.1,
        ap (λ x. x.destination_type) (sym checks.1),
        ap (λ x. x.address) (sym checks.1) ∙ sole,
        ap (λ x. is_empty (strip x.address)) (sym checks.1)
            ∙ ap (λ x. is_empty (strip x)) sole
            ∙ one.2,
      )

  resolve_kind-Registered :
      (kind : RecipientKind) (identity : Uuid) (target : PushTarget)
      → resolve_kind kind identity env db ≡ ok target
      → Registered (record { kind = kind; identity = identity }) target
  unfolding resolve_kind
  resolve_kind-Registered RecipientKind.person identity target h =
      resolve_person-OfPerson identity target h
  resolve_kind-Registered RecipientKind.team identity target h =
      resolve_team-OfTeam TeamKind.dev identity target h
  resolve_kind-Registered RecipientKind.consult_queue identity target h =
      resolve_team-OfTeam TeamKind.consult_queue identity target h

  -- A target that `resolve` returns has an address that is not blank. It is the userid of the active
  -- user that the recipient names, or the chat of the only active channel of the active team that it
  -- names, which is a consultation queue or a development team as the recipient says.
  pub resolve-Registered :
      (r : RecipientReference) (target : PushTarget)
      → resolve r env db ≡ ok target
      → Registered r target
  unfolding resolve
  resolve-Registered r target h = resolve_kind-Registered r.kind r.identity target h
