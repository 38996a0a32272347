-- ===== src/Directory/Lookup.antt =====
-- The lookups of src/kefu/routing/directory.py.
use message_router.Prelude.{
  Bool, true, false, not, ◌&&◌, ◌||◌, Option, none, some, List, [], ◌∷◌, map, ◌==◌, nat_eq, ltb,
  leb, if◌then◌else◌, Text, text_eq, strip, is_empty, first, select,
}
use message_router.Models.{
  Uuid, Moment, User, Team, TeamKind, team_kind_eq, TeamMembership, MembershipRole,
  membership_role_eq, WeComChannel,
}
use message_router.Session.{not_found, routing_unavailable}
use message_router.Session.Query.{Query, pure, gets, require, ensure, ◌>>=◌, ◌>>◌}

pub record TeamChannel : Type 0 where
  pub team_id : Uuid
  pub chatid : Text

-- `_current_membership_conditions`
unfoldable pub is_current : Moment → TeamMembership → Bool
is_current now m =
    leb m.valid_from now && elim m.valid_until [ none ↦ true | some until ↦ ltb now until ]

-- `session.get(User, user_id)`
unfoldable pub user_by_id : Uuid → Query (Option User)
user_by_id user_id = gets (λ env db. first (λ u. u.id == user_id) db.users)

-- `session.get(Team, team_id)`
unfoldable pub team_by_id : Uuid → Query (Option Team)
team_by_id team_id = gets (λ env db. first (λ t. t.id == team_id) db.teams)

unfoldable pub get_user_if : Bool → Uuid → Query User
get_user_if require_active user_id = do
  found ← user_by_id user_id
  user ← require found not_found
  ensure (not require_active || user.active) routing_unavailable
  pure user

-- `get_user` with its default, `require_active=True`
unfoldable pub get_user : Uuid → Query User
get_user user_id = get_user_if true user_id

unfoldable pub get_user_by_wecom_userid : Text → Bool → Query User
get_user_by_wecom_userid wecom_userid require_active = do
  found ← gets (λ env db. first (λ u. u.wecom_userid == strip wecom_userid) db.users)
  user ← require found not_found
  ensure (not require_active || user.active) routing_unavailable
  pure user

unfoldable pub active_user_by_exact_wecom_userid : Option Text → Query (Option User)
active_user_by_exact_wecom_userid none = pure none
active_user_by_exact_wecom_userid (some wecom_userid) =
    if is_empty wecom_userid
    then pure none
    else gets (λ env db. first (λ u. (u.wecom_userid == wecom_userid) && u.active) db.users)

-- `get_team` with no `kind`
unfoldable pub get_any_team : Uuid → Query Team
get_any_team team_id = do
  found ← team_by_id team_id
  team ← require found not_found
  ensure team.active routing_unavailable
  pure team

-- `get_team` with a `kind`: a team of another kind is a `ValidationErrorForDirectory`
unfoldable pub get_team : Uuid → TeamKind → Query Team
get_team team_id kind = do
  team ← get_any_team team_id
  ensure (team.kind == kind) routing_unavailable
  pure team

unfoldable pub active_membership : Uuid → Uuid → Query (Option TeamMembership)
active_membership user_id team_id = gets λ env db.
    first (λ m. ((m.user_id == user_id) && (m.team_id == team_id)) && is_current env.now m)
      db.memberships

abbrev is_some {ℓ} : {A : Type ℓ} → Option A → Bool
is_some none = false
is_some (some a) = true

abbrev has_role : MembershipRole → Option TeamMembership → Bool
has_role role none = false
has_role role (some m) = m.role == role

unfoldable pub is_member : Uuid → Uuid → Query Bool
is_member user_id team_id = do
  membership ← active_membership user_id team_id
  pure (is_some membership)

unfoldable pub is_admin : Uuid → Uuid → Query Bool
is_admin user_id team_id = do
  membership ← active_membership user_id team_id
  pure (has_role MembershipRole.admin membership)

unfoldable pub is_global_admin : Uuid → Query Bool
is_global_admin user_id = do user ← get_user user_id; pure user.is_global_admin

abbrev is_active_team : Option Team → Bool
is_active_team none = false
is_active_team (some team) = team.active

member_of : Uuid → Option User → Query (Option User)
member_of team_id none = pure none
member_of team_id (some user) = do
  member ← is_member user.id team_id
  team ← team_by_id team_id
  pure (if member && is_active_team team then some user else none)

-- A member of the team, by the exact user id of an active user; the team must be active.
unfoldable pub active_member_by_exact_wecom_userid : Option Text → Uuid → Query (Option User)
unfolding member_of
active_member_by_exact_wecom_userid wecom_userid team_id = do
  found ← active_user_by_exact_wecom_userid wecom_userid
  member_of team_id found

-- `active_team_ids`, with or without a `team_kind` (a join with the teams)
abbrev is_kind_of : Option TeamKind → List Team → Uuid → Bool
is_kind_of none teams team_id = true
is_kind_of (some kind) teams team_id =
    elim (first (λ (t : Team). (t.id == team_id) && (t.kind == kind)) teams) [
      | none ↦ false
      | some t ↦ true
    ]

unfoldable pub active_team_ids : Uuid → Option TeamKind → Query (List Uuid)
active_team_ids user_id team_kind = gets λ env db.
    map (λ (m : TeamMembership). m.team_id)
      (select
        (λ m.
          ((m.user_id == user_id) && is_current env.now m)
          && is_kind_of team_kind db.teams m.team_id)
        db.memberships)

abbrev is_initialized : WeComChannel → Bool
is_initialized c = elim c.initialized_at [ none ↦ false | some t ↦ true ]

unfoldable pub channel_by_chatid : Text → Query (Option WeComChannel)
channel_by_chatid chatid = gets (λ env db. first (λ c. c.chatid == chatid) db.channels)

abbrev kind_if_active : Option Team → Option TeamKind
kind_if_active none = none
kind_if_active (some team) = if team.active then some team.kind else none

kind_behind : Option WeComChannel → Query (Option TeamKind)
kind_behind none = pure none
kind_behind (some channel) = do
  team ← team_by_id channel.team_id
  pure (if channel.active && is_initialized channel then kind_if_active team else none)

-- The kind of the team behind an active, initialized binding of an active team.
unfoldable pub team_kind_for_chatid : Text → Query (Option TeamKind)
unfolding kind_behind
team_kind_for_chatid chatid = do
  found ← channel_by_chatid (strip chatid)
  kind ← kind_behind found
  pure (if is_empty (strip chatid) then none else kind)

unfoldable pub active_team_for_chatid : Text → Query Team
active_team_for_chatid chatid = do
  found ← channel_by_chatid (strip chatid)
  channel ← require found routing_unavailable
  ensure (channel.active && is_initialized channel) routing_unavailable
  bound ← team_by_id channel.team_id
  team ← require bound routing_unavailable
  ensure team.active routing_unavailable
  pure team

-- `len(channels) != 1 or channels[0].initialized_at is None`
sole_initialized : List WeComChannel → Option WeComChannel
sole_initialized (c ∷ []) = if is_initialized c then some c else none
sole_initialized _ = none

unfoldable pub active_channel_of : Uuid → TeamKind → Query TeamChannel
unfolding sole_initialized
active_channel_of team_id kind = do
  team ← get_team team_id kind
  channels ← gets (λ env db. select (λ c. (c.team_id == team.id) && c.active) db.channels)
  channel ← require (sole_initialized channels) routing_unavailable
  pure (record { team_id = team.id; chatid = channel.chatid })

-- the channel of a development team
unfoldable pub active_channel : Uuid → Query TeamChannel
active_channel team_id = active_channel_of team_id TeamKind.dev

-- the channel of a consultation queue
unfoldable pub active_consult_channel : Uuid → Query TeamChannel
active_consult_channel queue_id = do
  found ← team_by_id queue_id
  team ← require found not_found
  ensure (team.kind == TeamKind.consult_queue) routing_unavailable
  ensure team.active routing_unavailable
  active_channel_of queue_id TeamKind.consult_queue
