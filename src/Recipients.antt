-- ===== src/Recipients.antt =====
-- src/kefu/messages/recipients.py: who may push a message to which team or person.
pub mod Authorized
pub mod Registered
use message_router.Prelude.{
  ℕ, Bool, true, false, not, ◌&&◌, ◌||◌, Option, none, some, List, [], ◌∷◌, ◌==◌, nat_eq,
  if◌then◌else◌, Text, strip, is_empty, any, first, select,
}
use message_router.Models.{
  Uuid, Moment, User, Team, TeamKind, team_kind_eq, TeamMembership, WeComChannel,
  DeliveryDestination,
}
use message_router.Session.{Db, not_found, forbidden, routing_unavailable}
use message_router.Session.Query.{Query, pure, raise, gets, require, ensure, ◌>>=◌, ◌>>◌}
use message_router.Directory.Lookup.{user_by_id, team_by_id, is_current}

pub data RecipientKind : Type 0 where
  team consult_queue person : RecipientKind

pub record RecipientReference : Type 0 where
  pub kind : RecipientKind
  pub identity : Uuid

pub record PushTarget : Type 0 where
  pub destination_type : DeliveryDestination
  pub address : Text

abbrev pub expected_kind : RecipientKind → TeamKind
expected_kind RecipientKind.consult_queue = TeamKind.consult_queue
expected_kind _ = TeamKind.dev

-- The only active channel of a team.
abbrev pub only_chatid : List WeComChannel → Text
only_chatid (c ∷ []) = c.chatid
only_chatid _ = []

unfoldable pub is_channel_of : Uuid → WeComChannel → Bool
is_channel_of team_id c = (c.team_id == team_id) && c.active

unfoldable pub target_of_user : User → Query PushTarget
target_of_user user = do
  ensure (user.active && not (is_empty (strip user.wecom_userid))) routing_unavailable
  pure (record { destination_type = DeliveryDestination.user; address = user.wecom_userid })

unfoldable pub resolve_person : Uuid → Query PushTarget
unfolding target_of_user
resolve_person identity = do
  found ← user_by_id identity
  user ← require found not_found
  target_of_user user

unfoldable pub target_of_team : TeamKind → Team → Query PushTarget
unfolding is_channel_of
target_of_team kind found_team = do
  ensure (found_team.kind == kind) routing_unavailable
  ensure found_team.active routing_unavailable
  channels ← gets (λ env db. select (is_channel_of found_team.id) db.channels)
  ensure (not (is_empty (strip (only_chatid channels)))) routing_unavailable
  pure (record { destination_type = DeliveryDestination.chat; address = only_chatid channels })

unfoldable pub resolve_team : TeamKind → Uuid → Query PushTarget
unfolding target_of_team
resolve_team kind identity = do
  found ← team_by_id identity
  found_team ← require found not_found
  target_of_team kind found_team

unfoldable pub resolve_kind : RecipientKind → Uuid → Query PushTarget
unfolding resolve_person resolve_team
resolve_kind RecipientKind.person identity = resolve_person identity
resolve_kind RecipientKind.team identity = resolve_team (expected_kind RecipientKind.team) identity
resolve_kind RecipientKind.consult_queue identity =
    resolve_team (expected_kind RecipientKind.consult_queue) identity

unfoldable pub resolve : RecipientReference → Query PushTarget
unfolding resolve_kind
resolve recipient = resolve_kind recipient.kind recipient.identity

abbrev pub is_active_team : Option Team → Bool
is_active_team none = false
is_active_team (some t) = t.active

-- A current membership of the user in an active team.
unfoldable pub is_membership_of : Uuid → Moment → Db → TeamMembership → Bool
is_membership_of user_id now db m =
    ((m.user_id == user_id) && is_active_team (first (λ t. t.id == m.team_id) db.teams))
    && is_current now m

unfoldable pub is_shared : Uuid → Moment → Db → TeamMembership → Bool
is_shared other_id now db m =
    any (λ n. ((n.team_id == m.team_id) && (n.user_id == other_id)) && is_current now n)
      db.memberships

-- A team that the two users share.
unfoldable pub has_shared_team : Uuid → Uuid → Moment → Db → Bool
unfolding is_membership_of is_shared
has_shared_team actor_id user_id now db =
    any (λ m. is_membership_of actor_id now db m && is_shared user_id now db m) db.memberships

unfoldable pub has_membership : Uuid → Uuid → Moment → Db → Bool
unfolding is_membership_of
has_membership actor_id team_id now db =
    any (λ m. (m.team_id == team_id) && is_membership_of actor_id now db m) db.memberships

abbrev pub is_active_user : Option User → Bool
is_active_user none = false
is_active_user (some u) = u.active

abbrev pub is_admin : Option User → Bool
is_admin none = false
is_admin (some u) = u.is_global_admin

unfoldable pub authorize_person : Uuid → Uuid → Query (Unit {0})
unfolding has_shared_team
authorize_person actor_id identity = do
  user ← user_by_id identity
  actor_user ← user_by_id actor_id
  ensure (is_active_user user && is_active_user actor_user) forbidden
  shared ← gets (λ env db. has_shared_team actor_id identity env.now db)
  ensure ((is_admin actor_user || (identity == actor_id)) || shared) forbidden

abbrev pub is_there : Option Team → Bool
is_there none = false
is_there (some t) = true

unfoldable pub authorize_team : Uuid → Uuid → Query (Unit {0})
unfolding has_membership
authorize_team actor_id identity = do
  found_team ← team_by_id identity
  actor_user ← user_by_id actor_id
  ensure (is_there found_team && is_active_user actor_user) forbidden
  member ← gets (λ env db. has_membership actor_id identity env.now db)
  ensure (is_admin actor_user || member) forbidden

unfoldable pub authorize_kind : RecipientKind → Uuid → Uuid → Query (Unit {0})
unfolding authorize_person authorize_team
authorize_kind RecipientKind.person actor_id identity = authorize_person actor_id identity
authorize_kind _ actor_id identity = authorize_team actor_id identity

unfoldable pub authorize : Uuid → RecipientReference → Query PushTarget
unfolding resolve authorize_kind
authorize actor_id recipient = do
  target ← resolve recipient
  authorize_kind recipient.kind actor_id recipient.identity
  pure target
