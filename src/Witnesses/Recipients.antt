-- ===== src/Witnesses/Recipients.antt =====
-- The theorems on recipients: a member writes to the group of his queue, and a team has one address.
use message_router.Prelude.{
  ◌≡◌, refl, nat_eq, codes, first, any, strip, lstrip, rstrip, is_space, select,
}
use message_router.Models.{DeliveryDestination}
use message_router.Session.{ok}
use message_router.Session.Query.{◌>>=◌}
use message_router.Directory.Lookup.{user_by_id, team_by_id, is_current}
use message_router.Samples.{env, db}
use message_router.Recipients.{
  RecipientKind, RecipientReference, PushTarget, is_channel_of, resolve, resolve_kind, resolve_team,
  target_of_team, is_membership_of, has_membership, authorize_team, authorize_kind, authorize,
}
use message_router.Recipients.Authorized.{Allowed, authorize-Allowed}
use message_router.Recipients.Registered.{Registered, resolve-Registered}

abbrev queue : RecipientReference
queue = record { kind = RecipientKind.consult_queue; identity = 10 }

abbrev target : PushTarget
target = record { destination_type = DeliveryDestination.chat; address = codes "consult-group" }

resolved : resolve queue env db ≡ ok target
unfolding resolve resolve_kind resolve_team target_of_team is_channel_of team_by_id ◌>>=◌ first
    select strip lstrip rstrip is_space
resolved = refl

authorized : authorize 1 queue env db ≡ ok target
unfolding authorize authorize_kind authorize_team has_membership is_membership_of is_current
    user_by_id resolve resolve_kind resolve_team target_of_team is_channel_of team_by_id ◌>>=◌ first
    select any strip lstrip rstrip is_space
authorized = refl

authorize-Allowed_example : (resolve queue env db ≡ ok target) × Allowed env db 1 queue
authorize-Allowed_example = authorize-Allowed env db 1 queue target authorized

resolve-Registered_example : Registered env db queue target
resolve-Registered_example = resolve-Registered env db queue target resolved
