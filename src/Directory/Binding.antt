-- ===== src/Directory/Binding.antt =====
-- `bind_team_chat` of src/kefu/routing/directory.py: the current group becomes the channel of the
-- team that has the given name.
use message_router.Prelude.{
  Bool, true, false, not, ◌&&◌, Option, none, some, List, [], ◌∷◌, ◌++◌, ◌==◌, nat_eq, Text,
  text_eq, strip, is_empty, select, update,
}
use message_router.Models.{Uuid, TeamKind, team_kind_eq, Team, WeComChannel}
use message_router.Session.{Db, routing_unavailable}
use message_router.Session.Query.{gets, ensure, require}
use message_router.Session.Tx.{Tx, query, modify, uuid4, pure, ◌>>=◌, ◌>>◌}
use message_router.Directory.Lookup.{TeamChannel, channel_by_chatid}

-- `len(teams) != 1`
sole_team : List Team → Option Team
sole_team (team ∷ []) = some team
sole_team _ = none

abbrev bound_to : Uuid → Option WeComChannel → Bool
bound_to team_id none = true
bound_to team_id (some channel) = channel.team_id == team_id

-- `active_channel.active = False` for each active channel of the team
unfoldable pub deactivate_channels : Uuid → Db → Db
deactivate_channels team_id db = record db {
  channels =
      update (λ c. (c.team_id == team_id) && c.active) (λ c. record c { active = false })
        db.channels;
}

put_channel : WeComChannel → Db → Db
put_channel channel db = record db { channels = db.channels ++ channel ∷ [] }

-- `channel.active = True` and `channel.initialized_at = utc_now()` on the binding that was there
reactivate_channel : WeComChannel → Db → Db
reactivate_channel channel db = record db {
  channels =
      update (λ c. c.id == channel.id)
        (λ c. record c { active = true; initialized_at = channel.initialized_at }) db.channels;
}

bind_channel : Uuid → Text → Option WeComChannel → Tx (Unit {0})
bind_channel team_id chatid (some existing) = do
  now ← query (gets (λ env db. env.now))
  modify (reactivate_channel (record existing { active = true; initialized_at = some now }))
bind_channel team_id chatid none = do
  id ← uuid4
  now ← query (gets (λ env db. env.now))
  modify (
      put_channel (record {
        id = id;
        team_id = team_id;
        chatid = chatid;
        active = true;
        initialized_at = some now;
      }))

unfoldable pub bind_team_chat : Text → Text → TeamKind → Tx TeamChannel
unfolding sole_team put_channel reactivate_channel deactivate_channels bind_channel
bind_team_chat team_name chatid team_kind = do
  query (
      ensure (not (is_empty (strip team_name)) && not (is_empty (strip chatid)))
        routing_unavailable)
  teams ← query (
      gets λ env db.
        select (λ t. ((t.kind == team_kind) && (t.name == strip team_name)) && t.active) db.teams)
  team ← query (require (sole_team teams) routing_unavailable)
  existing ← query (channel_by_chatid (strip chatid))
  query (ensure (bound_to team.id existing) routing_unavailable)
  modify (deactivate_channels team.id)
  bind_channel team.id (strip chatid) existing
  pure (record { team_id = team.id; chatid = strip chatid })
