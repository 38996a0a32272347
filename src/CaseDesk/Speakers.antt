-- ===== src/CaseDesk/Speakers.antt =====
-- Who speaks in `_post_formal_message` of src/kefu/case_desk/service.py.
use message_router.Prelude.{
  Bool, false, not, ◌&&◌, Option, none, some, [], nat_eq, option_beq, if◌then◌else◌, Text, is_empty,
  or_else,
}
use message_router.Models.{
  Uuid, User, Team, TeamKind, team_kind_eq, EntrySide, entry_side_eq, Case, lifecycle_status_eq,
}
use message_router.Session.{forbidden}
use message_router.Session.Query
use message_router.Session.Query.{Query, ensure, gets}
use message_router.Directory.Lookup.{
  get_user, get_team, is_member, user_by_id, team_kind_for_chatid, active_team_for_chatid,
}
use message_router.Directory.Access.{side_for_actor}
use message_router.CaseDesk.Commands.{Actor, person, group, system_actor, PostFormalMessage}

-- Who speaks, and for which side.
pub record Speaker : Type 0 where
  pub side : EntrySide
  pub actor_user : Option User
  pub actor_name : Option Text

-- The kind of team that stands behind a side.
abbrev pub kind_of_side : EntrySide → Option TeamKind
kind_of_side EntrySide.consult = some TeamKind.consult_queue
kind_of_side EntrySide.dev = some TeamKind.dev
kind_of_side EntrySide.system = none

unfoldable pub author_among : Uuid → Option User → Query (Option User)
author_among team_id none = Query.pure none
author_among team_id (some user) =
    Query.◌>>=◌ (is_member user.id team_id)
      λ member. Query.pure (if user.active && member then some user else none)

-- The sender of a group's message, if it is an active member of the team bound to the group.
unfoldable pub possible_author : Option Uuid → Uuid → Query (Option User)
unfolding author_among
possible_author none team_id = Query.pure none
possible_author (some user_id) team_id =
    Query.◌>>=◌ (user_by_id user_id) λ found. author_among team_id found

abbrev pub lead_or_name : Team → Text
lead_or_name team = elim team.lead_display_name [
  | none ↦ team.name
  | some lead ↦ or_else lead team.name
]

abbrev pub display_name_or : Option User → Text → Text
display_name_or none name = name
display_name_or (some user) name = user.display_name

unfoldable pub group_name : EntrySide → Case → Option User → Query Text
group_name EntrySide.consult case author =
    Query.pure (display_name_or author case.consult_handler_name)
group_name _ case author =
    Query.◌>>=◌ (get_team case.current_dev_team_id TeamKind.dev)
      λ team. Query.pure (display_name_or author (lead_or_name team))

abbrev pub has_chatid : Option Text → Bool
has_chatid none = false
has_chatid (some chatid) = not (is_empty chatid)

abbrev pub chatid_or_empty : Option Text → Text
chatid_or_empty none = []
chatid_or_empty (some chatid) = chatid

unfoldable pub group_speaker : EntrySide → Option Uuid → PostFormalMessage → Case → Query Speaker
unfolding group_name
group_speaker side user_id command case =
    Query.◌>>◌
      (ensure (option_beq command.side (some side) && has_chatid command.origin_chatid) forbidden)
      (Query.◌>>=◌ (team_kind_for_chatid (chatid_or_empty command.origin_chatid)) λ origin_kind.
        Query.◌>>◌
          (ensure
            (not (option_beq (kind_of_side side) none)
              && option_beq origin_kind (kind_of_side side))
            forbidden)
          (Query.◌>>=◌ (active_team_for_chatid (chatid_or_empty command.origin_chatid))
            λ origin_team. Query.◌>>=◌ (possible_author user_id origin_team.id) λ author.
              Query.◌>>=◌ (group_name side case author) λ name.
                Query.pure (record { side = side; actor_user = author; actor_name = some name })))

unfoldable pub speaker_of : Actor → PostFormalMessage → Case → Query Speaker
unfolding group_speaker
speaker_of (group side user_id) command case = group_speaker side user_id command case
speaker_of (person user_id) command case = Query.◌>>=◌ (get_user user_id) λ user.
    Query.◌>>=◌ (side_for_actor user_id case command.side)
      λ side. Query.pure (record { side = side; actor_user = some user; actor_name = none })
speaker_of system_actor command case = Query.raise forbidden
