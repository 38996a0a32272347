-- ===== src/Witnesses/Deadlines.antt =====
-- The theorems on the commands that move a deadline, at the consultant of the sample deployment.
use message_router.Prelude.{
  ◌≡◌, refl, ℕ, codes, first, update, any, all, strip, lstrip, rstrip, is_space, list_beq,
}
use message_router.Prelude.Int.{pos, negsuc, nat_abs}
use message_router.Models.{Case}
use message_router.Session.{ok}
use message_router.Session.Query
use message_router.Session.Query.{gets, require, ensure}
use message_router.Session.Tx.{Session, ◌>>=◌}
use message_router.Directory.Lookup.{
  is_member, get_user, get_user_if, user_by_id, is_global_admin, active_membership, is_current,
}
use message_router.Markers.{upper, upper_char, is_crockford, normalize_case_ref}
use message_router.CaseDesk.Commands.{CommandResult}
use message_router.CaseDesk.Timeline.{append_entry, actor_name_snapshot, add_entry}
use message_router.CaseDesk.Common.{
  load_case, assert_expected_version, assert_consult_deadline_access, has_consult_deadline_access,
  save_case, put_case,
}
use message_router.CaseDesk.Deadlines.{
  add_minutes, load_for_deadline, validated_deadline_minutes, validated_deadline_adjustment_minutes,
  move_deadline, new_deadline, record_change, adjust_case_deadline, extend_case_deadline,
}
use message_router.CaseDesk.Deadlines.Moves.{
  Requested, IsStep, Moved, adjust_case_deadline-Moved, extend_case_deadline-Moved,
}
use message_router.Samples.{env, session}

-- The deadline is put forward by an hour.
adjusted :
    (r : CommandResult) × (after : Session) × (adjust_case_deadline
        (codes "ABCD123")
        3
        (negsuc 59)
        1
        env
        session
      ≡ ok (r, after))
unfolding adjust_case_deadline load_for_deadline load_case normalize_case_ref upper upper_char strip
    lstrip rstrip is_space is_crockford any all first update list_beq assert_expected_version
    assert_consult_deadline_access has_consult_deadline_access is_global_admin is_member
    active_membership is_current get_user get_user_if user_by_id
    validated_deadline_adjustment_minutes move_deadline new_deadline add_minutes record_change
    append_entry actor_name_snapshot add_entry save_case put_case ensure require Query.◌>>=◌ ◌>>=◌
adjusted = (_, _, refl)

adjust_case_deadline-Moved_example :
    (case : Case) × Requested (codes "ABCD123") 3 1 env session.db case
    × IsStep (nat_abs (negsuc 59))
    × Moved (codes "adjust_deadline") case (negsuc 59) 1 env session.db adjusted.1.db adjusted.0
adjust_case_deadline-Moved_example =
    adjust_case_deadline-Moved (codes "ABCD123") 3 (negsuc 59) 1 env session adjusted.1 adjusted.0
      adjusted.2

extended :
    (r : CommandResult) × (after : Session) × (extend_case_deadline
        (codes "ABCD123")
        3
        (pos 90)
        1
        env
        session
      ≡ ok (r, after))
unfolding extend_case_deadline load_for_deadline load_case normalize_case_ref upper upper_char strip
    lstrip rstrip is_space is_crockford any all first update list_beq assert_expected_version
    assert_consult_deadline_access has_consult_deadline_access is_global_admin is_member
    active_membership is_current get_user get_user_if user_by_id validated_deadline_minutes
    move_deadline new_deadline add_minutes record_change append_entry actor_name_snapshot add_entry
    save_case put_case ensure require Query.◌>>=◌ ◌>>=◌
extended = (_, _, refl)

extend_case_deadline-Moved_example :
    (case : Case) × (n : ℕ) × Requested (codes "ABCD123") 3 1 env session.db case
    × (pos 90 ≡ pos n)
    × IsStep n
    × Moved (codes "extend_deadline") case (pos n) 1 env session.db extended.1.db extended.0
extend_case_deadline-Moved_example =
    extend_case_deadline-Moved (codes "ABCD123") 3 (pos 90) 1 env session extended.1 extended.0
      extended.2
