-- ===== src/CaseDesk/Recorded.antt =====
-- What a command that appends one entry of the system leaves in the tables: the end of
-- `_set_case_status` and of the deadline commands of src/kefu/case_desk/service.py.
use message_router.Prelude.{
  ◌+◌, ◌≡◌, refl, ap, sym, false, some, [], ◌∷◌, ◌++◌, ◌==◌, nat_eq, update,
}
use message_router.Models.{User, Case, CaseEntry, CaseEntryKind, EntrySide, EntryMetadata}
use message_router.Session.{Db, Env, ok, ok-injective}
use message_router.Session.Query.{require}
use message_router.Session.Tx.{Session, pure, ◌>>=◌}
use message_router.CaseDesk.Commands.{CommandResult}
use message_router.CaseDesk.Common.{put_case, save_case, result}
use message_router.CaseDesk.Timeline.{add_entry, append_entry, system_entry, actor_name_snapshot}

-- The row of the issue is `row`, and one entry of the user stands behind the others; nothing else
-- changed, and the result names both.
abbrev pub Recorded : Case → CaseEntryKind → User → EntryMetadata → Db → Db → CommandResult → Type 0
Recorded row kind user metadata db db' r =
    (entry : CaseEntry) × (db' ≡ record db {
      cases = update (λ c. c.id == row.id) (λ _. row) db.cases;
      entries = db.entries ++ entry ∷ [];
    })
    × (entry.case_id ≡ row.id)
    × (entry.sequence ≡ row.last_entry_sequence)
    × (entry.kind ≡ kind)
    × (entry.side ≡ EntrySide.system)
    × (entry.actor_user_id ≡ some user.id)
    × (entry.metadata ≡ metadata)
    × (r ≡ result row (some entry.id) [] false)

pub append_entry-Recorded :
    (case : Case) (kind : CaseEntryKind) (user : User) (metadata : EntryMetadata) (env : Env)
    (s s' : Session) (r : CommandResult)
    → (append_entry case (system_entry kind user metadata) >>= λ (case', entry).
          pure (result case' (some entry.id) [] false))
        env s
      ≡ ok (r, s')
    → Recorded
        (record case { last_entry_sequence = case.last_entry_sequence + 1 })
        kind
        user
        metadata
        s.db
        s'.db
        r
unfolding append_entry actor_name_snapshot save_case put_case add_entry ◌>>=◌ require
append_entry-Recorded case kind user metadata env s s' r h =
    let q = ok-injective h in
    (_, ap (λ p. p.1.db) (sym q), refl, refl, refl, refl, refl, refl, ap (λ p. p.0) (sym q))
