-- ===== src/Witnesses/WebAuth.antt =====
-- The theorems on the login, at the consultant of the sample deployment.
use message_router.Prelude.{
  ◌==◌, text_eq, ◌+◌, ◌≡◌, ◌++◌, refl, true, none, some, codes, leb, if◌then◌else◌, strip, lstrip,
  rstrip, is_space, first, all, list_beq,
}
use message_router.Session.{Db, Env, ok}
use message_router.Session.Query
use message_router.Session.Query.{require, ensure}
use message_router.Session.Tx.{transact}
use message_router.Directory.Lookup.{get_user, get_user_if, user_by_id, get_user_by_wecom_userid}
use message_router.CaseDesk.Commands.{person}
use message_router.WebAuth.{
  Libraries, Settings, RedirectResponse, session_ttl, begin_login, complete_login, safe_next_path,
  actor_for_request, is_ascii,
}
use message_router.WebAuth.Login.{complete_login-actor_for_request}
use message_router.Samples.{env, db, consultant}

abbrev lib : Libraries
lib = record {
  sha256 = λ s. s;
  quote = λ s. s;
  unquote = λ s. s;
  authorize_url = λ callback state. callback ++ state;
  user_id_for_code = λ code. ok (codes "lin");
}

abbrev settings : Settings
settings = record {
  auth_mode = codes "wecom_oauth";
  dev_wecom_userid = none;
  web_base_url = codes "https://desk";
  web_mount_path = codes "/kefu";
}

-- An hour after the login.
abbrev later : Env
later = record env { now = 4_600_000_000 }

known : get_user_by_wecom_userid (codes "lin") true env db ≡ ok consultant
unfolding get_user_by_wecom_userid strip lstrip rstrip is_space first list_beq Query.◌>>=◌ require
    ensure
known = refl

active : get_user 1 later db ≡ ok consultant
unfolding get_user get_user_if user_by_id first Query.◌>>=◌ require ensure
active = refl

unknown_token : first (λ s. s.token_hash == codes "secret") db.web_sessions ≡ none
unfolding first
unknown_token = refl

plain_state : all is_ascii (codes "ab") ≡ true
unfolding all
plain_state = refl

complete_login-actor_for_request_example :
    (r : RedirectResponse) × (db' : Db) × (transact
        (complete_login lib settings
          (some (begin_login lib settings (codes "//evil") (codes "ab")).cookie)
          (codes "code")
          (codes "ab")
          (codes "secret"))
        env
        db
      ≡ (ok r, db'))
    × (r.location ≡ safe_next_path (codes "//evil") (codes "/kefu"))
    × ((transact (actor_for_request lib settings none (some r.cookie)) later db').0
        ≡ ok (if leb (env.now + session_ttl) later.now then none else some (person 1)))
complete_login-actor_for_request_example =
    complete_login-actor_for_request lib settings env db consultant (codes "//evil") (codes "ab")
      (codes "code") (codes "secret") (codes "lin") (refl, (refl, tt)) plain_state (λ s. refl) refl
      known later refl refl unknown_token active
