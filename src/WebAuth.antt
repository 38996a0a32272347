-- ===== src/WebAuth.antt =====
-- src/kefu/web/auth.py: the login by OAuth and the sessions of the web pages.
pub mod Login
use message_router.Prelude.{
  ℕ, ◌+◌, ◌*◌, Bool, true, false, not, ◌&&◌, ◌||◌, Option, none, some, List, [], ◌∷◌, ◌++◌, ◌==◌,
  nat_eq, text_eq, leb, if◌then◌else◌, Text, codes, is_empty, starts_with, first, update, all, ltb,
}
use message_router.Models.{Uuid, Moment, User, WebSession}
use message_router.Session.{Db, Result, ok, err, authentication_error, type_error}
use message_router.Session.Query
use message_router.Session.Query.{Query, gets, require, ensure}
use message_router.Session.Tx.{Tx, query, modify, uuid4, pure, ◌>>=◌, ◌>>◌}
use message_router.Directory.Lookup.{get_user, get_user_by_wecom_userid}
use message_router.CaseDesk.Commands.{Actor, person}

-- SESSION_TTL, 8 hours, in microseconds
abbrev pub session_ttl : ℕ
session_ttl = 28_800_000_000

-- OAUTH_STATE_TTL_SECONDS
abbrev pub oauth_state_ttl_seconds : ℕ
oauth_state_ttl_seconds = 600

-- What the code takes from other packages: `sha256(..).hexdigest()`, `quote` and `unquote` of
-- `urllib.parse`, and the OAuth client.
pub record Libraries : Type 0 where
  pub sha256 : Text → Text
  pub quote : Text → Text
  pub unquote : Text → Text
  pub authorize_url : Text → Text → Text
  pub user_id_for_code : Text → Result Text

pub record Settings : Type 0 where
  pub auth_mode : Text
  pub dev_wecom_userid : Option Text
  pub web_base_url : Text
  pub web_mount_path : Text

-- Not a path of this site.
unfoldable pub is_outside : Text → Bool
is_outside candidate = not (starts_with candidate (codes "/")) || starts_with candidate (codes "//")

-- Not under the mount point, where there is one.
unfoldable pub is_elsewhere : Text → Text → Bool
is_elsewhere candidate mount_path =
    not (is_empty mount_path)
    && (not (candidate == mount_path) && not (starts_with candidate (mount_path ++ codes "/")))

abbrev pub fallback : Text → Text
fallback mount_path = mount_path ++ codes "/events"

-- `_safe_next_path`
unfoldable pub safe_next_path : Text → Text → Text
unfolding is_outside is_elsewhere
safe_next_path candidate mount_path =
    if is_outside candidate
    then fallback mount_path
    else if is_elsewhere candidate mount_path
    then fallback mount_path
    else candidate

-- A redirection, with the cookie that it sets and the cookie's age in seconds.
pub record RedirectResponse : Type 0 where
  pub location : Text
  pub cookie : Text
  pub max_age : ℕ

abbrev pub bar : ℕ
bar = 124

-- `begin_login`, for the state that `secrets.token_urlsafe` drew
unfoldable pub begin_login : Libraries → Settings → Text → Text → RedirectResponse
begin_login lib settings next_path state = record {
  location = lib.authorize_url (settings.web_base_url ++ codes "/auth/callback") state;
  cookie = state ++ bar ∷ lib.quote (safe_next_path next_path settings.web_mount_path);
  max_age = oauth_state_ttl_seconds;
}

-- `str.partition("|")`; none when the separator is not there
abbrev pub before_bar : Bool → ℕ → Text → Option (Text × Text) → Option (Text × Text)
before_bar true c s rest = some ([], s)
before_bar false c s none = none
before_bar false c s (some (head, tail)) = some (c ∷ head, tail)

unfoldable pub partition_bar : Text → Option (Text × Text)
partition_bar [] = none
partition_bar (c ∷ s) = before_bar (c == bar) c s (partition_bar s)

abbrev pub is_ascii : ℕ → Bool
is_ascii c = ltb c 128

-- `hmac.compare_digest` on texts: a text that is not ASCII is a `TypeError`
unfoldable pub compare_digest : Text → Text → Query Bool
compare_digest a b =
    Query.◌>>◌ (ensure (all is_ascii a && all is_ascii b) type_error) (Query.pure (a == b))

unfoldable pub add_web_session : WebSession → Db → Db
add_web_session row db = record db { web_sessions = db.web_sessions ++ row ∷ [] }

unfoldable pub oauth_user : Result Text → Query Text
oauth_user answer env db = answer

-- The session of the user who logged in; `raw_token` is what `secrets.token_urlsafe` drew.
unfoldable pub open_session : Libraries → Settings → User → Text → Text → Tx RedirectResponse
open_session lib settings user encoded_next_path raw_token = do
  now ← query (gets (λ env db. env.now))
  id ← uuid4
  modify (
      add_web_session (record {
        id = id;
        token_hash = lib.sha256 raw_token;
        user_id = user.id;
        expires_at = now + session_ttl;
        created_at = now;
        last_seen_at = now;
      }))
  pure (record {
    location = safe_next_path (lib.unquote encoded_next_path) settings.web_mount_path;
    cookie = raw_token;
    max_age = 28_800;
  })

-- The second database session follows the first at once, so that one transaction stands for both.
unfoldable pub complete_login :
    Libraries → Settings → Option Text → Text → Text → Text → Tx RedirectResponse
unfolding partition_bar compare_digest open_session oauth_user
complete_login lib settings raw_state code state raw_token = do
  cookie ← query (require raw_state authentication_error)
  (expected_state, encoded_next_path) ← query (require (partition_bar cookie) authentication_error)
  same ← query (compare_digest expected_state state)
  query (ensure same authentication_error)
  wecom_userid ← query (oauth_user (lib.user_id_for_code code))
  user ← query (get_user_by_wecom_userid wecom_userid true)
  open_session lib settings user encoded_next_path raw_token

-- `a or b` on texts that may be none
abbrev pub or_text : Option Text → Option Text → Option Text
or_text none b = b
or_text (some a) b = if is_empty a then b else some a

unfoldable pub put_web_session : WebSession → Db → Db
put_web_session row db = record db {
  web_sessions = update (λ s. s.id == row.id) (λ _. row) db.web_sessions;
}

-- The session that the cookie names, unless it has expired.
unfoldable pub actor_of_session : Option WebSession → Bool → Tx (Option Actor)
unfolding put_web_session
actor_of_session none current = pure none
actor_of_session (some s) false = pure none
actor_of_session (some s) true = do
  user ← query (get_user s.user_id)
  now ← query (gets (λ env db. env.now))
  modify (put_web_session (record s { last_seen_at = now }))
  pure (some (person user.id))

abbrev pub is_current : Moment → Option WebSession → Bool
is_current now none = false
is_current now (some s) = not (leb s.expires_at now)

unfoldable pub actor_of_token : Libraries → Option Text → Tx (Option Actor)
unfolding actor_of_session
actor_of_token lib none = pure none
actor_of_token lib (some token) = do
  found ← query (gets (λ env db. first (λ s. s.token_hash == lib.sha256 token) db.web_sessions))
  now ← query (gets (λ env db. env.now))
  actor_of_session found (is_current now found)

unfoldable pub actor_of_userid : Option Text → Tx (Option Actor)
actor_of_userid none = pure none
actor_of_userid (some wecom_userid) = do
  user ← query (get_user_by_wecom_userid wecom_userid true)
  pure (some (person user.id))

-- The header counts in development alone, and the cookie otherwise; empty ones count as missing.
unfoldable pub actor_for_request :
    Libraries → Settings → Option Text → Option Text → Tx (Option Actor)
unfolding actor_of_token actor_of_userid
actor_for_request lib settings header token =
    if settings.auth_mode == codes "development"
    then actor_of_userid (or_text (or_text header settings.dev_wecom_userid) none)
    else query (ensure (settings.auth_mode == codes "wecom_oauth") authentication_error)
      >> actor_of_token lib (or_text token none)
