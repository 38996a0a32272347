-- ===== src/WebAuth/Login.antt =====
-- A login of src/kefu/web/auth.py, from its start to the requests that its cookie carries.
use message_router.Prelude.{
  ◌+◌, ◌≡◌, refl, ◌∙◌, true, false, none, some, [], ◌∷◌, ◌++◌, ◌==◌, nat_eq, text_eq, list_beq,
  equal_refl, leb, if◌then◌else◌, Text, codes, is_empty, first, first-append_match, All, all,
  Bool-cases, Option-cases, inl, inr, ◌⊎◌,
}
use message_router.Models.{Uuid, User, WebSession}
use message_router.Session.{Db, Env, ok}
use message_router.Session.Query
use message_router.Session.Query.{gets, require, ensure}
use message_router.Session.Tx.{Session, transact, ◌>>=◌}
use message_router.Directory.Lookup.{get_user, get_user_if, user_by_id, get_user_by_wecom_userid}
use message_router.CaseDesk.Commands.{person}
use message_router.WebAuth.{
  Libraries, Settings, RedirectResponse, session_ttl, is_outside, is_elsewhere, fallback,
  safe_next_path, bar, is_ascii, compare_digest, partition_bar, begin_login, add_web_session,
  oauth_user, open_session, complete_login, actor_of_session, actor_of_token, actor_for_request,
}

safe_by_tests :
    (candidate mount_path : Text)
    → (safe_next_path candidate mount_path ≡ fallback mount_path)
      ⊎ ((safe_next_path candidate mount_path ≡ candidate)
          × (is_outside candidate ≡ false)
          × (is_elsewhere candidate mount_path ≡ false))
unfolding safe_next_path
safe_by_tests candidate mount_path = elim (Bool-cases (is_outside candidate)) [
  | inl t ↦ inl (rw t refl)
  | inr n ↦ elim (Bool-cases (is_elsewhere candidate mount_path)) [
    | inl t ↦ inl (rw n (rw t refl))
    | inr m ↦ inr (rw n (rw m refl), n, m)
  ]
]

safe_next_path-fallback :
    (mount_path : Text) → safe_next_path (fallback mount_path) mount_path ≡ fallback mount_path
safe_next_path-fallback mount_path = elim (safe_by_tests (fallback mount_path) mount_path) [
  | inl e ↦ e
  | inr (e, _, _) ↦ e
]

safe_next_path-safe_next_path :
    (candidate mount_path : Text)
    → safe_next_path (safe_next_path candidate mount_path) mount_path
      ≡ safe_next_path candidate mount_path
safe_next_path-safe_next_path candidate mount_path = elim (safe_by_tests candidate mount_path) [
  | inl e ↦ rw e (safe_next_path-fallback mount_path)
  | inr (e, _, _) ↦ rw e e
]

partition_bar-append :
    (s t : Text) → All (λ c. (c == bar) ≡ false) s → partition_bar (s ++ bar ∷ t) ≡ some (s, t)
unfolding partition_bar
partition_bar-append [] t h = refl
partition_bar-append (c ∷ s) t (n, h) = rw n (rw (partition_bar-append s t h) refl)

-- The row that a login adds.
abbrev new_session : Libraries → Env → User → Text → WebSession
new_session lib env user token = record {
  id = env.uuid 0;
  token_hash = lib.sha256 token;
  user_id = user.id;
  expires_at = env.now + session_ttl;
  created_at = env.now;
  last_seen_at = env.now;
}

get_user-add_web_session :
    (id : Uuid) (row : WebSession) (env : Env) (db : Db)
    → get_user id env (add_web_session row db) ≡ get_user id env db
unfolding get_user get_user_if user_by_id add_web_session Query.◌>>=◌ require ensure gets
get_user-add_web_session id row env db = elim (Option-cases (first (λ u. u.id == id) db.users)) [
  | inl n ↦ rw n refl
  | inr (u, e) ↦ elim (Bool-cases u.active) [ inl t ↦ rw e (rw t refl) | inr f ↦ rw e (rw f refl) ]
]

module _ (lib : Libraries) (settings : Settings) (env : Env) (db : Db) (user : User)
    (next_path state code token wecom_userid : Text) (no_bar : All (λ c. (c == bar) ≡ false) state)
    (plain : all is_ascii state ≡ true) (unquoted : (s : Text) → lib.unquote (lib.quote s) ≡ s)
    (answered : lib.user_id_for_code code ≡ ok wecom_userid)
    (known : get_user_by_wecom_userid wecom_userid true env db ≡ ok user) where
  abbrev start : Session
  start = record { db = db; drawn = 0; chosen = 0 }

  -- The login that was begun with the same state is completed.
  completed :
      transact
        (complete_login lib settings
          (some (begin_login lib settings next_path state).cookie)
          code
          state
          token)
        env
        db
      ≡ (
        ok (record {
          location = safe_next_path next_path settings.web_mount_path;
          cookie = token;
          max_age = 28_800;
        }),
        add_web_session (new_session lib env user token) db,
      )
  unfolding transact complete_login begin_login compare_digest Query.◌>>=◌ oauth_user open_session
      ◌>>=◌ gets require ensure
  completed =
      let path = lib.quote (safe_next_path next_path settings.web_mount_path) in
      rw (partition_bar-append state path no_bar) (
        rw plain (
          rw (equal_refl state) (
            rw answered (
              rw known (
                rw (unquoted (safe_next_path next_path settings.web_mount_path))
                  (rw (safe_next_path-safe_next_path next_path settings.web_mount_path) refl))))))

  module _ (env' : Env) (oauth : settings.auth_mode ≡ codes "wecom_oauth")
      (drawn : is_empty token ≡ false)
      (fresh : first (λ s. s.token_hash == lib.sha256 token) db.web_sessions ≡ none)
      (active : get_user user.id env' db ≡ ok user) where
    found_session :
        first
          (λ s. s.token_hash == lib.sha256 token)
          (add_web_session (new_session lib env user token) db).web_sessions
        ≡ some (new_session lib env user token)
    unfolding add_web_session
    found_session =
        first-append_match (λ s. s.token_hash == lib.sha256 token) db.web_sessions
          (new_session lib env user token) fresh (equal_refl (lib.sha256 token))

    still_active :
        get_user user.id env' (add_web_session (new_session lib env user token) db) ≡ ok user
    still_active =
        get_user-add_web_session user.id (new_session lib env user token) env' db ∙ active

    -- The request that carries the cookie, by whether the session lasts.
    carried :
        (transact
          (actor_for_request lib settings none (some token))
          env'
          (add_web_session (new_session lib env user token) db)).0
        ≡ ok (if leb (env.now + session_ttl) env'.now then none else some (person user.id))
    unfolding transact actor_for_request actor_of_token actor_of_session ◌>>=◌ gets ensure list_beq
    carried = rw oauth (
        rw drawn (
          rw found_session (elim (Bool-cases (leb (env.now + session_ttl) env'.now)) [
            | inl t ↦ rw t refl
            | inr n ↦ rw n (rw still_active refl)
          ])))

    -- In the mode `wecom_oauth`, when a login was begun with an ASCII state without a bar, the platform answers
    -- the code with a userid that is an active user's, the drawn token is not empty and its hash is no
    -- session's yet, and the user is still active when the cookie comes back: the login is completed, it
    -- leads to the safe path for the one that was asked for, and a request with its cookie is the user's
    -- before the eight hours are over, and nobody's from then on. `unquote` undoes `quote`.
    pub complete_login-actor_for_request :
        (r : RedirectResponse) × (db' : Db) × (transact
            (complete_login lib settings
              (some (begin_login lib settings next_path state).cookie)
              code
              state
              token)
            env
            db
          ≡ (ok r, db'))
        × (r.location ≡ safe_next_path next_path settings.web_mount_path)
        × ((transact (actor_for_request lib settings none (some r.cookie)) env' db').0
            ≡ ok (if leb (env.now + session_ttl) env'.now then none else some (person user.id)))
    complete_login-actor_for_request = (_, _, completed, refl, carried)
