-- ===== src/Auth/Session/Store.antt =====
-- The statements of backend/storage/sqlite: auth_user_store.go, session_store.go,
-- password_setup_token_store.go, role_assignment_store.go (its list) and user_api_key_admin_store.go.
use league_app.Base.{
  ℕ, suc, String, str_eq, Bool, true, false, not, ◌&&◌, ◌||◌, Option, none, some, List, [], ◌∷◌,
  ◌++◌, map, ◌==◌, ltb, is_set, find_first, update_all, keep_if, if◌then◌else◌,
}
use league_app.Effects.{M, pure, ◌>>=◌, ◌>>◌, query, exec, run_tx, clock}
use league_app.Auth.Identity.{Assignment}
use league_app.Auth.Session.Db.{UserRecord, Session, SetupToken, AuthDb}

abbrev pub has_email : String → Option String → Bool
has_email e none = false
has_email e (some f) = str_eq f e

abbrev pub user_by_email : String → AuthDb → Option UserRecord
user_by_email e d = find_first (λ u. has_email e u.email) d.users

abbrev pub user_by_id : ℕ → AuthDb → Option UserRecord
user_by_id id d = find_first (λ u. u.id == id) d.users

unfoldable pub get_by_email : String → M AuthDb (Option UserRecord)
get_by_email e = query (user_by_email e)

unfoldable pub get_by_id : ℕ → M AuthDb (Option UserRecord)
get_by_id id = query (user_by_id id)

-- `UPDATE users SET password_hash = ?, ..., must_reset_password = 0 WHERE id = ?`
abbrev pub put_password : ℕ → String → AuthDb → AuthDb
put_password id encoded d = record d {
  users =
      update_all (λ u. u.id == id)
        (λ u. record u { password_hash = some encoded; must_reset_password = false }) d.users;
}

unfoldable pub set_password : ℕ → String → M AuthDb (Unit {0})
set_password id encoded = exec (λ now d. (tt, put_password id encoded d))

abbrev pub put_active : ℕ → Bool → AuthDb → AuthDb
put_active id active d = record d {
  users = update_all (λ u. u.id == id) (λ u. record u { active = active }) d.users;
}

unfoldable pub set_active : ℕ → Bool → M AuthDb (Unit {0})
set_active id active = exec (λ now d. (tt, put_active id active d))

abbrev pub insert_session : Session → AuthDb → AuthDb
insert_session s d = record d {
  sessions = d.sessions ++ record s { id = d.next_session } ∷ [];
  next_session = suc d.next_session;
}

unfoldable pub create_session : Session → M AuthDb (Unit {0})
create_session s = exec (λ now d. (tt, insert_session s d))

abbrev pub session_by_hash : String → AuthDb → Option Session
session_by_hash h d = find_first (λ s. str_eq s.token_hash h) d.sessions

unfoldable pub get_by_token_hash : String → M AuthDb (Option Session)
get_by_token_hash h = query (session_by_hash h)

abbrev pub put_touch : ℕ → ℕ → ℕ → AuthDb → AuthDb
put_touch id seen expires d = record d {
  sessions =
      update_all (λ s. s.id == id) (λ s. record s { last_seen_at = seen; expires_at = expires })
        d.sessions;
}

unfoldable pub touch : ℕ → ℕ → ℕ → M AuthDb (Unit {0})
touch id seen expires = exec (λ now d. (tt, put_touch id seen expires d))

abbrev pub revoke_at : ℕ → Session → Session
revoke_at now s = record s { revoked_at = some now }

unfoldable pub revoke : ℕ → M AuthDb (Unit {0})
revoke id =
    exec (λ now d.
      (tt, record d { sessions = update_all (λ s. s.id == id) (revoke_at now) d.sessions }))

abbrev pub is_live_of : ℕ → Session → Bool
is_live_of user s = s.user_id == user && not (is_set s.revoked_at)

unfoldable pub revoke_all_for_user : ℕ → M AuthDb (Unit {0})
revoke_all_for_user user =
    exec (λ now d.
      (tt, record d { sessions = update_all (is_live_of user) (revoke_at now) d.sessions }))

abbrev pub is_stale_of : ℕ → ℕ → Session → Bool
is_stale_of user now s = s.user_id == user && (ltb s.expires_at now || is_set s.revoked_at)

unfoldable pub delete_expired_for_user : ℕ → M AuthDb (Unit {0})
delete_expired_for_user user =
    exec (λ now d.
      (tt, record d { sessions = keep_if (λ s. not (is_stale_of user now s)) d.sessions }))

unfoldable pub list_for_user : ℕ → M AuthDb (List Assignment)
list_for_user user = query (λ d. map (λ r. r.assignment) (keep_if (λ r. r.user_id == user) d.roles))

unfoldable pub revoke_all_keys_for_user : ℕ → M AuthDb (Unit {0})
revoke_all_keys_for_user user = exec (λ now d. (
  tt,
  record d {
    api_keys =
        update_all (λ k. k.user_id == user && not (is_set k.revoked_at))
          (λ k. record k { revoked_at = some now }) d.api_keys;
  },
))

unfoldable pub create_setup_token : ℕ → String → ℕ → M AuthDb (Unit {0})
create_setup_token user h expires = exec (λ now d. (
  tt,
  record d {
    setup_tokens =
        d.setup_tokens
        ++ record {
          user_id = user;
          token_hash = h;
          expires_at = expires;
          used_at = none;
          revoked_at = none;
        }
          ∷ [];
  },
))

abbrev pub is_active_token_of : ℕ → SetupToken → Bool
is_active_token_of user t =
    t.user_id == user && (not (is_set t.used_at) && not (is_set t.revoked_at))

unfoldable pub revoke_active_for_user : ℕ → M AuthDb (Unit {0})
revoke_active_for_user user = exec (λ now d. (
  tt,
  record d {
    setup_tokens =
        update_all (is_active_token_of user) (λ t. record t { revoked_at = some now })
          d.setup_tokens;
  },
))

abbrev pub token_by_hash : String → AuthDb → Option SetupToken
token_by_hash h d = find_first (λ t. str_eq t.token_hash h) d.setup_tokens

abbrev pub is_dead_token : ℕ → SetupToken → Bool
is_dead_token now t = is_set t.used_at || (is_set t.revoked_at || ltb t.expires_at now)

abbrev pub mark_used : String → ℕ → AuthDb → AuthDb
mark_used h now d = record d {
  setup_tokens =
      update_all (λ t. str_eq t.token_hash h) (λ t. record t { used_at = some now }) d.setup_tokens;
}

-- The two writes for a token that is alive.
abbrev pub consume : String → String → SetupToken → M AuthDb Bool
consume h encoded t = do
  exec (λ now d. (tt, put_password t.user_id encoded d))
  exec (λ now d. (tt, mark_used h now d))
  pure true

abbrev pub consume_found : String → String → Option SetupToken → M AuthDb Bool
consume_found h encoded none = pure false
consume_found h encoded (some t) = do
  now ← clock
  if is_dead_token now t then pure false else consume h encoded t

-- `ConsumeAndSetPassword`; the user's id that it also returns is read by nobody. Where it returns
-- false the code rolls back a database that it has not changed; here that end is a commit, whose
-- failure is an error.
unfoldable pub consume_and_set_password : String → String → M AuthDb Bool
consume_and_set_password h encoded =
    run_tx (do found ← query (token_by_hash h); consume_found h encoded found)
