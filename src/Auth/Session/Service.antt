-- ===== src/Auth/Session/Service.antt =====
-- backend/domains/auth/session_service.go
use league_app.Base.{
  ℕ, ◌+◌, String, Bool, true, false, not, ◌||◌, Option, none, some, List, ltb, is_set,
  if◌then◌else◌,
}
use league_app.Effects.{
  infra, auth_error, invalid_credentials, account_inactive, invalid_setup_token, M, pure, ◌>>=◌,
  ◌>>◌, require, fail_if, clock, ignore,
}
use league_app.Auth.Identity.{Identity, AuthMethod, Assignment}
use league_app.Auth.Session.Password.{
  Argon2Params, Packages, hash_password, verify_password, needs_rehash, normalize_email,
}
use league_app.Auth.Session.Db.{UserRecord, Session, AuthDb}
use league_app.Auth.Session.Store.{
  get_by_email, get_by_id, set_password, set_active, create_session, get_by_token_hash, touch,
  revoke, revoke_all_for_user, delete_expired_for_user, list_for_user, revoke_all_keys_for_user,
  create_setup_token, revoke_active_for_user, consume_and_set_password,
}

-- 7 days, 30 days and 72 hours, in seconds.
abbrev pub session_idle_timeout : ℕ
session_idle_timeout = 604800

abbrev pub session_absolute_lifetime : ℕ
session_absolute_lifetime = 2592000

abbrev pub password_setup_token_ttl : ℕ
password_setup_token_ttl = 259200

abbrev text_or_empty : Option String → String
text_or_empty none = ""
text_or_empty (some e) = e

-- `AuthMethod` is set by the HTTP layer; `method` stands for it.
abbrev pub identity_of : AuthMethod → UserRecord → List Assignment → Identity
identity_of method u assignments = record {
  user_id = u.id;
  username = u.username;
  email = text_or_empty u.email;
  active = u.active;
  player_id = u.player_id;
  player_name = u.player_name;
  assignments = assignments;
  auth_method = method;
}

unfoldable pub build_identity : AuthMethod → UserRecord → M AuthDb Identity
build_identity method u = do
  assignments ← list_for_user u.id
  pure (identity_of method u assignments)

pub record LoginResult : Type 0 where
  pub identity : Identity
  pub session_token : String
  pub csrf_token : String
  pub expires_at : ℕ

pub record ResolvedSession : Type 0 where
  pub identity : Identity
  pub session : Session

-- A session that no longer counts by itself, at the time `now`.
abbrev pub absolute_cap : Session → ℕ
absolute_cap s = s.created_at + session_absolute_lifetime

abbrev pub is_over : ℕ → Session → Bool
is_over now s = ltb s.expires_at now || ltb (absolute_cap s) now

abbrev pub slid : ℕ → Session → ℕ
slid now s =
    if ltb (absolute_cap s) (now + session_idle_timeout)
    then absolute_cap s
    else now + session_idle_timeout

abbrev is_true : Option Bool → Bool
is_true none = false
is_true (some b) = b

module _ (packages : Packages) (target : Argon2Params) (method : AuthMethod) where
  open packages use {Bytes, sha256_hex}

  abbrev pub rehash : ℕ → String → Option Bytes → M AuthDb (Unit {0})
  rehash user password none = pure tt
  rehash user password (some salt) =
      ignore (set_password user (hash_password packages password target salt))

  -- The rehash, which is skipped on every error.
  unfoldable pub rehash_on_login : ℕ → String → String → Option Bytes → M AuthDb (Unit {0})
  rehash_on_login user password encoded salt =
      if is_true (needs_rehash packages encoded target) then rehash user password salt else pure tt

  abbrev pub new_session : ℕ → String → String → ℕ → String → String → Session
  new_session user session_token csrf_token now user_agent ip_address = record {
    id = 0;
    user_id = user;
    token_hash = sha256_hex session_token;
    csrf_token_hash = sha256_hex csrf_token;
    created_at = now;
    last_seen_at = now;
    expires_at = now + session_idle_timeout;
    revoked_at = none;
    user_agent = user_agent;
    ip_address = ip_address;
  }

  -- `salt`, `session_random` and `csrf_random` are what the source of randomness gives, if anything.
  unfoldable pub login :
      String
      → String
      → String
      → String
      → Option Bytes
      → Option String
      → Option String
      → M AuthDb LoginResult
  login email password user_agent ip_address salt session_random csrf_random = do
    normalized ← require (normalize_email packages email) (auth_error invalid_credentials)
    found ← get_by_email normalized
    user ← require found (auth_error invalid_credentials)
    encoded ← require user.password_hash (auth_error invalid_credentials)
    fail_if (not user.active) (auth_error account_inactive)
    fail_if (not (is_true (verify_password packages password encoded)))
        (auth_error invalid_credentials)
    rehash_on_login user.id password encoded salt
    session_token ← require session_random infra
    csrf_token ← require csrf_random infra
    now ← clock
    create_session (new_session user.id session_token csrf_token now user_agent ip_address)
    ignore (delete_expired_for_user user.id)
    identity ← build_identity method user
    pure (record {
      identity = identity;
      session_token = session_token;
      csrf_token = csrf_token;
      expires_at = now + session_idle_timeout;
    })

  -- For a session and its user that count.
  unfoldable pub slide : ℕ → Session → UserRecord → M AuthDb (Option ResolvedSession)
  slide now s user = do
    ignore (touch s.id now (slid now s))
    identity ← build_identity method user
    pure (
        some (record {
          identity = identity;
          session = record s { last_seen_at = now; expires_at = slid now s };
        }))

  abbrev pub resolve_user : ℕ → Session → Option UserRecord → M AuthDb (Option ResolvedSession)
  resolve_user now s none = pure none
  resolve_user now s (some user) = if not user.active then pure none else slide now s user

  abbrev pub resolve_current : ℕ → Session → M AuthDb (Option ResolvedSession)
  resolve_current now s = do user ← get_by_id s.user_id; resolve_user now s user

  abbrev pub resolve_live : Session → M AuthDb (Option ResolvedSession)
  resolve_live s = do now ← clock; if is_over now s then pure none else resolve_current now s

  abbrev pub resolve_found : Option Session → M AuthDb (Option ResolvedSession)
  resolve_found none = pure none
  resolve_found (some s) = if is_set s.revoked_at then pure none else resolve_live s

  unfoldable pub resolve_session : String → M AuthDb (Option ResolvedSession)
  resolve_session session_token = do
    found ← get_by_token_hash (sha256_hex session_token)
    resolve_found found

  abbrev pub logout_found : Option Session → M AuthDb (Unit {0})
  logout_found none = pure tt
  logout_found (some s) = revoke s.id

  unfoldable pub logout : String → M AuthDb (Unit {0})
  logout session_token = do found ← get_by_token_hash (sha256_hex session_token); logout_found found

  -- `with_keys` is false where the caller passes no `APIKeyStore`.
  unfoldable pub deactivate : ℕ → Bool → M AuthDb (Unit {0})
  deactivate user with_keys = do
    set_active user false
    revoke_all_for_user user
    if with_keys then revoke_all_keys_for_user user else pure tt

  unfoldable pub reactivate : ℕ → M AuthDb (Unit {0})
  reactivate user = set_active user true

  -- `Identity`, for requests with an API key.
  unfoldable pub identity : ℕ → M AuthDb Identity
  identity user = do found ← get_by_id user; u ← require found infra; build_identity method u

  unfoldable pub issue_password_setup_token : ℕ → Option String → M AuthDb String
  issue_password_setup_token user random = do
    revoke_active_for_user user
    token ← require random infra
    now ← clock
    create_setup_token user (sha256_hex token) (now + password_setup_token_ttl)
    pure token

  unfoldable pub complete_password_setup : String → String → Option Bytes → M AuthDb (Unit {0})
  complete_password_setup token new_password salt = do
    s ← require salt infra
    done ←
        consume_and_set_password (sha256_hex token) (hash_password packages new_password target s)
    fail_if (not done) (auth_error invalid_setup_token)
