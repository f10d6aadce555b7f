-- ===== src/Auth/Session/Db.antt =====
-- The rows of `users`, `sessions`, `password_setup_tokens`, `role_assignments` and `user_api_keys`
-- that the session service reads and writes. Times are seconds.
use league_app.Base.{ℕ, String, Bool, Option, List}
use league_app.Auth.Identity.{Assignment}

-- `UserRecord` of auth/store.go.
pub record UserRecord : Type 0 where
  pub id : ℕ
  pub username : String
  pub email : Option String
  pub password_hash : Option String
  pub active : Bool
  pub player_id : Option ℕ
  pub player_name : String
  pub must_reset_password : Bool

-- `Session` of auth/store.go.
pub record Session : Type 0 where
  pub id : ℕ
  pub user_id : ℕ
  pub token_hash : String
  pub csrf_token_hash : String
  pub created_at : ℕ
  pub last_seen_at : ℕ
  pub expires_at : ℕ
  pub revoked_at : Option ℕ
  pub user_agent : String
  pub ip_address : String

pub record SetupToken : Type 0 where
  pub user_id : ℕ
  pub token_hash : String
  pub expires_at : ℕ
  pub used_at : Option ℕ
  pub revoked_at : Option ℕ

pub record ApiKey : Type 0 where
  pub user_id : ℕ
  pub revoked_at : Option ℕ

pub record RoleRow : Type 0 where
  pub user_id : ℕ
  pub assignment : Assignment

pub record AuthDb : Type 0 where
  pub users : List UserRecord
  pub sessions : List Session
  pub setup_tokens : List SetupToken
  pub roles : List RoleRow
  pub api_keys : List ApiKey
  -- the next `rowid` of sessions
  pub next_session : ℕ
