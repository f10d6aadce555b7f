-- ===== src/Auth/Session/Keeping.antt =====
-- What every statement of the stores keeps, every request keeps.
use league_app.Base.{ℕ, String, Bool, true, false, Option, none, some, ◌≡◌}
use league_app.Effects.{exec}
use league_app.Effects.Keeps.{
  Keeps, Keeps-pure, Keeps-query, Keeps-bind, Keeps-require, Keeps-if, Keeps-run_tx, Keeps-clock,
  Keeps-fail_if, Keeps-ignore, Keeps-require_bind,
}
use league_app.Auth.Identity.{AuthMethod}
use league_app.Auth.Session.Password.{Argon2Params, Packages}
use league_app.Auth.Session.Db.{AuthDb, UserRecord, Session, SetupToken}
use league_app.Auth.Session.Store.{
  get_by_email, get_by_id, set_password, set_active, create_session, get_by_token_hash, touch,
  revoke, revoke_all_for_user, delete_expired_for_user, list_for_user, revoke_all_keys_for_user,
  create_setup_token, revoke_active_for_user, consume_and_set_password, put_password, mark_used,
  consume_found,
}
use league_app.Auth.Session.Service.{
  build_identity, rehash_on_login, login, slide, resolve_session, logout, deactivate, reactivate,
  issue_password_setup_token, complete_password_setup, resolve_found, resolve_user, logout_found,
  rehash,
}
use league_app.Auth.Session.Requests.{
  Request, log_in, resolve, log_out, lock, unlock, issue, set_up, serve,
}

pub record KeptByStore (I : AuthDb → Type 0) : Type 0 where
  pub password : (id : ℕ) (encoded : String) → Keeps I (set_password id encoded)
  pub consumed :
      (id : ℕ) (encoded : String) → Keeps I (exec (λ now d. (tt, put_password id encoded d)))
  pub inactive : (id : ℕ) → Keeps I (set_active id false)
  pub created : (s : Session) → Keeps I (create_session s)
  pub touched : (id seen expires : ℕ) → Keeps I (touch id seen expires)
  pub revoked : (id : ℕ) → Keeps I (revoke id)
  pub all_revoked : (user : ℕ) → Keeps I (revoke_all_for_user user)
  pub deleted : (user : ℕ) → Keeps I (delete_expired_for_user user)
  pub keys : (user : ℕ) → Keeps I (revoke_all_keys_for_user user)
  pub tokens : (user : ℕ) → Keeps I (revoke_active_for_user user)
  pub used : (h : String) → Keeps I (exec (λ now d. (tt, mark_used h now d)))

module _ (packages : Packages) (target : Argon2Params) (method : AuthMethod) {I : AuthDb → Type 0}
    (k : KeptByStore I) where
  open packages use {Bytes, sha256_hex}

  build_identity-Keeps : (u : UserRecord) → Keeps I (build_identity method u)
  unfolding build_identity list_for_user
  build_identity-Keeps u = Keeps-bind _ _ (Keeps-query _) (λ a. Keeps-pure _)

  rehash-Keeps :
      (user : ℕ) (password : String) (salt : Option Bytes)
      → Keeps I (rehash packages target method user password salt)
  rehash-Keeps user password none = Keeps-pure tt
  rehash-Keeps user password (some salt) = Keeps-ignore _ (k.password user _)

  rehash_on_login-Keeps :
      (user : ℕ) (password encoded : String) (salt : Option Bytes)
      → Keeps I (rehash_on_login packages target method user password encoded salt)
  unfolding rehash_on_login
  rehash_on_login-Keeps user password encoded salt =
      Keeps-if _ _ _ (rehash-Keeps user password salt) (Keeps-pure tt)

  login-Keeps :
      (email password agent ip : String) (salt : Option Bytes) (r1 r2 : Option String)
      → Keeps I (login packages target method email password agent ip salt r1 r2)
  unfolding login get_by_email
  login-Keeps email password agent ip salt r1 r2 = Keeps-bind _ _ (Keeps-require _ _) λ normalized.
      Keeps-bind _ _ (Keeps-query _) λ found. Keeps-bind _ _ (Keeps-require _ _) λ user.
        Keeps-bind _ _ (Keeps-require _ _) λ encoded. Keeps-bind _ _ (Keeps-fail_if _ _) λ active.
          Keeps-bind _ _ (Keeps-fail_if _ _) λ verified.
            Keeps-bind _ _ (rehash_on_login-Keeps user.id password encoded salt) λ rehashed.
              Keeps-bind _ _ (Keeps-require _ _) λ t1. Keeps-bind _ _ (Keeps-require _ _) λ t2.
                Keeps-bind _ _ Keeps-clock λ now. Keeps-bind _ _ (k.created _) λ made.
                  Keeps-bind _ _ (Keeps-ignore _ (k.deleted user.id))
                    λ cleaned. Keeps-bind _ _ (build_identity-Keeps user) λ identity. Keeps-pure _

  slide-Keeps :
      (now : ℕ) (s : Session) (u : UserRecord) → Keeps I (slide packages target method now s u)
  unfolding slide
  slide-Keeps now s u =
      Keeps-bind _ _ (Keeps-ignore _ (k.touched _ _ _))
        λ touched. Keeps-bind _ _ (build_identity-Keeps u) λ identity. Keeps-pure _

  resolve_user-Keeps :
      (now : ℕ) (s : Session) (o : Option UserRecord)
      → Keeps I (resolve_user packages target method now s o)
  resolve_user-Keeps now s none = Keeps-pure none
  resolve_user-Keeps now s (some u) = Keeps-if _ _ _ (Keeps-pure none) (slide-Keeps now s u)

  resolve_found-Keeps : (o : Option Session) → Keeps I (resolve_found packages target method o)
  unfolding get_by_id
  resolve_found-Keeps none = Keeps-pure none
  resolve_found-Keeps (some s) = Keeps-if _ _ _ (Keeps-pure none) (
      Keeps-bind _ _ Keeps-clock λ now.
        Keeps-if _ _ _ (Keeps-pure none)
          (Keeps-bind _ _ (Keeps-query _) λ u. resolve_user-Keeps now s u))

  resolve_session-Keeps : (token : String) → Keeps I (resolve_session packages target method token)
  unfolding resolve_session get_by_token_hash
  resolve_session-Keeps token = Keeps-bind _ _ (Keeps-query _) λ found. resolve_found-Keeps found

  logout_found-Keeps : (o : Option Session) → Keeps I (logout_found packages target method o)
  logout_found-Keeps none = Keeps-pure tt
  logout_found-Keeps (some s) = k.revoked s.id

  logout-Keeps : (token : String) → Keeps I (logout packages target method token)
  unfolding logout get_by_token_hash
  logout-Keeps token = Keeps-bind _ _ (Keeps-query _) λ found. logout_found-Keeps found

  deactivate-Keeps :
      (user : ℕ) (with_keys : Bool) → Keeps I (deactivate packages target method user with_keys)
  unfolding deactivate
  deactivate-Keeps user with_keys =
      Keeps-bind _ _ (k.inactive user)
        λ a. Keeps-bind _ _ (k.all_revoked user) λ b. Keeps-if _ _ _ (k.keys user) (Keeps-pure tt)

  consume_found-Keeps :
      (h encoded : String) (o : Option SetupToken) → Keeps I (consume_found h encoded o)
  consume_found-Keeps h encoded none = Keeps-pure false
  consume_found-Keeps h encoded (some t) = Keeps-bind _ _ Keeps-clock λ now.
      Keeps-if _ _ _ (Keeps-pure false) (
        Keeps-bind _ _ (k.consumed t.user_id encoded)
          λ a. Keeps-bind _ _ (k.used h) λ b. Keeps-pure true)

  complete_password_setup-Keeps :
      (token password : String) (salt : Option Bytes)
      → Keeps I (complete_password_setup packages target method token password salt)
  unfolding complete_password_setup consume_and_set_password
  complete_password_setup-Keeps token password salt = Keeps-bind _ _ (Keeps-require _ _) λ s.
      Keeps-bind _ _
        (Keeps-run_tx _ (Keeps-bind _ _ (Keeps-query _) λ found. consume_found-Keeps _ _ found))
        λ done. Keeps-fail_if _ _

  -- What a request needs beyond the statements that every database keeps `I` through.
  abbrev pub IsFine : Request packages → Type 0
  IsFine (unlock user) = Keeps I (set_active user true)
  IsFine (issue user random) =
      (t : String)
      → random ≡ some t
      → (expires : ℕ) → Keeps I (create_setup_token user (sha256_hex t) expires)
  IsFine _ = Unit

  pub serve-Keeps : (r : Request packages) → IsFine r → Keeps I (serve packages target method r)
  unfolding serve reactivate issue_password_setup_token
  serve-Keeps (log_in email password agent ip salt r1 r2) fine =
      Keeps-bind _ _ (login-Keeps email password agent ip salt r1 r2) λ a. Keeps-pure tt
  serve-Keeps (resolve token) fine = Keeps-bind _ _ (resolve_session-Keeps token) λ a. Keeps-pure tt
  serve-Keeps (log_out token) fine = logout-Keeps token
  serve-Keeps (lock user keys) fine = deactivate-Keeps user keys
  serve-Keeps (unlock user) fine = fine
  serve-Keeps (issue user random) fine =
      Keeps-bind _ _
        (Keeps-bind _ _ (k.tokens user) λ a.
          Keeps-require_bind _ _ _
            λ t e. Keeps-bind _ _ Keeps-clock λ now. Keeps-bind _ _ (fine t e _) λ c. Keeps-pure t)
        λ a. Keeps-pure tt
  serve-Keeps (set_up token password salt) fine = complete_password_setup-Keeps token password salt
