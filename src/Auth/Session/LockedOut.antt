-- ===== src/Auth/Session/LockedOut.antt =====
-- A deactivated account stays out.
use league_app.Base.{
  ℕ, ◌≡◌, ◌≢◌, String, Bool, true, Option, none, some, List, sym, refl, ◌∙◌, is_set, found_meets,
  arith,
}
use league_app.Effects.{Result, ok, err, World, pure}
use league_app.Effects.Logic.{
  Ends, Either, Ends-pure, Ends-query, Ends-exec, Ends-require, Ends-fail_if, Ends-clock, Ends-mono,
  Ends-if, Either-ok,
}
use league_app.Effects.Gives.{Gives, Gives-pure, Gives-bind, Gives-then, Gives-if, Gives-Ends}
use league_app.Effects.Keeps.{Keeps-pure, Keeps-exec, Keeps-bind, Keeps-if, Keeps-Ends}
use league_app.Auth.Identity.{AuthMethod}
use league_app.Auth.Session.Password.{Argon2Params, Packages}
use league_app.Auth.Session.Db.{AuthDb, UserRecord, Session}
use league_app.Auth.Session.Store.{
  get_by_email, get_by_id, set_active, get_by_token_hash, create_setup_token, user_by_id,
}
use league_app.Auth.Session.Service.{
  LoginResult, ResolvedSession, is_over, build_identity, login, slide, resolve_session, deactivate,
  resolve_found, resolve_live, resolve_current, resolve_user,
}
use league_app.Auth.Session.Keeping.{IsFine, serve-Keeps}
use league_app.Auth.Session.Requests.{
  Request, Timed, All, at_time, log_in, resolve, log_out, lock, unlock, issue, set_up, serve_all,
  serve_all-Keeps,
}
use league_app.Auth.Session.Lock.{
  is_out, LockedOut, put_inactive-self, put_active-LockedOut, same_users, is_true_of,
  LockedOut-KeptByStore,
}

-- The request does not reactivate the user.
abbrev pub NoUnlock : {packages : Packages} → ℕ → Request packages → Type 0
NoUnlock user (unlock id) = id ≢ user
NoUnlock user _ = Unit

module _ (packages : Packages) (target : Argon2Params) (method : AuthMethod) (user : ℕ) where
  open packages use {Bytes}

  NoUnlock-IsFine :
      (r : Request packages)
      → NoUnlock user r
      → IsFine packages target method (LockedOut-KeptByStore user) r
  unfolding set_active create_setup_token
  NoUnlock-IsFine (unlock id) h = Keeps-exec _ (λ now d i. put_active-LockedOut user id d.users h i)
  NoUnlock-IsFine (issue id random) h = λ t e expires. same_users user _ (λ now d. refl)
  NoUnlock-IsFine (log_in email password agent ip salt r1 r2) h = tt
  NoUnlock-IsFine (resolve token) h = tt
  NoUnlock-IsFine (log_out token) h = tt
  NoUnlock-IsFine (lock id keys) h = tt
  NoUnlock-IsFine (set_up token password salt) h = tt

  -- A resolved session or a login is not the user's.
  abbrev pub NotResolved : Result (Option ResolvedSession) → Type 0
  NotResolved (ok (some rs)) = rs.identity.user_id ≢ user
  NotResolved _ = Unit

  abbrev pub NotLoggedIn : Result LoginResult → Type 0
  NotLoggedIn (ok l) = l.identity.user_id ≢ user
  NotLoggedIn (err e) = Unit

  active_other : (u : UserRecord) → is_out user u ≡ true → u.active ≡ true → u.id ≢ user
  active_other u out a = ground arith

  build_identity-Gives :
      (u : UserRecord)
      → Gives (λ r. Either r (λ x. x.user_id ≡ u.id) (λ e. Unit)) (build_identity method u)
  unfolding build_identity
  build_identity-Gives u = Gives-then _ _ _ (λ e. tt) (λ a. Gives-pure _ _ refl)

  slide-Refused :
      (now : ℕ) (row : Session) (u : UserRecord)
      → u.id ≢ user
      → Gives NotResolved (slide packages target method now row u)
  unfolding slide
  slide-Refused now row u other =
      Gives-then NotResolved _ _ (λ e. tt)
        λ a.
          Gives-bind NotResolved _ _ _ (λ e. tt) (build_identity-Gives u)
            (λ x e. Gives-pure NotResolved _ (λ h. other (sym e ∙ h)))

  resolve_user-Refused :
      (now : ℕ) (row : Session) (o : Option UserRecord)
      → ((u : UserRecord) → o ≡ some u → is_out user u ≡ true)
      → Gives NotResolved (resolve_user packages target method now row o)
  resolve_user-Refused now row none h = Gives-pure NotResolved none tt
  resolve_user-Refused now row (some u) h =
      Gives-if NotResolved _ _ _ (λ idle. Gives-pure NotResolved none tt)
        (λ active. slide-Refused now row u (active_other u (h u refl) (is_true_of u.active active)))

  resolve_found-Refused :
      (s : AuthDb) (o : Option Session)
      → LockedOut user s
      → Ends s (resolve_found packages target method o) (λ r d. NotResolved r)
  unfolding get_by_id
  resolve_found-Refused s none out = Ends-pure tt
  resolve_found-Refused s (some row) out =
      Ends-if (is_set row.revoked_at) (pure none) (resolve_live packages target method row)
        (λ gone. Ends-pure tt)
        λ live. Ends-clock _ λ now.
          Ends-if (is_over now row) (pure none) (resolve_current packages target method now row)
            (λ over. Ends-pure tt)
            λ on.
              Ends-query (user_by_id row.user_id) (resolve_user packages target method now row) tt (
                Gives-Ends NotResolved _ (
                  resolve_user-Refused now row (user_by_id row.user_id s)
                    (λ u found. (found_meets _ (is_out user) s.users u out found).1)))

  resolve_session-Refused :
      (s : AuthDb) (token : String)
      → LockedOut user s
      → Ends s (resolve_session packages target method token) (λ r d. NotResolved r)
  unfolding resolve_session get_by_token_hash
  resolve_session-Refused s token out = Ends-query _ _ tt (resolve_found-Refused s _ out)

  login-Refused :
      (s : AuthDb) (email password agent ip : String) (salt : Option Bytes) (r1 r2 : Option String)
      → LockedOut user s
      → Ends s
          (login packages target method email password agent ip salt r1 r2)
          (λ r d. NotLoggedIn r)
  unfolding login get_by_email
  login-Refused s email password agent ip salt r1 r2 out =
      Ends-require _ _ _ (λ _. tt)
        λ normalized valid. Ends-query _ _ tt (
          Ends-require _ _ _ (λ _. tt)
            λ u found.
              Ends-require _ _ _ (λ _. tt)
                λ encoded set.
                  Ends-fail_if _ _ _ (λ _. tt)
                    λ active.
                      let other =
                        active_other u (found_meets _ (is_out user) s.users u out found).1
                          (is_true_of u.active active) in
                      Ends-fail_if _ _ _ (λ _. tt)
                        λ verified. Gives-Ends NotLoggedIn _ (
                          Gives-then NotLoggedIn _ _ (λ e. tt)
                            λ a.
                              Gives-then NotLoggedIn _ _ (λ e. tt)
                                λ t1.
                                  Gives-then NotLoggedIn _ _ (λ e. tt)
                                    λ t2.
                                      Gives-then NotLoggedIn _ _ (λ e. tt)
                                        λ now.
                                          Gives-then NotLoggedIn _ _ (λ e. tt)
                                            λ made.
                                              Gives-then NotLoggedIn _ _ (λ e. tt)
                                                λ cleaned.
                                                  Gives-bind NotLoggedIn _ _ _ (λ e. tt)
                                                    (build_identity-Gives u)
                                                    (λ x e.
                                                      Gives-pure NotLoggedIn _
                                                        (λ h. other (sym e ∙ h)))))

  deactivate-LockedOut :
      (s : AuthDb) (keys : Bool)
      → Ends s
          (deactivate packages target method user keys)
          (λ r d. Either r (λ a. LockedOut user d) (λ e. Unit))
  unfolding deactivate set_active
  deactivate-LockedOut s keys = Ends-exec _ _ tt λ now.
      Ends-mono
        (Keeps-Ends _
          (Keeps-bind _ _ ((LockedOut-KeptByStore user).all_revoked user)
            λ a. Keeps-if _ _ _ ((LockedOut-KeptByStore user).keys user) (Keeps-pure tt))
          (put_inactive-self user s))
        (elim [ ok a ↦ λ d h. h | err e ↦ λ d h. tt ])

  -- After a successful deactivation, through any requests that do not reactivate the user, no token
  -- resolves to the user and no login is the user's: whatever the times, whatever calls fail, and
  -- also where sessions were left unrevoked.
  pub deactivate-stays_out :
      (keys : Bool) (rs : List (Timed packages)) (w : World AuthDb) (t : ℕ)
      (token email password agent ip : String) (salt : Option Bytes) (r1 r2 : Option String)
      → (deactivate packages target method user keys w).0 ≡ ok tt
      → All (NoUnlock user) rs
      → let after =
          at_time t (
            serve_all packages target method rs
              (deactivate packages target method user keys w).1) in
        NotResolved (resolve_session packages target method token after).0
        × NotLoggedIn (login packages target method email password agent ip salt r1 r2 after).0
  deactivate-stays_out keys rs w t token email password agent ip salt r1 r2 done all =
      let first : LockedOut user (deactivate packages target method user keys w).1.db =
        Either-ok (λ a. LockedOut user (deactivate packages target method user keys w).1.db)
          (λ e. Unit {0}) _ tt done ((deactivate-LockedOut w.db keys).run w refl) in
      let out : LockedOut user
          (serve_all packages target method rs
            (deactivate packages target method user keys w).1).db =
        serve_all-Keeps packages target method (LockedOut user) (NoUnlock user)
          (λ r h.
            serve-Keeps packages target method (LockedOut-KeptByStore user) r (NoUnlock-IsFine r h))
          rs all _ first in
      (
        (resolve_session-Refused _ token out).run _ refl,
        (login-Refused _ email password agent ip salt r1 r2 out).run _ refl,
      )
