-- ===== src/Auth/Session/Lock.antt =====
-- The rows of a user who is inactive.
use league_app.Base.{
  ℕ, ◌≡◌, ◌≢◌, String, Bool, true, false, not, ◌&&◌, List, [], ◌∷◌, ◌==◌, subst, sym, refl,
  forall_in, update_all, forall_in-update_all, forall_in-update_some, arith,
}
use league_app.Effects.{exec}
use league_app.Effects.Keeps.{Keeps, Keeps-exec}
use league_app.Auth.Session.Db.{AuthDb, UserRecord}
use league_app.Auth.Session.Store.{
  set_password, set_active, create_session, touch, revoke, revoke_all_for_user,
  delete_expired_for_user, revoke_all_keys_for_user, revoke_active_for_user, put_password,
  put_active,
}
use league_app.Auth.Session.Keeping.{KeptByStore}

-- Every row of the user is inactive.
abbrev pub is_out : ℕ → UserRecord → Bool
is_out user u = not (u.id == user && u.active)

abbrev pub LockedOut : ℕ → AuthDb → Type 0
LockedOut user d = forall_in (is_out user) d.users ≡ true

pub put_password-LockedOut :
    (user id : ℕ) (encoded : String) (d : AuthDb)
    → LockedOut user d
    → LockedOut user (put_password id encoded d)
put_password-LockedOut user id encoded d h =
    forall_in-update_all _ _ (is_out user) d.users (λ u q. q) h

pub put_inactive-LockedOut :
    (user id : ℕ) (d : AuthDb) → LockedOut user d → LockedOut user (put_active id false d)
put_inactive-LockedOut user id d h =
    forall_in-update_all _ _ (is_out user) d.users (λ u q. ground arith) h

pub put_inactive-self : (user : ℕ) (d : AuthDb) → LockedOut user (put_active user false d)
put_inactive-self user d =
    forall_in-update_some _ _ (is_out user) d.users (λ u p. ground arith) (λ u p. ground arith)

pub put_active-LockedOut :
    (user id : ℕ) (us : List UserRecord)
    → id ≢ user
    → forall_in (is_out user) us ≡ true
    → forall_in (is_out user) (update_all (λ u. u.id == id) (λ u. record u { active = true }) us)
      ≡ true
put_active-LockedOut user id [] ne h = refl
put_active-LockedOut user id (u ∷ us) ne h =
    let ih = put_active-LockedOut user id us ne in ground arith

-- A statement that leaves the users alone.
pub same_users :
    {A : Type 0} (user : ℕ) (f : ℕ → AuthDb → A × AuthDb)
    → ((now : ℕ) (d : AuthDb) → (f now d).1.users ≡ d.users)
    → Keeps (LockedOut user) (exec f)
same_users user f same =
    Keeps-exec f (λ now d h. subst (λ us. forall_in (is_out user) us ≡ true) (sym (same now d)) h)

pub is_true_of : (b : Bool) → not b ≡ false → b ≡ true
is_true_of b e = ground arith

pub LockedOut-KeptByStore : (user : ℕ) → KeptByStore (LockedOut user)
unfolding set_password set_active create_session touch revoke revoke_all_for_user
    delete_expired_for_user revoke_all_keys_for_user revoke_active_for_user
LockedOut-KeptByStore user = record {
  password = λ id encoded. Keeps-exec _ (λ now d h. put_password-LockedOut user id encoded d h);
  consumed = λ id encoded. Keeps-exec _ (λ now d h. put_password-LockedOut user id encoded d h);
  inactive = λ id. Keeps-exec _ (λ now d h. put_inactive-LockedOut user id d h);
  created = λ s. same_users user _ (λ now d. refl);
  touched = λ id seen expires. same_users user _ (λ now d. refl);
  revoked = λ id. same_users user _ (λ now d. refl);
  all_revoked = λ u. same_users user _ (λ now d. refl);
  deleted = λ u. same_users user _ (λ now d. refl);
  keys = λ u. same_users user _ (λ now d. refl);
  tokens = λ u. same_users user _ (λ now d. refl);
  used = λ h. same_users user _ (λ now d. refl);
}
