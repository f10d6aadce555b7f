-- ===== src/Auth/Session/Spending.antt =====
-- A setup token that cannot be used any more.
use league_app.Base.{
  ℕ, ◌≡◌, refl, subst, sym, String, str_eq, Bool, true, false, not, ◌||◌, Option, none, some, List,
  [], ◌∷◌, ◌++◌, ◌==◌, is_set, forall_in, update_all, found_meets, forall_in-update_all,
  forall_in-update_some, forall_in-append, arith,
}
use league_app.Effects.{ok, err, pure, exec}
use league_app.Effects.Logic.{
  Ends, Either, Ends-pure, Ends-query, Ends-require, Ends-clock, Ends-bind, Ends-if, Ends-run_tx,
  Ends-mono, Ends-fail_if_last,
}
use league_app.Effects.Keeps.{Keeps, Keeps-exec}
use league_app.Auth.Identity.{AuthMethod}
use league_app.Auth.Session.Password.{Argon2Params, Packages, hash_password}
use league_app.Auth.Session.Db.{AuthDb, SetupToken}
use league_app.Auth.Session.Store.{
  set_password, set_active, create_session, touch, revoke, revoke_all_for_user,
  delete_expired_for_user, revoke_all_keys_for_user, revoke_active_for_user,
  consume_and_set_password, mark_used, token_by_hash, consume_found, consume, is_dead_token,
  is_active_token_of,
}
use league_app.Auth.Session.Service.{complete_password_setup}
use league_app.Auth.Session.Keeping.{KeptByStore}

-- No row with the hash can be used any more.
abbrev pub is_spent : String → SetupToken → Bool
is_spent h t = not (str_eq t.token_hash h) || (is_set t.used_at || is_set t.revoked_at)

abbrev pub Spent : String → AuthDb → Type 0
Spent h d = forall_in (is_spent h) d.setup_tokens ≡ true

pub same_tokens :
    {A : Type 0} (h : String) (f : ℕ → AuthDb → A × AuthDb)
    → ((now : ℕ) (d : AuthDb) → (f now d).1.setup_tokens ≡ d.setup_tokens)
    → Keeps (Spent h) (exec f)
same_tokens h f same =
    Keeps-exec f (λ now d i. subst (λ ts. forall_in (is_spent h) ts ≡ true) (sym (same now d)) i)

pub Spent-KeptByStore : (h : String) → KeptByStore (Spent h)
unfolding set_password set_active create_session touch revoke revoke_all_for_user
    delete_expired_for_user revoke_all_keys_for_user revoke_active_for_user
Spent-KeptByStore h = record {
  password = λ id encoded. same_tokens h _ (λ now d. refl);
  consumed = λ id encoded. same_tokens h _ (λ now d. refl);
  inactive = λ id. same_tokens h _ (λ now d. refl);
  created = λ s. same_tokens h _ (λ now d. refl);
  touched = λ id seen expires. same_tokens h _ (λ now d. refl);
  revoked = λ id. same_tokens h _ (λ now d. refl);
  all_revoked = λ u. same_tokens h _ (λ now d. refl);
  deleted = λ u. same_tokens h _ (λ now d. refl);
  keys = λ u. same_tokens h _ (λ now d. refl);
  tokens = λ u.
      Keeps-exec _
        (λ now d i. forall_in-update_all _ _ (is_spent h) d.setup_tokens (λ t q. ground arith) i);
  used = λ k.
      Keeps-exec _
        (λ now d i. forall_in-update_all _ _ (is_spent h) d.setup_tokens (λ t q. ground arith) i);
}

pub mark_used-Spent : (h : String) (now : ℕ) (d : AuthDb) → Spent h (mark_used h now d)
mark_used-Spent h now d =
    forall_in-update_some _ _ (is_spent h) d.setup_tokens (λ t p. ground arith)
      (λ t p. ground arith)

-- A row of the hash belongs to the user, if there is one.
abbrev pub is_of : String → ℕ → SetupToken → Bool
is_of h user t = not (str_eq t.token_hash h) || t.user_id == user

pub revoke_active-Spent :
    (h : String) (user now : ℕ) (ts : List SetupToken)
    → forall_in (is_of h user) ts ≡ true
    → forall_in
        (is_spent h)
        (update_all (is_active_token_of user) (λ t. record t { revoked_at = some now }) ts)
      ≡ true
revoke_active-Spent h user now [] all = refl
revoke_active-Spent h user now (t ∷ ts) all =
    let ih = revoke_active-Spent h user now ts in ground arith

pub append-Spent :
    (h k : String) (user expires : ℕ) (ts : List SetupToken)
    → str_eq k h ≡ false
    → forall_in (is_spent h) ts ≡ true
    → forall_in (is_spent h) (
        ts
        ++ record {
          user_id = user;
          token_hash = k;
          expires_at = expires;
          used_at = none;
          revoked_at = none;
        }
          ∷ [])
      ≡ true
append-Spent h k user expires ts ne i =
    let e = forall_in-append (is_spent h) ts (
      record {
        user_id = user;
        token_hash = k;
        expires_at = expires;
        used_at = none;
        revoked_at = none;
      }
      ∷ []) in
    ground arith

pub spent_dead :
    (h : String) (now : ℕ) (t : SetupToken)
    → str_eq t.token_hash h ≡ true
    → is_spent h t ≡ true
    → is_dead_token now t ≡ true
spent_dead h now t p q = ground arith

module _ (packages : Packages) (target : Argon2Params) (method : AuthMethod) where
  open packages use {Bytes, sha256_hex}

  consume_found-Spent :
      (s : AuthDb) (h encoded : String) (o : Option SetupToken)
      → ((t : SetupToken) → o ≡ some t → (now : ℕ) → is_dead_token now t ≡ true)
      → Ends s (consume_found h encoded o) (λ r d. Either r (λ b. b ≡ false) (λ e. Unit))
  consume_found-Spent s h encoded none dead = Ends-pure refl
  consume_found-Spent s h encoded (some t) dead = Ends-clock _ λ now.
      Ends-if (is_dead_token now t) (pure false) (consume h encoded t) (λ d. Ends-pure refl)
        (λ alive. absurd (ground (arith, dead t refl now)))

  pub complete-Spent :
      (s : AuthDb) (token password : String) (salt : Option Bytes)
      → Spent (sha256_hex token) s
      → Ends s
          (complete_password_setup packages target method token password salt)
          (λ r d. Either r (λ a. ⊥) (λ e. Unit))
  unfolding complete_password_setup consume_and_set_password
  complete-Spent s token password salt spent =
      Ends-require salt _ _ (λ _. tt)
        λ x given. Ends-bind _ _ (
          Ends-run_tx _ tt (
            Ends-query (token_by_hash (sha256_hex token))
              (consume_found (sha256_hex token) (hash_password packages password target x)) tt
              (Ends-mono
                (consume_found-Spent s (sha256_hex token) (hash_password packages password target x)
                  (token_by_hash (sha256_hex token) s)
                  (λ t found now.
                    let m =
                      found_meets _ (is_spent (sha256_hex token)) s.setup_tokens t spent found in
                    spent_dead (sha256_hex token) now t m.0 m.1))
                (elim [
                  | ok b ↦ λ d h. Ends-fail_if_last (not b) _ (λ _. tt) (λ kept. ground arith)
                  | err e ↦ λ d h. tt
                ]))))
