-- ===== src/Auth/Session/Tokens.antt =====
-- A setup token serves once, and not after another was issued to its user.
use league_app.Base.{
  ℕ, ◌+◌, ◌≡◌, ◌≢◌, refl, subst, sym, String, str_eq, true, false, Option, none, some, List,
  forall_in, if◌then◌else◌, of_some,
}
use league_app.Effects.{ok, err, World, pure}
use league_app.Effects.Logic.{
  Ends, Either, Ends-pure, Ends-throw, Ends-query, Ends-exec, Ends-require, Ends-clock, Ends-bind,
  Ends-if, Ends-run_tx, Ends-mono, Either-ok,
}
use league_app.Effects.Keeps.{Keeps-exec}
use league_app.Auth.Identity.{AuthMethod}
use league_app.Auth.Session.Password.{Argon2Params, Packages, hash_password}
use league_app.Auth.Session.Db.{AuthDb, SetupToken}
use league_app.Auth.Session.Store.{
  set_active, create_setup_token, revoke_active_for_user, consume_and_set_password, put_password,
  mark_used, token_by_hash, consume_found, consume, is_dead_token,
}
use league_app.Auth.Session.Service.{
  issue_password_setup_token, complete_password_setup, password_setup_token_ttl,
}
use league_app.Auth.Session.Keeping.{IsFine, serve-Keeps}
use league_app.Auth.Session.Requests.{
  Request, Timed, All, at_time, log_in, resolve, log_out, lock, unlock, issue, set_up, serve_all,
  serve_all-Keeps,
}
use league_app.Auth.Session.Spending.{
  Spent, is_of, same_tokens, Spent-KeptByStore, mark_used-Spent, revoke_active-Spent, append-Spent,
  complete-Spent,
}

module _ (packages : Packages) (target : Argon2Params) (method : AuthMethod) where
  open packages use {Bytes, sha256_hex}

  -- A token that is alive is used up, and its user has the new password.
  pub record Completed (s : AuthDb) (h encoded : String) (d : AuthDb) : Type 0 where
    pub row : SetupToken
    pub found : token_by_hash h s ≡ some row
    pub at : ℕ
    pub alive : is_dead_token at row ≡ false
    pub later : ℕ
    pub written : d ≡ mark_used h later (put_password row.user_id encoded s)

  consume_found_outcome :
      (s : AuthDb) (h encoded : String) (o : Option SetupToken)
      → token_by_hash h s ≡ o
      → Ends s
          (consume_found h encoded o)
          (λ r d. Either r (λ b. (if b then Completed s h encoded d else d ≡ s)) (λ e. Unit))
  consume_found_outcome s h encoded none f = Ends-pure refl
  consume_found_outcome s h encoded (some t) f = Ends-clock _ λ now.
      Ends-if (is_dead_token now t) (pure false) (consume h encoded t) (λ dead. Ends-pure refl)
        (λ alive. Ends-exec _ _ tt λ first. Ends-exec _ _ tt λ last.
          Ends-pure
            (record { row = t; found = f; at = now; alive = alive; later = last; written = refl }))

  complete_rule :
      (s : AuthDb) (token password : String) (salt : Option Bytes)
      → Ends s (complete_password_setup packages target method token password salt) (λ r d.
        Either r
          (λ a.
            (x : Bytes) × (salt ≡ some x)
            × Completed s (sha256_hex token) (hash_password packages password target x) d)
          (λ e. d ≡ s))
  unfolding complete_password_setup consume_and_set_password
  complete_rule s token password salt =
      Ends-require salt _ _ (λ _. refl)
        λ x given. Ends-bind _ _ (
          Ends-run_tx _ refl (
            Ends-query (token_by_hash (sha256_hex token))
              (consume_found (sha256_hex token) (hash_password packages password target x)) refl
              (Ends-mono
                (consume_found_outcome s (sha256_hex token)
                  (hash_password packages password target x) (token_by_hash (sha256_hex token) s)
                  refl)
                (elim [
                  | ok true ↦ λ d h. Ends-pure (x, given, h)
                  | ok false ↦ λ d h. Ends-throw h
                  | err e ↦ λ d h. refl
                ]))))

  -- A completed setup sets the password of the token's user and uses the token up, both or neither:
  -- one that fails, whichever call of the driver or of the source of randomness fails, leaves the
  -- database as it was.
  pub complete_password_setup_outcome :
      (token password : String) (salt : Option Bytes) (w : World AuthDb)
      → let run = complete_password_setup packages target method token password salt w in
        Either run.0
          (λ a.
            (x : Bytes) × (salt ≡ some x)
            × Completed w.db (sha256_hex token) (hash_password packages password target x) run.1.db)
          (λ e. run.1.db ≡ w.db)
  complete_password_setup_outcome token password salt w =
      (complete_rule w.db token password salt).run w refl

  Completed-Spent :
      (s : AuthDb) (h encoded : String) (d : AuthDb) → Completed s h encoded d → Spent h d
  Completed-Spent s h encoded d c =
      subst (Spent h) (sym c.written)
        (mark_used-Spent h c.later (put_password c.row.user_id encoded s))

  issue-leaves_Spent :
      (s : AuthDb) (h : String) (user : ℕ) (random : Option String)
      → forall_in (is_of h user) s.setup_tokens ≡ true
      → ((t : String) → random ≡ some t → str_eq (sha256_hex t) h ≡ false)
      → Ends s
          (issue_password_setup_token packages target method user random)
          (λ r d. Either r (λ a. Spent h d) (λ e. Unit))
  unfolding issue_password_setup_token revoke_active_for_user create_setup_token
  issue-leaves_Spent s h user random all fresh = Ends-exec _ _ tt λ now.
      Ends-require random _ _ (λ _. tt)
        λ t given. Ends-clock _ λ later. Ends-exec _ _ tt λ last. Ends-pure (
          append-Spent h (sha256_hex t) user (later + password_setup_token_ttl) _ (fresh t given)
            (revoke_active-Spent h user now s.setup_tokens all))

  -- The request issues no token with this hash.
  abbrev pub NoReissue : String → Request packages → Type 0
  NoReissue h (issue user (some t)) = str_eq (sha256_hex t) h ≡ false
  NoReissue h _ = Unit

  NoReissue-IsFine :
      (h : String) (r : Request packages)
      → NoReissue h r
      → IsFine packages target method (Spent-KeptByStore h) r
  unfolding set_active create_setup_token
  NoReissue-IsFine h (issue id none) n = λ t e expires. cc
  NoReissue-IsFine h (issue id (some k)) n = λ t e expires. Keeps-exec _ (λ now d i.
      append-Spent h (sha256_hex t) id expires d.setup_tokens
        (subst (λ x. str_eq (sha256_hex x) h ≡ false) (of_some e) n) i)
  NoReissue-IsFine h (unlock id) n = same_tokens h _ (λ now d. refl)
  NoReissue-IsFine h (log_in email password agent ip salt r1 r2) n = tt
  NoReissue-IsFine h (resolve token) n = tt
  NoReissue-IsFine h (log_out token) n = tt
  NoReissue-IsFine h (lock id keys) n = tt
  NoReissue-IsFine h (set_up token password salt) n = tt

  -- A token that cannot be used any more stays so, and the setup with it fails.
  stays_Spent :
      (token password : String) (salt : Option Bytes) (rs : List (Timed packages)) (t : ℕ)
      (w : World AuthDb)
      → Spent (sha256_hex token) w.db
      → All (NoReissue (sha256_hex token)) rs
      → (complete_password_setup packages target method token password salt
          (at_time t (serve_all packages target method rs w))).0
        ≢ ok tt
  stays_Spent token password salt rs t w spent all e =
      let out : Spent (sha256_hex token) (serve_all packages target method rs w).db =
        serve_all-Keeps packages target method (Spent (sha256_hex token))
          (NoReissue (sha256_hex token))
          (λ r h.
            serve-Keeps packages target method (Spent-KeptByStore (sha256_hex token)) r
              (NoReissue-IsFine (sha256_hex token) r h))
          rs all w spent in
      Either-ok (λ a. ⊥) (λ e. Unit {0}) _ tt e
        ((complete-Spent packages target method _ token password salt out).run _ refl)

  -- A token with which a setup was completed completes no other, through any requests that do not
  -- issue a token of the same hash.
  pub complete_password_setup-once :
      (token password password' : String) (salt salt' : Option Bytes) (rs : List (Timed packages))
      (t : ℕ) (w : World AuthDb)
      → (complete_password_setup packages target method token password salt w).0 ≡ ok tt
      → All (NoReissue (sha256_hex token)) rs
      → (complete_password_setup packages target method token password' salt' (
          at_time t (
            serve_all packages target method rs
              (complete_password_setup packages target method token password salt w).1))).0
        ≢ ok tt
  complete_password_setup-once token password password' salt salt' rs t w done all =
      let c =
        Either-ok _
          (λ e. (complete_password_setup packages target method token password salt w).1.db ≡ w.db)
          _ tt done (complete_password_setup_outcome token password salt w) in
      stays_Spent token password' salt' rs t _ (Completed-Spent _ _ _ _ c.2) all

  -- After a token was issued to a user, no setup is completed with an earlier token of that user,
  -- through any requests that do not issue a token of the same hash.
  pub issue_password_setup_token-revokes :
      (user : ℕ) (random : Option String) (issued token password : String) (salt : Option Bytes)
      (rs : List (Timed packages)) (t : ℕ) (w : World AuthDb)
      → forall_in (is_of (sha256_hex token) user) w.db.setup_tokens ≡ true
      → ((x : String) → random ≡ some x → str_eq (sha256_hex x) (sha256_hex token) ≡ false)
      → (issue_password_setup_token packages target method user random w).0 ≡ ok issued
      → All (NoReissue (sha256_hex token)) rs
      → (complete_password_setup packages target method token password salt (
          at_time t (
            serve_all packages target method rs
              (issue_password_setup_token packages target method user random w).1))).0
        ≢ ok tt
  issue_password_setup_token-revokes user random issued token password salt rs t w own fresh done
        all =
      stays_Spent token password salt rs t _
        (Either-ok
          (λ a.
            Spent (sha256_hex token)
              (issue_password_setup_token packages target method user random w).1.db)
          (λ e. Unit {0}) _ issued done
          ((issue-leaves_Spent w.db (sha256_hex token) user random own fresh).run w refl))
        all
