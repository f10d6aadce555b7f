-- ===== src/Auth/Session/Tests.antt =====
-- The session service on a small database.
use Prim.Native.Char.{code}
use Prim.Native.String.{[] as []ₛ, ◌∷◌ as ◌∷ₛ◌, ◌++◌ as ◌++ₛ◌, count}
use league_app.Base.{
  ◌≡◌, ◌≢◌, refl, subst, of_some, String, str_eq, true, false, none, some, List, [], ◌∷◌, ◌==◌,
  if◌then◌else◌, arith,
}
use league_app.Effects.{ok, World, query, exec, clock, run_tx, ◌>>=◌}
use league_app.Effects.Logic.{Either}
use league_app.Auth.Identity.{AuthMethod, session}
use league_app.Auth.Session.Password.{
  Argon2Params, Packages, hash_password, verify_password, needs_rehash, decode_argon2_hash,
}
use league_app.Auth.Session.Db.{AuthDb, UserRecord, Session, SetupToken}
use league_app.Auth.Session.Store.{
  set_active, revoke_all_for_user, revoke_all_keys_for_user, create_setup_token,
  revoke_active_for_user, consume_and_set_password,
}
use league_app.Auth.Session.Service.{
  login, resolve_session, deactivate, issue_password_setup_token, complete_password_setup,
}
use league_app.Auth.Session.Requests.{Timed, log_in, resolve, serve_all, at_time}
use league_app.Auth.Session.LockedOut.{deactivate-stays_out, NotResolved, NotLoggedIn}
use league_app.Auth.Session.Tokens.{
  Completed, complete_password_setup_outcome, complete_password_setup-once,
  issue_password_setup_token-revokes,
}
use league_app.Auth.Session.Resolving.{Outcome, resolve_session_outcome}
use league_app.Auth.Session.Hashing.{
  verify_password-hash_password, IsAffordable, decode_argon2_hash-IsAffordable,
}

abbrev join : List String → String
join [] = ""
join (s ∷ []) = s
join (s ∷ t ∷ r) = s ++ₛ ("$" ++ₛ join (t ∷ r))

abbrev put_front : String → List String → List String
put_front c [] = c ∷ []
put_front c (s ∷ r) = (c ++ₛ s) ∷ r

abbrev split : String → List String
split []ₛ = "" ∷ []
split (c ∷ₛ s) = let rest = split s in if code c == 36 then "" ∷ rest else put_front (c ∷ₛ "") rest

abbrev sample : Packages
sample = record {
  Bytes = String;
  len = count;
  constant_time_compare = str_eq;
  split = split;
  join = join;
  scan_version = λ s. if str_eq s "v=19" then some 19 else none;
  print_version = λ n. if n == 19 then "v=19" else "v=?";
  scan_params = λ s. if str_eq s "m=64,t=1,p=1" then some (64, 1, 1) else none;
  print_params = λ m t p. "m=64,t=1,p=1";
  encode_base64 = λ b. b;
  decode_base64 = λ s. some s;
  id_key = λ password salt t m p n. password ++ₛ salt;
  sha256_hex = λ s. "#" ++ₛ s;
  trim_space = λ s. s;
  to_lower = λ s. s;
  contains_space = λ s. false;
  email_pattern = λ s. true;
}

abbrev cheap : Argon2Params
cheap = record { memory = 64; iterations = 1; parallelism = 1; salt_length = 2; key_length = 6 }

verify_password-hash_password_example :
    (verify_password sample "pass" (hash_password sample "pass" cheap "ab") ≡ some true)
    × (needs_rehash sample (hash_password sample "pass" cheap "ab") cheap ≡ some false)
verify_password-hash_password_example =
    verify_password-hash_password sample cheap "pass" "ab"
      (record {
        version = refl;
        params = refl;
        salt_text = refl;
        hash_text = refl;
        parts = refl;
        key_len = refl;
        equal = refl;
      })
      (record {
        memory = ground arith;
        iterations = ground arith;
        parallelism = ground arith;
        salt_len = ground arith;
        hash_len = ground arith;
      })

decode_argon2_hash-IsAffordable_example :
    IsAffordable sample (decode_argon2_hash sample "$argon2id$v=19$m=64,t=1,p=1$ab$passab")
decode_argon2_hash-IsAffordable_example =
    decode_argon2_hash-IsAffordable sample "$argon2id$v=19$m=64,t=1,p=1$ab$passab"

abbrev ann : UserRecord
ann = record {
  id = 3;
  username = "ann";
  email = some "ann@x.org";
  password_hash = some "$argon2id$v=19$m=64,t=1,p=1$ab$passab";
  active = true;
  player_id = none;
  player_name = "";
  must_reset_password = false;
}

abbrev ann_session : Session
ann_session = record {
  id = 1;
  user_id = 3;
  token_hash = "#tok";
  csrf_token_hash = "#csrf";
  created_at = 1000;
  last_seen_at = 1000;
  expires_at = 5000;
  revoked_at = none;
  user_agent = "";
  ip_address = "";
}

abbrev ann_token : SetupToken
ann_token = record {
  user_id = 3;
  token_hash = "#setup";
  expires_at = 9000;
  used_at = none;
  revoked_at = none;
}

abbrev one_user : AuthDb
one_user = record {
  users = ann ∷ [];
  sessions = ann_session ∷ [];
  setup_tokens = ann_token ∷ [];
  roles = [];
  api_keys = [];
  next_session = 2;
}

abbrev calm : World AuthDb
calm = record { db = one_user; now = 2000; calls = 0; fails = λ n. false }

abbrev by_session : AuthMethod
by_session = session

abbrev traffic : List (Timed sample)
traffic =
    (2100, log_in "ann@x.org" "pass" "" "" (some "cd") (some "t") (some "c"))
    ∷ (2200, resolve "tok")
    ∷ []

resolve_session_outcome_example :
    Outcome 2000 one_user "#tok"
      (resolve_session sample cheap by_session "tok" calm).0
      (resolve_session sample cheap by_session "tok" calm).1.db
resolve_session_outcome_example = resolve_session_outcome sample cheap by_session "tok" calm

complete_password_setup_outcome_example :
    Either
      (complete_password_setup sample cheap by_session "setup" "new" (some "ef") calm).0
      (λ a.
        (x : String) × (some "ef" ≡ some x)
        × Completed sample cheap by_session one_user "#setup"
            (hash_password sample "new" cheap x)
            (complete_password_setup sample cheap by_session "setup" "new" (some "ef") calm).1.db)
      (λ e.
        (complete_password_setup sample cheap by_session "setup" "new" (some "ef") calm).1.db
        ≡ one_user)
complete_password_setup_outcome_example =
    complete_password_setup_outcome sample cheap by_session "setup" "new" (some "ef") calm

setup_done :
    (complete_password_setup sample cheap by_session "setup" "new" (some "ef") calm).0 ≡ ok tt
unfolding complete_password_setup consume_and_set_password hash_password run_tx query exec clock
    ◌>>=◌
setup_done = refl

complete_password_setup-once_example :
    (complete_password_setup sample cheap by_session "setup" "other" (some "gh") (
      at_time 2300 (
        serve_all sample cheap by_session traffic
          (complete_password_setup sample cheap by_session "setup" "new" (some "ef") calm).1))).0
    ≢ ok tt
complete_password_setup-once_example =
    complete_password_setup-once sample cheap by_session "setup" "new" "other" (some "ef")
      (some "gh") traffic 2300 calm setup_done (tt, (tt, tt))

issue_done : (issue_password_setup_token sample cheap by_session 3 (some "next") calm).0 ≡ ok "next"
unfolding issue_password_setup_token revoke_active_for_user create_setup_token query exec clock
    ◌>>=◌
issue_done = refl

next_is_new : (x : String) → some "next" ≡ some x → str_eq ("#" ++ₛ x) "#setup" ≡ false
next_is_new x e = subst (λ y. str_eq ("#" ++ₛ y) "#setup" ≡ false) (of_some e) refl

issue_password_setup_token-revokes_example :
    (complete_password_setup sample cheap by_session "setup" "new" (some "ef") (
      at_time 2300 (
        serve_all sample cheap by_session traffic
          (issue_password_setup_token sample cheap by_session 3 (some "next") calm).1))).0
    ≢ ok tt
issue_password_setup_token-revokes_example =
    issue_password_setup_token-revokes sample cheap by_session 3 (some "next") "next" "setup" "new"
      (some "ef") traffic 2300 calm refl next_is_new issue_done (tt, (tt, tt))

deactivate_done : (deactivate sample cheap by_session 3 true calm).0 ≡ ok tt
unfolding deactivate set_active revoke_all_for_user revoke_all_keys_for_user exec ◌>>=◌
deactivate_done = refl

deactivate-stays_out_example :
    NotResolved sample cheap by_session 3
      (resolve_session sample cheap by_session "tok" (
        at_time 2300 (
          serve_all sample cheap by_session traffic
            (deactivate sample cheap by_session 3 true calm).1))).0
    × NotLoggedIn sample cheap by_session 3
        (login sample cheap by_session "ann@x.org" "pass" "" "" (some "cd") (some "t") (some "c") (
          at_time 2300 (
            serve_all sample cheap by_session traffic
              (deactivate sample cheap by_session 3 true calm).1))).0
deactivate-stays_out_example =
    deactivate-stays_out sample cheap by_session 3 true traffic calm 2300 "tok" "ann@x.org" "pass"
      "" "" (some "cd") (some "t") (some "c") deactivate_done (tt, (tt, tt))
