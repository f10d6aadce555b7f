-- ===== src/Effects.antt =====
-- backend/domainerr/err.go and the way services call a store: a result with the error kept as a
-- value, and a monad over a database whose calls may fail.
pub mod Logic
pub mod Keeps
pub mod Gives
pub mod Runs
use league_app.Base.{ℕ, ◌+◌, Bool, Option, none, some, if◌then◌else◌}

pub data Category : Type 0 where
  not_found invalid_input conflict unprocessable internal : Category

-- The stable codes of the services that are modelled.
pub data Code : Type 0 where
  match_not_found match_not_scored match_already_processed match_not_approved : Code
  match_approved match_processed : Code
  approval_revision_stale approval_ineligible_player approval_invalid_side : Code
  approval_note_required approval_invalid_transition match_admin_accepted : Code
  approval_override_required match_already_accepted approval_team_state_changed : Code
  season_closed week_closed : Code
  week_close_season_draft week_not_found week_not_closed : Code
  season_close_draft season_already_closed season_close_no_schedule season_close_unclosed : Code
  season_close_blocked season_not_closed : Code
  pushback_invalid_cutoff pushback_invalid_weeks_to_add : Code
  pushback_season_not_found pushback_has_closed_weeks : Code

-- The sentinel errors of the stores (`ErrGuard...`).
pub data Guard : Type 0 where
  guard_match_not_found revision_stale guard_not_scored guard_season_closed : Guard
  guard_week_closed guard_processed guard_admin_accepted : Guard
  guard_invalid_transition guard_team_state_changed : Guard

-- The sentinel errors of auth/session_service.go.
pub data AuthError : Type 0 where
  invalid_credentials account_inactive invalid_setup_token : AuthError

-- An error is a `*domainerr.Err`, a sentinel of a store, of the session service or of the seasons
-- (`ErrNotFound`), or an error of the database driver (or of the source of randomness). The texts are
-- left out.
pub data Err : Type 0 where
  domain : Code → Category → Err
  sentinel : Guard → Err
  auth_error : AuthError → Err
  season_row_not_found : Err
  infra : Err

pub data Result (A : Type 0) : Type 0 where
  ok : A → Result A
  err : Err → Result A

-- `fails n` says whether the n-th call of the driver fails: the environment decides, and the
-- theorems hold whatever it decides.
pub record World (S : Type 0) : Type 0 where
  pub db : S
  pub now : ℕ
  pub calls : ℕ
  pub fails : ℕ → Bool

abbrev pub M : Type 0 → Type 0 → Type 0
M S A = World S → Result A × World S

abbrev pub pure : {S A : Type 0} → A → M S A
pure a w = (ok a, w)

abbrev pub throw : {S A : Type 0} → Err → M S A
throw e w = (err e, w)

abbrev pub continue : {S A B : Type 0} → (A → M S B) → Result A × World S → Result B × World S
continue k (ok a, w) = k a w
continue k (err e, w) = (err e, w)

infixl 5 ◌>>=◌ ◌>>◌
unfoldable pub ◌>>=◌ : {S A B : Type 0} → M S A → (A → M S B) → M S B
◌>>=◌ m k w = continue k (m w)

abbrev pub ◌>>◌ : {S B : Type 0} → M S (Unit {0}) → M S B → M S B
m >> k = m >>= λ _. k

-- The value that a pointer holds, or the error that the code returns where it is nil.
abbrev pub require : {S A : Type 0} → Option A → Err → M S A
require none e = throw e
require (some a) e = pure a

abbrev pub fail_if : {S : Type 0} → Bool → Err → M S (Unit {0})
fail_if b e = if b then throw e else pure tt

abbrev pub tick : {S : Type 0} → World S → World S
tick w = record w { calls = w.calls + 1 }

-- A query: what the driver returns, or its error.
unfoldable pub query : {S A : Type 0} → (S → A) → M S A
query f w = if w.fails w.calls then (err infra, tick w) else (ok (f w.db), tick w)

-- A query whose error `Scan` drops: the variable keeps its zero value.
unfoldable pub query_or : {S A : Type 0} → A → (S → A) → M S A
query_or zero_value f w = (ok (if w.fails w.calls then zero_value else f w.db), tick w)

-- A statement that writes, at the time `CURRENT_TIMESTAMP`; after the driver's error the database
-- is as it was.
unfoldable pub exec : {S A : Type 0} → (ℕ → S → A × S) → M S A
exec f w =
    if w.fails w.calls
    then (err infra, tick w)
    else (ok (f w.now w.db).0, record (tick w) { db = (f w.now w.db).1 })

-- The end of a transaction: an error rolls back, and so does a commit that fails.
abbrev pub settle : {S A : Type 0} → S → Result A × World S → Result A × World S
settle s (err e, w) = (err e, record w { db = s })
settle s (ok a, w) =
    if w.fails w.calls then (err infra, record (tick w) { db = s }) else (ok a, tick w)

-- `RunTx`: begin, the body, and commit or roll back.
unfoldable pub run_tx : {S A : Type 0} → M S A → M S A
run_tx body w = if w.fails w.calls then (err infra, tick w) else settle w.db (body (tick w))

-- `err = f(); return mapErr(err)`
abbrev pub map_result : {S A : Type 0} → (Err → Err) → Result A × World S → Result A × World S
map_result f (ok a, w) = (ok a, w)
map_result f (err e, w) = (err (f e), w)

unfoldable pub map_err : {S A : Type 0} → (Err → Err) → M S A → M S A
map_err f m w = map_result f (m w)

-- `time.Now()`
unfoldable pub clock : {S : Type 0} → M S ℕ
clock w = (ok w.now, w)

-- `_ = f()`: the error is dropped.
abbrev pub drop_error : {S : Type 0} → Result (Unit {0}) × World S → Result (Unit {0}) × World S
drop_error (ok a, w) = (ok tt, w)
drop_error (err e, w) = (ok tt, w)

unfoldable pub ignore : {S : Type 0} → M S (Unit {0}) → M S (Unit {0})
ignore m w = drop_error (m w)
