-- ===== src/Auth/Session/Requests.antt =====
-- Requests to the session service, served one after the other, each at its own time.
use league_app.Base.{ℕ, String, Bool, Option, List, [], ◌∷◌}
use league_app.Effects.{World, M, pure, ◌>>=◌}
use league_app.Effects.Keeps.{Keeps}
use league_app.Auth.Identity.{AuthMethod}
use league_app.Auth.Session.Password.{Argon2Params, Packages}
use league_app.Auth.Session.Db.{AuthDb}
use league_app.Auth.Session.Service.{
  login, resolve_session, logout, deactivate, reactivate, issue_password_setup_token,
  complete_password_setup,
}

module _ (packages : Packages) where
  open packages use {Bytes}

  pub data Request : Type 0 where
    log_in :
        String → String → String → String → Option Bytes → Option String → Option String → Request
    resolve : String → Request
    log_out : String → Request
    lock : ℕ → Bool → Request
    unlock : ℕ → Request
    issue : ℕ → Option String → Request
    set_up : String → String → Option Bytes → Request

abbrev discard : {A : Type 0} → M AuthDb A → M AuthDb (Unit {0})
discard m = m >>= λ _. pure tt

-- A time and a request at that time.
abbrev pub Timed : Packages → Type 0
Timed packages = ℕ × Request packages

abbrev pub at_time : ℕ → World AuthDb → World AuthDb
at_time t w = record w { now = t }

-- All requests of a list meet a condition.
abbrev pub All :
    {packages : Packages} → (Request packages → Type 0) → List (Timed packages) → Type 0
All P [] = Unit
All P ((t, r) ∷ rs) = P r × All P rs

module _ (packages : Packages) (target : Argon2Params) (method : AuthMethod) where
  unfoldable pub serve : Request packages → M AuthDb (Unit {0})
  serve (log_in email password agent ip salt r1 r2) =
      discard (login packages target method email password agent ip salt r1 r2)
  serve (resolve token) = discard (resolve_session packages target method token)
  serve (log_out token) = logout packages target method token
  serve (lock user keys) = deactivate packages target method user keys
  serve (unlock user) = reactivate packages target method user
  serve (issue user random) =
      discard (issue_password_setup_token packages target method user random)
  serve (set_up token password salt) =
      complete_password_setup packages target method token password salt

  unfoldable pub serve_all : List (Timed packages) → World AuthDb → World AuthDb
  serve_all [] w = w
  serve_all ((t, r) ∷ rs) w = serve_all rs (serve r (at_time t w)).1

  -- What every request of a list keeps holds after the list.
  pub serve_all-Keeps :
      (I : AuthDb → Type 0) (Fine : Request packages → Type 0)
      → ((r : Request packages) → Fine r → Keeps I (serve r))
      → (rs : List (Timed packages)) → All Fine rs
      → (w : World AuthDb) → I w.db
      → I (serve_all rs w).db
  unfolding serve_all
  serve_all-Keeps I Fine h [] all w i = i
  serve_all-Keeps I Fine h ((t, r) ∷ rs) all w i =
      serve_all-Keeps I Fine h rs all.1 (serve r (at_time t w)).1 ((h r all.0).kept (at_time t w) i)
