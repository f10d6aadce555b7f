-- ===== src/Approval/Requests.antt =====
-- The requests on a match's approval and scores, served one after the other
-- (backend/domains/matches: RoundService).
use league_app.Base.{
  ℕ, String, str_eq, ◌≡◌, refl, Bool, true, false, not, Option, List, [], ◌∷◌, ◌++◌, is_set,
}
use league_app.Effects.{ok, err, Result, World, M, pure, ◌>>=◌}
use league_app.Effects.Logic.{Ends, Either, Rest, Ends-bind, Ends-pure, Ends-mono}
use league_app.Approval.Db.{Db, ResultRow}
use league_app.Approval.Store.{Actor, with_approval}
use league_app.Approval.Service.{
  SideText, approve_team_side, withdraw_team_approval, request_correction, admin_accept_match,
  approve_match, process_match, unapprove_match, unprocess_match, submit_results, clear_results,
}
use league_app.Approval.Actions.{
  ActedFor, Approves, Withdraws, Corrects, approve_team_side_rule, withdraw_team_approval_rule,
  request_correction_rule,
}
use league_app.Approval.Edits.{Edited}
use league_app.Approval.Results.{kept, stamped, submit_results_rule, clear_results_rule}
use league_app.Approval.Accept.{
  Changed, Accepts, approvable, with_processing, without_approval, without_processing,
  approve_match_rule, process_match_rule, unapprove_match_rule, unprocess_match_rule,
  admin_accept_match_rule,
}

pub data Request : Type 0 where
  approve_side : ℕ → SideText → ℕ → Actor → Request
  withdraw_side : ℕ → SideText → ℕ → Actor → Request
  correct_side : ℕ → SideText → ℕ → String → Actor → Request
  accept : ℕ → Option ℕ → String → Bool → ℕ → Request
  approve : ℕ → Option ℕ → String → Request
  process : ℕ → Option ℕ → Request
  unapprove : ℕ → Request
  unprocess : ℕ → Request
  submit : ℕ → List ResultRow → Option ℕ → Request
  clear : ℕ → Option ℕ → Request

-- The match that a request names.
abbrev pub target : Request → ℕ
target (approve_side id _ _ _) = id
target (withdraw_side id _ _ _) = id
target (correct_side id _ _ _ _) = id
target (accept id _ _ _ _) = id
target (approve id _ _) = id
target (process id _) = id
target (unapprove id) = id
target (unprocess id) = id
target (submit id _ _) = id
target (clear id _) = id

abbrev pub discard : {A : Type 0} → M Db A → M Db (Unit {0})
discard m = m >>= λ _. pure tt

module _ (trim : String → String) where
  unfoldable pub serve : Request → M Db (Unit {0})
  serve (approve_side id text expected actor) = approve_team_side id text expected actor
  serve (withdraw_side id text expected actor) = withdraw_team_approval id text expected actor
  serve (correct_side id text expected note actor) =
      request_correction trim id text expected note actor
  serve (accept id by note override expected) = admin_accept_match id by note override expected
  serve (approve id by note) = approve_match id by note
  serve (process id by) = process_match id by
  serve (unapprove id) = unapprove_match id
  serve (unprocess id) = unprocess_match id
  serve (submit id rs expected) = discard (submit_results id rs expected)
  serve (clear id expected) = discard (clear_results id expected)

  -- The requests of a list, each served whatever became of those before it.
  unfoldable pub serve_all : List Request → World Db → World Db
  unfolding serve
  serve_all [] w = w
  serve_all (q ∷ qs) w = serve_all qs (serve q w).1

  -- What a request that succeeds does to the database.
  abbrev pub Effect : Request → Db → Db → Type 0
  Effect (approve_side id text expected actor) s d =
      ActedFor s id text actor (Approves id expected actor s) d
  Effect (withdraw_side id text expected actor) s d =
      ActedFor s id text actor (Withdraws id expected actor s) d
  Effect (correct_side id text expected note actor) s d =
      ActedFor s id text actor
        (λ side d. (str_eq (trim note) "" ≡ false) × Corrects id expected note actor s side d) d
  Effect (accept id by note override expected) s d = Accepts s id by note override expected d
  Effect (approve id by note) s d = Changed s id approvable (with_approval by note) d
  Effect (process id by) s d = Changed s id (λ r. is_set r.approved_at) (with_processing by) d
  Effect (unapprove id) s d = Changed s id (λ r. not (is_set r.processed_at)) without_approval d
  Effect (unprocess id) s d = Changed s id (λ _. true) without_processing d
  Effect (submit id rs expected) s d =
      (revision : ℕ) × Edited s id expected (λ _. true) (kept id s.results ++ stamped id rs)
        revision d
  Effect (clear id expected) s d =
      (revision : ℕ) × Edited s id expected (λ _. false) (kept id s.results) revision d

  discard_rule :
      {A : Type 0} {s : Db} (F : A → Db → Type 0) (m : M Db A)
      → Ends s m (λ r d. Either r (λ a. F a d) (λ _. d ≡ s))
      → Ends s (discard m) (λ r d. Either r (λ _. (a : A) × F a d) (λ _. d ≡ s))
  discard_rule {A} {s} F m h = Ends-bind {P = Q} _ _ (Ends-mono h after)
    where
      Q : Result (Unit {0}) → Db → Type 0
      Q r d = Either r (λ _. (a : A) × F a d) (λ _. d ≡ s)

      after :
          (r : Result A) (d : Db) → Either r (λ a. F a d) (λ _. d ≡ s) → Rest Q (λ _. pure tt) r d
      after (ok a) d x = Ends-pure (a, x)
      after (err x) d e = e

  -- A request has its whole effect, or it fails and the database is as it was.
  pub serve_rule :
      (q : Request) (s : Db) → Ends s (serve q) (λ r d. Either r (λ _. Effect q s d) (λ _. d ≡ s))
  unfolding serve
  serve_rule (approve_side id text expected actor) s =
      approve_team_side_rule s id text expected actor
  serve_rule (withdraw_side id text expected actor) s =
      withdraw_team_approval_rule s id text expected actor
  serve_rule (correct_side id text expected note actor) s =
      request_correction_rule trim s id text expected note actor
  serve_rule (accept id by note override expected) s =
      admin_accept_match_rule s id by note override expected
  serve_rule (approve id by note) s = approve_match_rule s id by note
  serve_rule (process id by) s = process_match_rule s id by
  serve_rule (unapprove id) s = unapprove_match_rule s id
  serve_rule (unprocess id) s = unprocess_match_rule s id
  serve_rule (submit id rs expected) s = discard_rule _ _ (submit_results_rule s id rs expected)
  serve_rule (clear id expected) s = discard_rule _ _ (clear_results_rule s id expected)

  -- Whichever calls of the driver fail, a request that succeeds has its effect, and one that fails
  -- leaves the database as it was. An effect says which row it found and what guard the row met, what
  -- it wrote to that row, the events it logged, and the results that are there afterwards; every
  -- other row and table is kept.
  pub serve_outcome :
      (q : Request) (w : World Db)
      → Either (serve q w).0 (λ _. Effect q w.db (serve q w).1.db) (λ _. (serve q w).1.db ≡ w.db)
  serve_outcome q w = (serve_rule q w.db).run w refl
