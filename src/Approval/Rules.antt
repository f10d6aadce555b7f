-- ===== src/Approval/Rules.antt =====
-- The rules of the logic for the guarded statements of the store.
use league_app.Base.{
  ℕ, ◌≡◌, refl, sym, subst, ◌⊎◌, inl, inr, Bool, true, false, not, Option, none, some, Bool-cases,
  arith, [], ◌∷◌, ◌++◌, if◌then◌else◌,
}
use league_app.Effects.{
  Err, ok, err, infra, domain, sentinel, Guard, guard_match_not_found, Result, M, ◌>>=◌, ◌>>◌, pure,
  require, fail_if, query_or, run_tx, conflict, season_closed, week_closed,
}
use league_app.Effects.Logic.{
  Ends, Either, Rest, Ends-query, Ends-query_or, Ends-exec, Ends-exec_last, Ends-bind, Ends-pure,
  Ends-throw, Ends-require, Ends-fail_if, Ends-fail_if_last, Ends-run_tx,
}
use league_app.Approval.Db.{
  Db, MatchRow, Event, TeamSide, put, update_where, update_found, eligible,
}
use league_app.Approval.Guards.{Snapshot, load_snapshot}
use league_app.Approval.Store.{
  MatchApprovalState, state_of, found_state, select_state, guarded_update, report_block,
  insert_event, get_match_approval_state, is_week_closed, is_season_closed_for_match,
  week_is_closed, season_is_closed,
}
use league_app.Approval.Service.{check_team_action, check_open}

pub report_block_rule :
    {s : Db} {P : Result (Unit {0}) → Db → Type 0} (id : ℕ) (classify : Snapshot → Guard)
    → P (err infra) s
    → (load_snapshot id s ≡ none → P (err (sentinel guard_match_not_found)) s)
    → ((snap : Snapshot) → load_snapshot id s ≡ some snap → P (err (sentinel (classify snap))) s)
    → Ends s (report_block id classify) P
unfolding report_block
report_block_rule id classify failed missing blocked =
    Ends-query (load_snapshot id) _ failed
      (Ends-require _ _ _ missing λ snap e. Ends-throw (blocked snap e))

-- A guarded statement writes a row that meets its guard, or reports why it wrote none.
pub guarded_update_last :
    {s : Db} {Q : Result (Unit {0}) → Db → Type 0} (id : ℕ) (cond : Db → MatchRow → Bool)
    (f : ℕ → MatchRow → MatchRow) (classify : Snapshot → Guard)
    → Q (err infra) s
    → ((x : Guard) → Q (err (sentinel x)) s)
    → ((r : MatchRow) (now : ℕ)
        → s.matches id ≡ some r
        → cond s r ≡ true
        → Q (ok tt) (put id (f now r) s))
    → Ends s (guarded_update id cond f classify) Q
unfolding guarded_update update_where
guarded_update_last {s} {Q} id cond f classify failed blocked written =
    Ends-exec _ _ failed λ now. go now (s.matches id) refl
  where
    none_written : Ends s (report_block id classify) Q
    none_written =
        report_block_rule id classify failed (λ _. blocked guard_match_not_found)
          (λ snap _. blocked (classify snap))

    decide :
        (now : ℕ) (r : MatchRow)
        → s.matches id ≡ some r
        → (cond s r ≡ true) ⊎ (cond s r ≡ false)
        → let (affected, d) = update_found (some r) id (cond s) (f now) s in
          Ends d (if affected then pure tt else report_block id classify) Q
    decide now r e (inl met) = rw met (Ends-pure (written r now e met))
    decide now r e (inr unmet) = rw unmet none_written

    go :
        (now : ℕ) (o : Option MatchRow)
        → s.matches id ≡ o
        → let (affected, d) = update_found (s.matches id) id (cond s) (f now) s in
          Ends d (if affected then pure tt else report_block id classify) Q
    go now none e = rw e none_written
    go now (some r) e = rw e (decide now r e (Bool-cases (cond s r)))

pub guarded_update_rule :
    {A : Type 0} {s : Db} {P : Result A → Db → Type 0} (id : ℕ) (cond : Db → MatchRow → Bool)
    (f : ℕ → MatchRow → MatchRow) (classify : Snapshot → Guard) (k : Unit {0} → M Db A)
    → P (err infra) s
    → ((x : Guard) → P (err (sentinel x)) s)
    → ((r : MatchRow) (now : ℕ)
        → s.matches id ≡ some r
        → cond s r ≡ true
        → Ends (put id (f now r) s) (k tt) P)
    → Ends s (guarded_update id cond f classify >>= k) P
guarded_update_rule {P} id cond f classify k failed blocked written =
    Ends-bind {P = P} _ k (guarded_update_last id cond f classify failed blocked written)

-- What a guarded statement and its event leave behind: the row met the guard, and only it and the
-- log are new.
pub record Acts (s : Db) (id : ℕ) (guard : Db → MatchRow → Bool) (f : ℕ → MatchRow → MatchRow)
    (e : Event) (d : Db) : Type 0 where
  pub row : MatchRow
  pub now : ℕ
  pub found : s.matches id ≡ some row
  pub allowed : guard s row ≡ true
  pub written : d ≡ record (put id (f now row) s) { events = s.events ++ e ∷ [] }

-- The transaction of a guarded statement and its event: both, or neither.
pub act_rule :
    {s : Db} (id : ℕ) (guard : Db → MatchRow → Bool) (f : ℕ → MatchRow → MatchRow)
    (classify : Snapshot → Guard) (e : Event)
    → Ends s
        (run_tx (guarded_update id guard f classify >> insert_event e))
        (λ r d. Either r (λ _. Acts s id guard f e d) (λ _. d ≡ s))
unfolding insert_event
act_rule {s} id guard f classify e = Ends-run_tx _ refl (
    guarded_update_rule id guard f classify _ refl (λ _. refl)
      λ r now found allowed.
        Ends-exec_last _ refl
          λ _. record { row = r; now = now; found = found; allowed = allowed; written = refl })

pub found_row :
    (o : Option MatchRow) (state : MatchApprovalState)
    → found_state o ≡ some state
    → (r : MatchRow) × (o ≡ some r) × (state ≡ state_of r)
found_row none state e = ground arith
found_row (some r) state e = (r, refl, ground arith)

module _ {A : Type 0} {s : Db} {P : Result A → Db → Type 0} (errors : (x : Err) → P (err x) s) where
  pub get_state_rule :
      (id : ℕ) (x : Err) (k : MatchApprovalState → M Db A)
      → ((r : MatchRow) → s.matches id ≡ some r → Ends s (k (state_of r)) P)
      → Ends s (get_match_approval_state id >>= λ found. require found x >>= k) P
  unfolding get_match_approval_state
  get_state_rule id x k next = Ends-query (select_state id) _ (errors infra) (
      Ends-require _ x k (λ _. errors x)
        λ state e.
          let (r, found, same) = found_row (s.matches id) state e in
          subst (λ st. Ends s (k st) P) (sym same) (next r found))

  pub check_open_rule : (id : ℕ) (k : M Db A) → Ends s k P → Ends s (check_open id >> k) P
  unfolding check_open is_week_closed is_season_closed_for_match
  check_open_rule id k next = Ends-bind {P = P} _ _ (
      Ends-query_or {P = Rest P (λ _. k)} _ _ _ (after_season false)
        (after_season (season_is_closed id s)))
    where
      after_week : (b : Bool) → Ends s (fail_if b (domain week_closed conflict)) (Rest P (λ _. k))
      after_week b = Ends-fail_if_last b _ (λ _. errors _) (λ _. next)

      after_season :
          (b : Bool)
          → Ends s
              (do
                fail_if b (domain season_closed conflict)
                is_closed ← query_or false (week_is_closed id)
                fail_if is_closed (domain week_closed conflict))
              (Rest P (λ _. k))
      after_season b =
          Ends-fail_if b _ _ (λ _. errors _)
            λ _. Ends-query_or _ _ _ (after_week false) (after_week (week_is_closed id s))

-- The team actions' check: the rest runs for an eligible player of a match that exists.
pub check_team_action_rule :
    {A : Type 0} {s : Db} {P : Result A → Db → Type 0} (errors : (x : Err) → P (err x) s) (id : ℕ)
    (side : TeamSide) (player : ℕ) (k : M Db A)
    → (eligible id side player s ≡ true → Ends s k P)
    → Ends s (check_team_action id side player >> k) P
unfolding check_team_action
check_team_action_rule {s} {P} errors id side player k next = Ends-bind {P = P} _ _ (
    get_state_rule errors' id _ _ λ r found.
      Ends-query _ _ (errors infra) (Ends-fail_if_last _ _ (λ _. errors _) λ e. next (of_not _ e)))
  where
    errors' : (x : Err) → Rest {B = Unit {0}} P (λ _. k) (err x) s
    errors' x = errors x

    of_not : (b : Bool) → not b ≡ false → b ≡ true
    of_not b e = ground arith
