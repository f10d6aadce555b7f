-- ===== src/Approval/Scores.antt =====
-- The rows of `match_results` of one match: which requests leave them alone.
use league_app.Base.{ℕ, String, ◌≡◌, ◌≢◌, refl, ◌∙◌, ap, List, [], ◌∷◌, ◌++◌, ◌==◌, keep_if, arith}
use league_app.Approval.Db.{Db, ResultRow}
use league_app.Approval.Results.{stamped, kept}
use league_app.Approval.Requests.{
  Request, approve_side, withdraw_side, correct_side, accept, approve, process, unapprove,
  unprocess, submit, clear, target, Effect,
}

-- The results of the match, in their order.
abbrev pub results_of : ℕ → List ResultRow → List ResultRow
results_of id = keep_if (λ q. q.match_id == id)

results_of-kept :
    (j id : ℕ) (l : List ResultRow) → j ≢ id → results_of j (kept id l) ≡ results_of j l
results_of-kept j id [] h = refl
results_of-kept j id (q ∷ l) h = let ih = results_of-kept j id l h in ground arith

results_of-stamped : (j id : ℕ) (l : List ResultRow) → j ≢ id → results_of j (stamped id l) ≡ []
results_of-stamped j id [] h = refl
results_of-stamped j id (q ∷ l) h = let ih = results_of-stamped j id l h in ground arith

results_of-replaced :
    (j id : ℕ) (k l : List ResultRow)
    → j ≢ id
    → results_of j (kept id k ++ stamped id l) ≡ results_of j k
results_of-replaced j id [] l h = results_of-stamped j id l h
results_of-replaced j id (q ∷ k) l h = let ih = results_of-replaced j id k l h in ground arith

-- A request for another match leaves them.
module _ (trim : String → String) where
  pub Effect-results_others :
      (q : Request) (s d : Db) (j : ℕ)
      → Effect trim q s d
      → j ≢ target q
      → results_of j d.results ≡ results_of j s.results
  Effect-results_others (approve_side id _ _ _) s d j e h =
      ap (λ t. results_of j t.results) e.done.written
  Effect-results_others (withdraw_side id _ _ _) s d j e h =
      ap (λ t. results_of j t.results) e.done.written
  Effect-results_others (correct_side id _ _ _ _) s d j e h =
      ap (λ t. results_of j t.results) e.done.1.written
  Effect-results_others (accept id _ _ _ _) s d j e h = ap (λ t. results_of j t.results) e.written
  Effect-results_others (approve id _ _) s d j e h = ap (λ t. results_of j t.results) e.written
  Effect-results_others (process id _) s d j e h = ap (λ t. results_of j t.results) e.written
  Effect-results_others (unapprove id) s d j e h = ap (λ t. results_of j t.results) e.written
  Effect-results_others (unprocess id) s d j e h = ap (λ t. results_of j t.results) e.written
  Effect-results_others (submit id rs _) s d j (_, e) h =
      ap (results_of j) e.results_after ∙ results_of-replaced j id s.results rs h
  Effect-results_others (clear id _) s d j (_, e) h =
      ap (results_of j) e.results_after ∙ results_of-kept j id s.results h
