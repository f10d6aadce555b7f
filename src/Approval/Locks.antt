-- ===== src/Approval/Locks.antt =====
-- An accepted match is locked: its scores and its sides stay until it is unapproved.
use league_app.Base.{
  ℕ, String, ◌≡◌, ◌≢◌, refl, ◌∙◌, sym, ap, subst, inl, inr, ==_iff, Bool, true, false, not, some,
  List, [], ◌∷◌, ◌==◌, is_set, of_some, Bool-cases, arith, forall_in,
}
use league_app.Effects.{ok, err, Result, World}
use league_app.Effects.Logic.{Either}
use league_app.Approval.Db.{Db, MatchRow, ResultRow, still_editable}
use league_app.Approval.Scores.{results_of, Effect-results_others}
use league_app.Approval.Safety.{Effect-others, Changed-Touched}
use league_app.Approval.Accept.{Changed}
use league_app.Approval.Requests.{
  Request, approve_side, withdraw_side, correct_side, accept, approve, process, unapprove,
  unprocess, submit, clear, target, Effect, serve, serve_all, serve_outcome,
}

-- The row `t` is accepted, with the completed flag, the score revision and the sides of `r`.
pub record Locked (r t : MatchRow) : Type 0 where
  pub revision_same : t.score_revision ≡ r.score_revision
  pub completed_same : t.completed ≡ r.completed
  pub home_same : t.home_side ≡ r.home_side
  pub away_same : t.away_side ≡ r.away_side
  pub still_accepted : is_set t.approved_at ≡ true

-- The match `id` is so locked in the database, and its results are `results`.
abbrev pub LockedIn : ℕ → MatchRow → List ResultRow → Db → Type 0
LockedIn id r results d =
    (t : MatchRow) × (d.matches id ≡ some t) × Locked r t × (results_of id d.results ≡ results)

-- The request would undo the acceptance of the match `id`.
abbrev pub unapproves : ℕ → Request → Bool
unapproves id (unapprove j) = j == id
unapproves id _ = false

editable_not_accepted :
    (d : Db) (r : MatchRow) → still_editable d r ≡ true → is_set r.approved_at ≡ false
unfolding still_editable
editable_not_accepted d r h = ground arith

-- A guarded write meets no accepted match.
refuted :
    (s : Db) (id : ℕ) (r row : MatchRow) (rs : List ResultRow)
    → LockedIn id r rs s
    → s.matches id ≡ some row
    → still_editable s row ≡ true
    → ⊥
refuted s id r row rs (t, found, l, k) e h =
    let same : t ≡ row = of_some (sym found ∙ e) in
    ground (arith, editable_not_accepted s row h, l.still_accepted)

rewritten :
    {s d : Db} {id : ℕ} {cond : MatchRow → Bool} {f : ℕ → MatchRow → MatchRow} {r : MatchRow}
    {rs : List ResultRow} (c : Changed s id cond f d)
    → ((row : MatchRow) → Locked r row → Locked r (f c.now row))
    → LockedIn id r rs s
    → LockedIn id r rs d
rewritten {id} {r} c keep (t, found, l, k) = (
  _,
  (Changed-Touched c).written,
  keep c.row (subst (Locked r) (of_some (sym found ∙ c.found)) l),
  ap (λ x. results_of id x.results) c.written ∙ k,
)

module _ (trim : String → String) where
  locked_here :
      (q : Request) (s d : Db) (r : MatchRow) (rs : List ResultRow)
      → unapproves (target q) q ≡ false
      → Effect trim q s d
      → LockedIn (target q) r rs s
      → LockedIn (target q) r rs d
  locked_here (approve_side id _ expected _) s d r rs n e l =
      let a = e.done in absurd (refuted s id r a.row rs l a.found (ground (arith, a.allowed)))
  locked_here (withdraw_side id _ expected _) s d r rs n e l =
      let a = e.done in absurd (refuted s id r a.row rs l a.found (ground (arith, a.allowed)))
  locked_here (correct_side id _ expected _ _) s d r rs n e l =
      let a = e.done.1 in absurd (refuted s id r a.row rs l a.found (ground (arith, a.allowed)))
  locked_here (accept id _ _ _ expected) s d r rs n e l =
      absurd (refuted s id r e.row rs l e.found (ground (arith, e.allowed)))
  locked_here (approve id by note) s d r rs n e l = rewritten e (λ row k. ground arith) l
  locked_here (process id by) s d r rs n e l = rewritten e (λ row k. ground arith) l
  locked_here (unapprove id) s d r rs n e l = absurd (ground arith)
  locked_here (unprocess id) s d r rs n e l = rewritten e (λ row k. ground arith) l
  locked_here (submit id _ _) s d r rs n (_, e) l =
      absurd (refuted s id r e.row rs l e.found (ground (arith, e.allowed)))
  locked_here (clear id _) s d r rs n (_, e) l =
      absurd (refuted s id r e.row rs l e.found (ground (arith, e.allowed)))

  locked_step :
      (q : Request) (s d : Db) (id : ℕ) (r : MatchRow) (rs : List ResultRow)
      → unapproves id q ≡ false
      → Effect trim q s d
      → LockedIn id r rs s
      → LockedIn id r rs d
  locked_step q s d id r rs n e (t, found, l, k) = elim (Bool-cases (id == target q)) [
    | inl here ↦ at_target ((==_iff id (target q)).0 here)
    | inr there ↦ (
      t,
      Effect-others trim q s d id e (apart there) ∙ found,
      l,
      Effect-results_others trim q s d id e (apart there) ∙ k,
    )
  ]
    where
      apart : (id == target q) ≡ false → id ≢ target q
      apart there p = ground arith

      at_target : id ≡ target q → LockedIn id r rs d
      at_target p =
          subst (λ j. LockedIn j r rs d) (sym p)
            (locked_here q s d r rs (subst (λ j. unapproves j q ≡ false) p n) e
              (subst (λ j. LockedIn j r rs s) p (t, found, l, k)))

  locked_after :
      (q : Request) (o : Result (Unit {0})) (s d : Db) (id : ℕ) (r : MatchRow) (rs : List ResultRow)
      → unapproves id q ≡ false
      → Either o (λ _. Effect trim q s d) (λ _. d ≡ s)
      → LockedIn id r rs s
      → LockedIn id r rs d
  locked_after q (ok _) s d id r rs n e l = locked_step q s d id r rs n e l
  locked_after q (err x) s d id r rs n e l = subst (LockedIn id r rs) (sym e) l

  locked_all :
      (qs : List Request) (w : World Db) (id : ℕ) (r : MatchRow) (rs : List ResultRow)
      → forall_in (λ q. not (unapproves id q)) qs ≡ true
      → LockedIn id r rs w.db
      → LockedIn id r rs (serve_all trim qs w).db
  unfolding serve_all
  locked_all [] w id r rs h l = l
  locked_all (q ∷ qs) w id r rs h l = locked_all qs (serve trim q w).1 id r rs (ground arith) (
      locked_after q (serve trim q w).0 w.db (serve trim q w).1.db id r rs (ground arith)
        (serve_outcome trim q w) l)

  -- A match that is accepted keeps its results, its completed flag, its score revision and both
  -- sides, and stays accepted, through any list of requests that does not unapprove it, whichever requests and
  -- whichever calls of the driver fail.
  pub accepted-Locked :
      (qs : List Request) (w : World Db) (id : ℕ) (r : MatchRow)
      → w.db.matches id ≡ some r
      → is_set r.approved_at ≡ true
      → forall_in (λ q. not (unapproves id q)) qs ≡ true
      → LockedIn id r (results_of id w.db.results) (serve_all trim qs w).db
  accepted-Locked qs w id r found accepted none_undoes = locked_all qs w id r _ none_undoes (
    r,
    found,
    record {
      revision_same = refl;
      completed_same = refl;
      home_same = refl;
      away_same = refl;
      still_accepted = accepted;
    },
    refl,
  )
