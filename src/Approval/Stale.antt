-- ===== src/Approval/Stale.antt =====
-- Revisions: after an edit, a request that was prepared for the scores before it is refused. And
-- the reads that fail open: what the unguarded operations do when a check's own query fails.
use league_app.Base.{
  ℕ, suc, String, ◌≡◌, ◌≢◌, refl, ◌∙◌, sym, subst, Bool, true, false, Option, none, some, ◌==◌,
  of_some, arith,
}
use league_app.Effects.{ok, World}
use league_app.Effects.Logic.{Either}
use league_app.Approval.Db.{Db, MatchRow}
use league_app.Approval.Requests.{
  Request, approve_side, withdraw_side, correct_side, accept, approve, process, unapprove,
  unprocess, submit, clear, target, Effect, serve, serve_outcome,
}

-- The score revision for which a request was prepared, where it names one.
abbrev pub prepared_for : Request → Option ℕ
prepared_for (approve_side _ _ expected _) = some expected
prepared_for (withdraw_side _ _ expected _) = some expected
prepared_for (correct_side _ _ expected _ _) = some expected
prepared_for (accept _ _ _ _ expected) = some expected
prepared_for (submit _ _ expected) = expected
prepared_for (clear _ expected) = expected
prepared_for _ = none

abbrev pub edits_scores : Request → Bool
edits_scores (submit _ _ _) = true
edits_scores (clear _ _) = true
edits_scores _ = false

prepared_row :
    (s : Db) (id : ℕ) (row r : MatchRow) (n expected : ℕ)
    → s.matches id ≡ some row
    → s.matches id ≡ some r
    → (row.score_revision == expected) ≡ true
    → some expected ≡ some n
    → r.score_revision ≡ n
prepared_row s id row r n expected e f h p =
    let same : row ≡ r = of_some (sym e ∙ f) in
    subst (λ t. t.score_revision ≡ n) same (ground arith)

module _ (trim : String → String) where
  prepared_matches :
      (q : Request) (s d : Db) (r : MatchRow) (n : ℕ)
      → Effect trim q s d
      → s.matches (target q) ≡ some r
      → prepared_for q ≡ some n
      → r.score_revision ≡ n
  prepared_matches (approve_side id _ expected _) s d r n e f p =
      prepared_row s id e.done.row r n expected e.done.found f (ground (arith, e.done.allowed)) p
  prepared_matches (withdraw_side id _ expected _) s d r n e f p =
      prepared_row s id e.done.row r n expected e.done.found f (ground (arith, e.done.allowed)) p
  prepared_matches (correct_side id _ expected _ _) s d r n e f p =
      prepared_row s id e.done.1.row r n expected e.done.1.found f
        (ground (arith, e.done.1.allowed)) p
  prepared_matches (accept id _ _ _ expected) s d r n e f p =
      prepared_row s id e.row r n expected e.found f (ground (arith, e.allowed)) p
  prepared_matches (submit id _ (some expected)) s d r n (_, e) f p =
      prepared_row s id e.row r n expected e.found f (ground (arith, e.allowed)) p
  prepared_matches (clear id (some expected)) s d r n (_, e) f p =
      prepared_row s id e.row r n expected e.found f (ground (arith, e.allowed)) p
  prepared_matches (submit id _ none) s d r n e f p = cc
  prepared_matches (clear id none) s d r n e f p = cc
  prepared_matches (approve _ _ _) s d r n e f p = cc
  prepared_matches (process _ _) s d r n e f p = cc
  prepared_matches (unapprove _) s d r n e f p = cc
  prepared_matches (unprocess _) s d r n e f p = cc

  is_ok :
      (q : Request) (w : World Db)
      → (serve trim q w).0 ≡ ok tt
      → Effect trim q w.db (serve trim q w).1.db
  is_ok q w e =
      subst
        (λ r.
          Either r (λ _. Effect trim q w.db (serve trim q w).1.db)
            (λ _. (serve trim q w).1.db ≡ w.db))
        e (serve_outcome trim q w)

  edited_revision :
      (q : Request) (s d : Db) (row : MatchRow)
      → edits_scores q ≡ true
      → Effect trim q s d
      → s.matches (target q) ≡ some row
      → (r : MatchRow) × (d.matches (target q) ≡ some r)
        × (r.score_revision ≡ suc row.score_revision)
  edited_revision (submit id rs expected) s d row h (_, e) found = (
    _,
    e.touched.written,
    subst (λ t. suc t.score_revision ≡ suc row.score_revision) (of_some (sym found ∙ e.found)) refl,
  )
  edited_revision (clear id expected) s d row h (_, e) found = (
    _,
    e.touched.written,
    subst (λ t. suc t.score_revision ≡ suc row.score_revision) (of_some (sym found ∙ e.found)) refl,
  )
  edited_revision _ s d row h e found = cc

  -- After a successful edit of a match's results, no request on that match that was prepared for
  -- the revision before the edit succeeds: no approval, withdrawal, correction, acceptance or
  -- second edit is applied to scores that its sender has not seen.
  pub prepared_before_edit :
      (q q' : Request) (w : World Db) (row : MatchRow)
      → w.db.matches (target q) ≡ some row
      → edits_scores q ≡ true
      → (serve trim q w).0 ≡ ok tt
      → target q' ≡ target q
      → prepared_for q' ≡ some row.score_revision
      → (serve trim q' (serve trim q w).1).0 ≢ ok tt
  prepared_before_edit q q' w row found edits done same prepared again =
      let s : Db = (serve trim q w).1.db in
      let (r, there, revision) = edited_revision q w.db s row edits (is_ok q w done) found in
      let old : r.score_revision ≡ row.score_revision =
        prepared_matches q' s (serve trim q' (serve trim q w).1).1.db r row.score_revision
          (is_ok q' (serve trim q w).1 again) (subst (λ j. s.matches j ≡ some r) (sym same) there)
          prepared in
      omega arith
