-- ===== src/Approval/Results.antt =====
-- `submitResults` and `clearResults` of round_service.go: a whole edit is done, or nothing.
use league_app.Base.{
  ℕ, suc, ◌≡◌, refl, sym, subst, Bool, true, false, Option, List, [], ◌∷◌, ◌==◌, ◌++◌, keep_if, not,
}
use mathlib.Core.List.{append-nil, append_assoc}
use league_app.Effects.{Err, ok, err, Result, M, pure, ◌>>=◌, ◌>>◌, run_tx, map_err}
use league_app.Effects.Logic.{
  Ends, Either, Rest, Ends-pure, Ends-exec, Ends-exec_last, Ends-bind, Ends-run_tx, Ends-map_err,
  Ends-mono,
}
use league_app.Approval.Db.{
  Db, MatchRow, ResultRow, without_results, put, update_where, update_found,
}
use league_app.Approval.Guards.{map_score_edit_guard}
use league_app.Approval.Store.{
  update_by_id, advance_score_revision_for_edit, insert_match_results, submit_match_results,
  clear_match_results, delete_match_results, mark_match,
}
use league_app.Approval.Service.{submit_results, clear_results}
use league_app.Approval.Edits.{Edited, Advanced, Advancing, advance_rule}
use league_app.Approval.Frame.{Touched, Touched-put}

-- The results that replace those of the match.
abbrev pub stamped : ℕ → List ResultRow → List ResultRow
stamped id [] = []
stamped id (r ∷ rs) = record r { match_id = id } ∷ stamped id rs

-- The results of the other matches.
abbrev pub kept : ℕ → List ResultRow → List ResultRow
kept id = keep_if (λ q. not (q.match_id == id))

abbrev with_results : Db → List ResultRow → Db
with_results d rs = record d { results = rs }

insert_rule :
    {Q : Result (Unit {0}) → Db → Type 0} (errors : (x : Err) (d : Db) → Q (err x) d) (d : Db)
    (id : ℕ) (rs : List ResultRow)
    → Q (ok tt) (with_results d (d.results ++ stamped id rs))
    → Ends d (insert_match_results id rs) Q
unfolding insert_match_results
insert_rule {Q} errors d id [] next =
    Ends-pure (subst (λ l. Q (ok tt) (with_results d l)) (append-nil d.results) next)
insert_rule {Q} errors d id (r ∷ rs) next = Ends-exec _ _ (errors _ _) λ _.
    insert_rule errors (with_results d (d.results ++ record r { match_id = id } ∷ [])) id rs (
      subst (λ l. Q (ok tt) (with_results d l))
        (sym (append_assoc d.results (record r { match_id = id } ∷ []) (stamped id rs))) next)

-- The edit's own row, written over the advanced one.
edited_row :
    {s : Db} {id : ℕ} {expected : Option ℕ} {revision : ℕ} {d : Db}
    → Bool
    → Advanced s id expected revision d
    → MatchRow
edited_row flag a = record a.row {
  completed = flag;
  score_revision = suc a.row.score_revision;
  home_side = a.home_after;
  away_side = a.away_after;
}

finished :
    (s d : Db) (id : ℕ) (expected : Option ℕ) (flag : Bool) (revision : ℕ)
    (results : List ResultRow) (a : Advanced s id expected revision d)
    → Edited s id expected
        (λ _. flag)
        results
        revision
        (put id (edited_row flag a) (with_results d results))
unfolding edited_row
finished s d id expected flag revision results a = record {
  row = a.row;
  home_after = a.home_after;
  away_after = a.away_after;
  found = a.found;
  allowed = a.allowed;
  next_revision = a.next_revision;
  home_reset = a.home_reset;
  away_reset = a.away_reset;
  touched = Touched-put s id _ _ (with_results d results) d.events there;
  results_after = refl;
  logged = a.logged;
}
  where
    there : Touched s id (edited_row a.row.completed a) (with_results d results)
    there = record {
      written = a.touched.written;
      others = a.touched.others;
      seasons_kept = a.touched.seasons_kept;
      rosters_kept = a.touched.rosters_kept;
      rounds_kept = a.touched.rounds_kept;
    }

abbrev pub Edits : Db → ℕ → Option ℕ → Bool → List ResultRow → Result ℕ → Db → Type 0
Edits s id expected flag results r d =
    Either r (λ revision. Edited s id expected (λ _. flag) results revision d) (λ _. Unit {0})

-- The last statement of an edit.
finish :
    (s d : Db) (id : ℕ) (expected : Option ℕ) (flag : Bool) (revision : ℕ)
    (results : List ResultRow)
    → Advanced s id expected revision d
    → Ends
        (with_results d results)
        (mark_match id flag)
        (Rest (Edits s id expected flag results) (λ _. pure revision))
unfolding mark_match update_by_id update_where edited_row
finish s d id expected flag revision results a =
    Ends-exec_last {P = Rest G (λ _. pure revision)} _ tt λ now.
      subst
        (λ o.
          Ends
            (update_found o id (λ _. true) (λ r. record r { completed = flag })
              (with_results d results)).1
            (pure revision) G)
        (sym a.touched.written)
        (Ends-pure {P = G} (finished s d id expected flag revision results a))
  where
    G : Result ℕ → Db → Type 0
    G = Edits s id expected flag results

-- A whole edit is one transaction: the advance, the new results, the flag; or nothing at all.
edit_rule :
    (s : Db) (id : ℕ) (expected : Option ℕ) (flag : Bool) (results : List ResultRow)
    (write : M Db (Unit {0}))
    → ((d : Db) (revision : ℕ)
        → Advanced s id expected revision d
        → Ends d write (Rest (Edits s id expected flag results) (λ _. pure revision)))
    → Ends s
        (run_tx (do
          revision ← map_err map_score_edit_guard (advance_score_revision_for_edit id expected)
          write
          pure revision))
        (λ r d.
          Either r (λ revision. Edited s id expected (λ _. flag) results revision d) (λ _. d ≡ s))
edit_rule s id expected flag results write writes = Ends-run_tx _ refl (
    Ends-mono
      (Ends-bind {P = Edits s id expected flag results} _ _
        (Ends-map_err _ _ (Ends-mono (advance_rule s id expected) after)))
      settled)
  where
    G : Result ℕ → Db → Type 0
    G = Edits s id expected flag results

    after :
        (r : Result ℕ) (d : Db)
        → Advancing s id expected r d
        → Either r (λ revision. Ends d (write >> pure revision) G) (λ _. Unit {0})
    after (ok revision) d a = Ends-bind {P = G} _ _ (writes d revision a)
    after (err x) d a = tt

    settled :
        (r : Result ℕ) (d : Db)
        → G r d
        → Either r (λ revision. Edited s id expected (λ _. flag) results revision d) (λ _. s ≡ s)
    settled (ok revision) d a = a
    settled (err x) d a = refl

pub submit_results_rule :
    (s : Db) (id : ℕ) (rs : List ResultRow) (expected : Option ℕ)
    → Ends s (submit_results id rs expected) (λ r d.
      Either r
        (λ revision.
          Edited s id expected (λ _. true) (kept id s.results ++ stamped id rs) revision d)
        (λ _. d ≡ s))
unfolding submit_results submit_match_results delete_match_results
submit_results_rule s id rs expected = edit_rule s id expected true _ _ λ d revision a.
    subst
      (λ l.
        Ends d (submit_match_results id rs)
          (Rest (Edits s id expected true (kept id l ++ stamped id rs)) (λ _. pure revision)))
      a.results_after
      (Ends-exec _ _ tt λ _. Ends-bind _ _ (
        insert_rule (λ _ _. tt) (without_results id d) id rs
          (finish s d id expected true revision (kept id d.results ++ stamped id rs) a)))

pub clear_results_rule :
    (s : Db) (id : ℕ) (expected : Option ℕ)
    → Ends s (clear_results id expected) (λ r d.
      Either r
        (λ revision. Edited s id expected (λ _. false) (kept id s.results) revision d)
        (λ _. d ≡ s))
unfolding clear_results clear_match_results delete_match_results
clear_results_rule s id expected = edit_rule s id expected false _ _ λ d revision a.
    subst
      (λ l.
        Ends d (clear_match_results id)
          (Rest (Edits s id expected false (kept id l)) (λ _. pure revision)))
      a.results_after
      (Ends-exec _ _ tt λ _. finish s d id expected false revision (kept id d.results) a)
