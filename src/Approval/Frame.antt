-- ===== src/Approval/Frame.antt =====
-- What an operation on one match leaves alone.
use league_app.Base.{ℕ, ◌≡◌, ◌≢◌, refl, ◌∙◌, Bool, some, List, arith}
use league_app.Approval.Db.{Db, MatchRow, Event, put}
use league_app.Approval.Rules.{Acts}

-- The database `d` is `s` but for the row `id`, which is `after`, the log and the results.
pub record Touched (s : Db) (id : ℕ) (after : MatchRow) (d : Db) : Type 0 where
  pub written : d.matches id ≡ some after
  pub others : (j : ℕ) → j ≢ id → d.matches j ≡ s.matches j
  pub seasons_kept : d.seasons ≡ s.seasons
  pub rosters_kept : d.rosters ≡ s.rosters
  pub rounds_kept : d.rounds ≡ s.rounds

pub Touched-self : (s : Db) (id : ℕ) (r : MatchRow) → s.matches id ≡ some r → Touched s id r s
Touched-self s id r found = record {
  written = found;
  others = λ j _. refl;
  seasons_kept = refl;
  rosters_kept = refl;
  rounds_kept = refl;
}

put_here : (id : ℕ) (r : MatchRow) (d : Db) → (put id r d).matches id ≡ some r
put_here id r d = ground arith

put_elsewhere : (id j : ℕ) (r : MatchRow) (d : Db) → j ≢ id → (put id r d).matches j ≡ d.matches j
put_elsewhere id j r d h = ground arith

pub Touched-put :
    (s : Db) (id : ℕ) (r r' : MatchRow) (d : Db) (es : List Event)
    → Touched s id r d
    → Touched s id r' (record (put id r' d) { events = es })
Touched-put s id r r' d es t = record {
  written = put_here id r' d;
  others = λ j h. put_elsewhere id j r' d h ∙ t.others j h;
  seasons_kept = t.seasons_kept;
  rosters_kept = t.rosters_kept;
  rounds_kept = t.rounds_kept;
}

-- The same database, seen through an equation.
pub Touched-of_eq :
    (s : Db) (id : ℕ) (r : MatchRow) (d d' : Db) → d' ≡ d → Touched s id r d → Touched s id r d'
Touched-of_eq s id r d d' e t = rw e t

pub Acts-Touched :
    (s : Db) (id : ℕ) {guard : Db → MatchRow → Bool} {f : ℕ → MatchRow → MatchRow} {e : Event}
    {d : Db} (a : Acts s id guard f e d)
    → Touched s id (f a.now a.row) d
Acts-Touched s id {f} {e} {d} a =
    Touched-of_eq s id _ _ d a.written
      (Touched-put s id a.row (f a.now a.row) s _ (Touched-self s id a.row a.found))
