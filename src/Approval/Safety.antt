-- ===== src/Approval/Safety.antt =====
-- What holds of the `matches` table over every list of requests.
use league_app.Base.{
  ℕ, suc, String, ◌≡◌, ◌≢◌, refl, sym, ap, subst, inl, inr, Bool, true, ◌&&◌, Option, none, some,
  List, [], ◌∷◌, arith,
}
use league_app.Effects.{ok, err, Result, World}
use league_app.Effects.Logic.{Either}
use league_app.Approval.Db.{
  Db, MatchRow, Side, approved, correction_requested, ResultRow, still_editable,
}
use league_app.Approval.Store.{with_approval}
use league_app.Approval.Frame.{Touched, Touched-self, Touched-put, Touched-of_eq, Acts-Touched}
use league_app.Approval.Soundness.{
  IsSound, RowIsSound, SideIsSound, Touched-IsSound, acted-RowIsSound, cleared-RowIsSound,
  cleared-SideIsSound, timed-RowIsSound,
}
use league_app.Approval.Edits.{Edited, Reset}
use league_app.Approval.Accept.{Changed, Accepts}
use league_app.Approval.Requests.{
  Request, approve_side, withdraw_side, correct_side, accept, approve, process, unapprove,
  unprocess, submit, clear, target, Effect, serve, serve_all, serve_outcome,
}

pub Changed-Touched :
    {s : Db} {id : ℕ} {cond : MatchRow → Bool} {f : ℕ → MatchRow → MatchRow} {d : Db}
    (c : Changed s id cond f d)
    → Touched s id (f c.now c.row) d
Changed-Touched {s} {id} {f} {d} c =
    Touched-of_eq s id _ _ d c.written
      (Touched-put s id c.row (f c.now c.row) s s.events (Touched-self s id c.row c.found))

Accepts-Touched :
    {s : Db} {id : ℕ} {by : Option ℕ} {note : String} {override : Bool} {expected : ℕ} {d : Db}
    (c : Accepts s id by note override expected d)
    → Touched s id (with_approval by note c.now c.row) d
Accepts-Touched {s} {id} {d} c =
    Touched-of_eq s id _ _ d c.written
      (Touched-put s id c.row _ s _ (Touched-self s id c.row c.found))

Reset-SideIsSound :
    (r : MatchRow) (old new : Side)
    → SideIsSound r old
    → Reset old new
    → (t : MatchRow) → SideIsSound t new
Reset-SideIsSound r old new v (inl (p, e)) t = ground arith
Reset-SideIsSound r old new v (inr (now, e)) t =
    subst (SideIsSound t) (sym e) (cleared-SideIsSound t now)

edited-RowIsSound :
    (d : Db) (r : MatchRow) (home_after away_after : Side) (flag : Bool)
    → still_editable d r ≡ true
    → Reset r.home_side home_after
    → Reset r.away_side away_after
    → RowIsSound r
    → RowIsSound (record r {
      completed = flag;
      score_revision = suc r.score_revision;
      home_side = home_after;
      away_side = away_after;
    })
unfolding still_editable
edited-RowIsSound d r home_after away_after flag open_row h a v = record {
  home_is_sound = Reset-SideIsSound r _ _ v.home_is_sound h _;
  away_is_sound = Reset-SideIsSound r _ _ v.away_is_sound a _;
  accepted_scored = ground arith;
  processed_accepted = ground arith;
}

of_and : (a b : Bool) → (a && b) ≡ true → b ≡ true
of_and a b h = ground arith

Edited-IsSound :
    {s : Db} {id : ℕ} {expected : Option ℕ} {flag : Bool} {revision : ℕ} {d : Db}
    {results : List ResultRow}
    → IsSound s
    → Edited s id expected (λ _. flag) results revision d
    → IsSound d
Edited-IsSound {s} {id} {expected} {flag} sound e = Touched-IsSound sound e.touched (
    edited-RowIsSound s e.row _ _ flag (of_and _ _ e.allowed) e.home_reset e.away_reset
      (sound id e.row e.found))

module _ (trim : String → String) where
  Effect-IsSound : (q : Request) (s d : Db) → IsSound s → Effect trim q s d → IsSound d
  Effect-IsSound (approve_side id text expected actor) s d sound e =
      let a = e.done in
      Touched-IsSound sound (Acts-Touched s id a) (
        acted-RowIsSound approved a.now actor "" e.side expected s a.row (λ p. cc) (λ _. refl)
          a.allowed (sound id a.row a.found))
  Effect-IsSound (withdraw_side id text expected actor) s d sound e =
      let a = e.done in
      Touched-IsSound sound (Acts-Touched s id a)
        (cleared-RowIsSound a.now e.side a.row (sound id a.row a.found))
  Effect-IsSound (correct_side id text expected note actor) s d sound e =
      let a = e.done.1 in
      Touched-IsSound sound (Acts-Touched s id a) (
        acted-RowIsSound correction_requested a.now actor note e.side expected s a.row (λ p. cc)
          (λ p. cc) a.allowed (sound id a.row a.found))
  Effect-IsSound (accept id by note override expected) s d sound e =
      let v : RowIsSound e.row = sound id e.row e.found in
      Touched-IsSound sound (Accepts-Touched e) (
        timed-RowIsSound e.row (some e.now) _ by _ note v (λ _. ground (arith, e.allowed))
          (λ _. refl))
  Effect-IsSound (approve id by note) s d sound e =
      let v : RowIsSound e.row = sound id e.row e.found in
      Touched-IsSound sound (Changed-Touched e)
        (timed-RowIsSound e.row (some e.now) _ by _ note v (λ _. ground arith) (λ _. refl))
  Effect-IsSound (process id by) s d sound e =
      let v : RowIsSound e.row = sound id e.row e.found in
      Touched-IsSound sound (Changed-Touched e)
        (timed-RowIsSound e.row _ (some e.now) _ by _ v v.accepted_scored (λ _. e.allowed))
  Effect-IsSound (unapprove id) s d sound e =
      let v : RowIsSound e.row = sound id e.row e.found in
      Touched-IsSound sound (Changed-Touched e)
        (timed-RowIsSound e.row none _ none _ "" v (ground arith) (ground arith))
  Effect-IsSound (unprocess id) s d sound e =
      let v : RowIsSound e.row = sound id e.row e.found in
      Touched-IsSound sound (Changed-Touched e)
        (timed-RowIsSound e.row _ none _ none _ v v.accepted_scored (ground arith))
  Effect-IsSound (submit id rs expected) s d sound (revision, e) = Edited-IsSound sound e
  Effect-IsSound (clear id expected) s d sound (revision, e) = Edited-IsSound sound e

  by_outcome :
      (q : Request) (r : Result (Unit {0})) (s d : Db)
      → IsSound s
      → Either r (λ _. Effect trim q s d) (λ _. d ≡ s)
      → IsSound d
  by_outcome q (ok _) s d sound e = Effect-IsSound q s d sound e
  by_outcome q (err x) s d sound e = subst IsSound (sym e) sound

  -- The invariant of the `matches` table holds after any list of requests, whichever of them and
  -- whichever calls of the driver fail, if it holds before.
  pub serve_all-IsSound :
      (qs : List Request) (w : World Db) → IsSound w.db → IsSound (serve_all trim qs w).db
  unfolding serve_all
  serve_all-IsSound [] w sound = sound
  serve_all-IsSound (q ∷ qs) w sound =
      serve_all-IsSound qs (serve trim q w).1
        (by_outcome q (serve trim q w).0 w.db (serve trim q w).1.db sound (serve_outcome trim q w))

  pub Effect-others :
      (q : Request) (s d : Db) (j : ℕ)
      → Effect trim q s d
      → j ≢ target q
      → d.matches j ≡ s.matches j
  Effect-others (approve_side id _ _ _) s d j e h = (Acts-Touched s id e.done).others j h
  Effect-others (withdraw_side id _ _ _) s d j e h = (Acts-Touched s id e.done).others j h
  Effect-others (correct_side id _ _ _ _) s d j e h = (Acts-Touched s id e.done.1).others j h
  Effect-others (accept id _ _ _ _) s d j e h = (Accepts-Touched e).others j h
  Effect-others (approve id _ _) s d j e h = (Changed-Touched e).others j h
  Effect-others (process id _) s d j e h = (Changed-Touched e).others j h
  Effect-others (unapprove id) s d j e h = (Changed-Touched e).others j h
  Effect-others (unprocess id) s d j e h = (Changed-Touched e).others j h
  Effect-others (submit id _ _) s d j (_, e) h = e.touched.others j h
  Effect-others (clear id _) s d j (_, e) h = e.touched.others j h

  others_by_outcome :
      (q : Request) (r : Result (Unit {0})) (s d : Db) (j : ℕ)
      → Either r (λ _. Effect trim q s d) (λ _. d ≡ s)
      → j ≢ target q
      → d.matches j ≡ s.matches j
  others_by_outcome q (ok _) s d j e h = Effect-others q s d j e h
  others_by_outcome q (err x) s d j e h = ap (λ t. t.matches j) e

  -- A request leaves the row of every match but the one that it names as it was.
  pub serve_others :
      (q : Request) (w : World Db) (j : ℕ)
      → j ≢ target q
      → (serve trim q w).1.db.matches j ≡ w.db.matches j
  serve_others q w j h =
      others_by_outcome q (serve trim q w).0 w.db (serve trim q w).1.db j (serve_outcome trim q w) h
