-- ===== src/Approval/Soundness.antt =====
-- The invariant of the `matches` table.
use league_app.Base.{
  Option, ℕ, String, ◌≡◌, ◌≢◌, refl, ◌∙◌, sym, ap, subst, of_some, inl, inr, true, false, none,
  some, ◌==◌, ==_iff, is_set, Bool-cases, arith,
}
use league_app.Approval.Db.{
  Db, MatchRow, Side, SideState, pending, approved, TeamSide, home, away, with_side, cleared_side,
}
use league_app.Approval.Store.{Actor, acted_side, scored_guard}
use league_app.Approval.Frame.{Touched}

-- One side of a match `r`.
pub record SideIsSound (r : MatchRow) (x : Side) : Type 0 where
  pub blank : x.state ≡ pending → (x.state_score_revision ≡ none) × (x.correction_note ≡ "")
  pub current : x.state ≢ pending → x.state_score_revision ≡ some r.score_revision
  pub scored : x.state ≢ pending → r.completed ≡ true
  pub no_note : x.state ≡ approved → x.correction_note ≡ ""

-- A team's word is about the current scores, an accepted match has scores, and a processed match
-- was accepted.
pub record RowIsSound (r : MatchRow) : Type 0 where
  pub home_is_sound : SideIsSound r r.home_side
  pub away_is_sound : SideIsSound r r.away_side
  pub accepted_scored : is_set r.approved_at ≡ true → r.completed ≡ true
  pub processed_accepted : is_set r.processed_at ≡ true → is_set r.approved_at ≡ true

abbrev pub IsSound : Db → Type 0
IsSound d = (id : ℕ) (r : MatchRow) → d.matches id ≡ some r → RowIsSound r

pub Touched-IsSound :
    {s d : Db} {id : ℕ} {after : MatchRow}
    → IsSound s
    → Touched s id after d
    → RowIsSound after
    → IsSound d
Touched-IsSound {s} {d} {id} {after} sound t h j r e = elim (Bool-cases (j == id)) [
  | inl here ↦ subst RowIsSound (same j r here e) h
  | inr there ↦ sound j r (sym (t.others j (apart j there)) ∙ e)
]
  where
    same : (j : ℕ) (r : MatchRow) → (j == id) ≡ true → d.matches j ≡ some r → after ≡ r
    same j r here e =
        let p : j ≡ id = (==_iff j id).0 here in
        of_some (sym t.written ∙ (ap d.matches (sym p) ∙ e))

    apart : (j : ℕ) → (j == id) ≡ false → j ≢ id
    apart j there p = ground arith

pub cleared-SideIsSound : (r : MatchRow) (now : ℕ) → SideIsSound r (cleared_side now)
cleared-SideIsSound r now = record {
  blank = λ _. (refl, refl);
  current = λ h. absurd (h refl);
  scored = λ h. absurd (h refl);
  no_note = λ _. refl;
}

pub acted-RowIsSound :
    (state : SideState) (now : ℕ) (actor : Actor) (note : String) (side : TeamSide) (expected : ℕ)
    (d : Db) (r : MatchRow)
    → state ≢ pending
    → (state ≡ approved → note ≡ "")
    → scored_guard expected d r ≡ true
    → RowIsSound r
    → RowIsSound (with_side side (acted_side state now actor expected note) r)
acted-RowIsSound state now actor note home expected d r h n g v = ground arith
acted-RowIsSound state now actor note away expected d r h n g v = ground arith

pub cleared-RowIsSound :
    (now : ℕ) (side : TeamSide) (r : MatchRow)
    → RowIsSound r
    → RowIsSound (with_side side (cleared_side now) r)
cleared-RowIsSound now home r v = ground (arith, cleared-SideIsSound r now)
cleared-RowIsSound now away r v = ground (arith, cleared-SideIsSound r now)

-- A side is judged by the revision and the flag of its match alone.
pub same-SideIsSound :
    (r t : MatchRow) (x : Side)
    → t.score_revision ≡ r.score_revision
    → t.completed ≡ r.completed
    → SideIsSound r x
    → SideIsSound t x
same-SideIsSound r t x e f v = record {
  blank = v.blank;
  current = λ h. v.current h ∙ ap some (sym e);
  scored = λ h. f ∙ v.scored h;
  no_note = v.no_note;
}

-- An administrator's write keeps the scores and the sides, and may move the two times.
pub timed-RowIsSound :
    (r : MatchRow) (at processed_at : Option ℕ) (by processed_by : Option ℕ) (note : String)
    → RowIsSound r
    → (is_set at ≡ true → r.completed ≡ true)
    → (is_set processed_at ≡ true → is_set at ≡ true)
    → RowIsSound (record r {
      approved_at = at;
      approved_by_user_id = by;
      approval_note = note;
      processed_at = processed_at;
      processed_by_user_id = processed_by;
    })
timed-RowIsSound r at processed_at by processed_by note v h k = record {
  home_is_sound = same-SideIsSound r _ r.home_side refl refl v.home_is_sound;
  away_is_sound = same-SideIsSound r _ r.away_side refl refl v.away_is_sound;
  accepted_scored = h;
  processed_accepted = k;
}
