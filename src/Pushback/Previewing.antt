-- ===== src/Pushback/Previewing.antt =====
-- The preview of a pushback tells what applying it leaves in the database.
use league_app.Base.{
  ℕ, ◌≡◌, refl, sym, ap, ◌∙◌, true, Bool-cases, inl, inr, Option, none, some, false, List, [], ◌∷◌,
  ◌==◌, map, keep_if, if◌then◌else◌, arith, subst,
}
use league_app.Effects.{Result, ok, World}
use league_app.Effects.Logic.{Either-ok}
use league_app.Pushback.Db.{PushbackMatchRow, PushbackDb, PushbackSeason, season_matches, new_end}
use league_app.Pushback.Service.{
  ShiftedMatch, shifted_match, partition_matches, PushbackPreviewRequest, PushbackPreviewResult,
  preview, apply,
}
use league_app.Pushback.Shift.{unique_ids, moved, moves, has_id, in_season, moved-stays}
use league_app.Pushback.Applying.{Planned, Pushed, PushOutcome, preview_rule, apply_outcome}

-- A row as a plan leaves it: with the week and the date of the plan's entry for it, if it has one.
abbrev pub carry : List ShiftedMatch → PushbackMatchRow → PushbackMatchRow
carry [] m = m
carry (p ∷ ps) m =
    let rest = carry ps m in
    if p.id == m.id
    then record m { week_number = p.new_week_number; match_date = p.new_match_date }
    else rest

abbrev plan_of : ℕ → ℕ → ℕ → List PushbackMatchRow → List ShiftedMatch
plan_of season cutoff weeks ms =
    (partition_matches cutoff weeks (keep_if (in_season season) ms)).shifted

plan_of-goes :
    (season cutoff weeks : ℕ) (m : PushbackMatchRow) (ms : List PushbackMatchRow)
    → moves season cutoff m ≡ true
    → plan_of season cutoff weeks (m ∷ ms) ≡ shifted_match weeks m ∷ plan_of season cutoff weeks ms
unfolding partition_matches
plan_of-goes season cutoff weeks m ms h = ground arith

plan_of-stays :
    (season cutoff weeks : ℕ) (m : PushbackMatchRow) (ms : List PushbackMatchRow)
    → moves season cutoff m ≡ false
    → plan_of season cutoff weeks (m ∷ ms) ≡ plan_of season cutoff weeks ms
unfolding partition_matches
plan_of-stays season cutoff weeks m ms h = ground arith

-- An entry for another row changes nothing of these.
map-carry_skip :
    (p : ShiftedMatch) (ps : List ShiftedMatch) (ms : List PushbackMatchRow)
    → has_id p.id ms ≡ false
    → map (carry (p ∷ ps)) ms ≡ map (carry ps) ms
map-carry_skip p ps [] h = refl
map-carry_skip p ps (m ∷ ms) h = let ih = map-carry_skip p ps ms in ground arith

carry-plan_absent :
    (season cutoff weeks : ℕ) (m : PushbackMatchRow) (ms : List PushbackMatchRow)
    → has_id m.id ms ≡ false
    → carry (plan_of season cutoff weeks ms) m ≡ m
unfolding partition_matches
carry-plan_absent season cutoff weeks m [] h = refl
carry-plan_absent season cutoff weeks m (x ∷ ms) h =
    let ih = carry-plan_absent season cutoff weeks m ms in ground arith

carry_head :
    (season cutoff weeks : ℕ) (m : PushbackMatchRow) (ps : List ShiftedMatch)
    → moves season cutoff m ≡ true
    → carry (shifted_match weeks m ∷ ps) m ≡ moved season cutoff weeks m
carry_head season cutoff weeks m ps h = ground arith

-- The rows as the plan leaves them are the moved ones.
map-carry_plan :
    (season cutoff weeks : ℕ) (ms : List PushbackMatchRow)
    → unique_ids ms ≡ true
    → map (carry (plan_of season cutoff weeks ms)) ms ≡ map (moved season cutoff weeks) ms
unfolding partition_matches
map-carry_plan season cutoff weeks [] u = refl
map-carry_plan season cutoff weeks (m ∷ ms) u =
    let fresh : has_id m.id ms ≡ false = ground arith in
    let ih = map-carry_plan season cutoff weeks ms (ground arith) in
    elim (Bool-cases (moves season cutoff m)) [
      | inl goes ↦
          ap (λ ps. map (carry ps) (m ∷ ms)) (plan_of-goes season cutoff weeks m ms goes)
          ∙ ap (λ x. x ∷ map (carry (shifted_match weeks m ∷ plan_of season cutoff weeks ms)) ms)
              (carry_head season cutoff weeks m (plan_of season cutoff weeks ms) goes)
          ∙ ap (λ l. moved season cutoff weeks m ∷ l)
              (map-carry_skip (shifted_match weeks m) (plan_of season cutoff weeks ms) ms fresh
                ∙ ih)
      | inr stays ↦
          ap (λ ps. map (carry ps) (m ∷ ms)) (plan_of-stays season cutoff weeks m ms stays)
          ∙ ap (λ x. x ∷ map (carry (plan_of season cutoff weeks ms)) ms)
              (carry-plan_absent season cutoff weeks m ms fresh
                ∙ sym (moved-stays season cutoff weeks m stays))
          ∙ ap (λ l. moved season cutoff weeks m ∷ l) ih
    ]

outcome_of_ok :
    (s d : PushbackDb) (req : PushbackPreviewRequest) (o : Result PushbackPreviewResult)
    (r : PushbackPreviewResult)
    → o ≡ ok r
    → PushOutcome s req o d
    → Pushed s req r d
outcome_of_ok s d req o r e p = subst (λ x. PushOutcome s req x d) e p

-- The plan's date, or the one before where it has none.
abbrev pub date_after : Option ℕ → Option ℕ → Option ℕ
date_after none before = before
date_after (some date) before = some date

new_end-date_after : (date before : Option ℕ) → new_end date before ≡ date_after date before
new_end-date_after none before = refl
new_end-date_after (some date) before = refl

-- The database holds what the plan `p` says: each match that it lists has the week and the date of
-- its entry and is otherwise as it was, as is every other match; the season has the plan's end date,
-- if it has one, and its schedule is not stale.
pub record CarriesOut (s : PushbackDb) (season : ℕ) (p : PushbackPreviewResult) (d : PushbackDb)
    : Type 0 where
  pub matches_after : d.matches ≡ map (carry p.shifted) s.matches
  pub before : PushbackSeason
  pub found : s.seasons season ≡ some before
  pub season_after :
      d.seasons season
      ≡ some (record {
        closed_at = before.closed_at;
        end_date = date_after p.new_end_date before.end_date;
        schedule_stale = false;
      })
  pub other_seasons : (j : ℕ) → (j == season) ≡ false → d.seasons j ≡ s.seasons j
  pub closed_kept : d.closed_weeks ≡ s.closed_weeks

carries_out :
    (s d : PushbackDb) (req : PushbackPreviewRequest) (r : PushbackPreviewResult)
    → unique_ids s.matches ≡ true
    → Pushed s req r d
    → CarriesOut s req.season_id r d
carries_out s d req r u p = record {
  matches_after =
      p.rows
      ∙ sym (map-carry_plan req.season_id req.cutoff_week req.weeks_to_add s.matches u)
      ∙ ap (λ (x : PushbackPreviewResult). map (carry x.shifted) s.matches) (sym p.made.plan);
  before = p.season;
  found = p.found;
  season_after =
      p.season_after
      ∙ ap
          (λ e.
            some (record { closed_at = p.season.closed_at; end_date = e; schedule_stale = false }))
          (new_end-date_after r.new_end_date p.season.end_date);
  other_seasons = p.other_seasons;
  closed_kept = p.closed_kept;
}

-- The preview writes nothing, and an application to the same database, at another time and with
-- other calls failing, leaves the database that the preview's plan describes: each match that the
-- plan lists has the week and the date of its entry, and is otherwise as it was, as is every other
-- match; the season has the plan's end date, if it has one, and its schedule is not stale; other
-- seasons and the closed weeks are as they were. The ids of the table are a key.
pub apply-preview :
    (req : PushbackPreviewRequest) (v w : World PushbackDb) (p r : PushbackPreviewResult)
    → unique_ids w.db.matches ≡ true
    → w.db ≡ v.db
    → (preview req v).0 ≡ ok p
    → (apply req w).0 ≡ ok r
    → ((preview req v).1.db ≡ v.db) × (r ≡ p) × CarriesOut w.db req.season_id p (apply req w).1.db
apply-preview req v w p r u same shown done =
    let o = (preview_rule v.db req).run v refl in
    let q = Either-ok (λ x. Planned v.db req x) (λ e. Unit {0}) _ p shown o.1 in
    let a = outcome_of_ok w.db _ req _ r done (apply_outcome req w u) in
    let as_shown : r ≡ p =
      a.made.plan
      ∙ ap
          (λ d. partition_matches req.cutoff_week req.weeks_to_add (season_matches req.season_id d))
          same
      ∙ sym q.plan in
    (
      o.0,
      as_shown,
      subst (λ x. CarriesOut w.db req.season_id x (apply req w).1.db) as_shown
          (carries_out w.db _ req r u a),
    )
