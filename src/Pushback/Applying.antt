-- ===== src/Pushback/Applying.antt =====
-- What applying a pushback does.
use league_app.Base.{
  ℕ, ◌≡◌, refl, sym, subst, ap, ◌∙◌, true, false, Option, some, List, [], ◌∷◌, ◌==◌, is_set, map,
  arith,
}
use league_app.Effects.{Result, ok, err, World, pure, ◌>>◌}
use league_app.Effects.Logic.{
  Ends, Either, Ends-pure, Ends-query, Ends-exec, Ends-exec_last, Ends-require, Ends-fail_if,
  Ends-bind, Ends-run_tx, Ends-mono, Ends-at,
}
use league_app.Pushback.Db.{
  PushbackSeason, PushbackDb, is_pushback_season_closed, season_exists,
  has_closed_weeks_at_or_after, closed_from, season_matches, get_pushback_matches, shift_match,
  shift_each, updated, update_season, apply_pushback,
}
use league_app.Pushback.Service.{
  PushbackPreviewRequest, PushbackPreviewResult, partition_matches, preview, apply,
}
use league_app.Pushback.Shift.{
  unique_ids, moved, shift_all, planned, shift_all-planned, latest_of, plan-ids, plan-end_date,
}

-- The plan for the database, which is made only for a valid request.
pub record Planned (s : PushbackDb) (req : PushbackPreviewRequest) (r : PushbackPreviewResult)
    : Type 0 where
  pub cutoff_given : (req.cutoff_week == 0) ≡ false
  pub weeks_given : (req.weeks_to_add == 0) ≡ false
  pub none_closed : closed_from req.season_id req.cutoff_week s ≡ false
  pub plan : r ≡ partition_matches req.cutoff_week req.weeks_to_add (season_matches req.season_id s)

-- The plan is carried out: the unplayed matches from the cutoff on have moved, by the weeks and by
-- seven days for each, and nothing else has; the season ends with its latest match.
pub record Pushed (s : PushbackDb) (req : PushbackPreviewRequest) (r : PushbackPreviewResult)
    (d : PushbackDb) : Type 0 where
  pub season : PushbackSeason
  pub found : s.seasons req.season_id ≡ some season
  pub season_open : is_set season.closed_at ≡ false
  pub made : Planned s req r
  pub rows : d.matches ≡ map (moved req.season_id req.cutoff_week req.weeks_to_add) s.matches
  pub end_date : r.new_end_date ≡ latest_of req.season_id d.matches
  pub season_after : d.seasons req.season_id ≡ updated r.new_end_date (some season)
  pub other_seasons : (j : ℕ) → (j == req.season_id) ≡ false → d.seasons j ≡ s.seasons j
  pub closed_kept : d.closed_weeks ≡ s.closed_weeks

abbrev pub PushOutcome :
    PushbackDb → PushbackPreviewRequest → Result PushbackPreviewResult → PushbackDb → Type 0
PushOutcome s req (ok r) d = Pushed s req r d
PushOutcome s req (err e) d = d ≡ s

each_rule :
    (season weeks : ℕ) (ids : List ℕ) (s : PushbackDb)
    → Ends s (shift_each season weeks ids) (λ r d.
      Either r (λ u. d ≡ record s { matches = shift_all season weeks ids s.matches }) (λ e. Unit))
unfolding shift_each
each_rule season weeks [] s = Ends-pure refl
each_rule season weeks (id ∷ ids) s = Ends-exec _ _ tt λ now.
    Ends-mono (each_rule season weeks ids (shift_match season weeks id s))
      (elim [ ok u ↦ λ d h. h | err e ↦ λ d h. tt ])

pub preview_rule :
    (s : PushbackDb) (req : PushbackPreviewRequest)
    → Ends s (preview req) (λ r d. (d ≡ s) × Either r (λ p. Planned s req p) (λ e. Unit))
unfolding preview season_exists has_closed_weeks_at_or_after get_pushback_matches
preview_rule s req =
    Ends-fail_if _ _ _ (λ _. (refl, tt))
      λ cutoff.
        Ends-fail_if _ _ _ (λ _. (refl, tt))
          λ weeks.
            Ends-query _ _ (refl, tt)
              (Ends-fail_if _ _ _ (λ _. (refl, tt))
                λ there.
                  Ends-query _ _ (refl, tt)
                    (Ends-fail_if _ _ _ (λ _. (refl, tt))
                      λ closed.
                        Ends-query _ _ (refl, tt)
                          (Ends-pure (
                            refl,
                            record {
                              cutoff_given = cutoff;
                              weeks_given = weeks;
                              none_closed = closed;
                              plan = refl;
                            },
                          ))))

pushed_lem :
    (s : PushbackDb) (req : PushbackPreviewRequest) (season : PushbackSeason)
    (r : PushbackPreviewResult)
    → unique_ids s.matches ≡ true
    → s.seasons req.season_id ≡ some season
    → is_set season.closed_at ≡ false
    → Planned s req r
    → Pushed s req r (
        update_season req.season_id r.new_end_date (record s {
          matches = shift_all req.season_id req.weeks_to_add (map (λ m. m.id) r.shifted) s.matches;
        }))
pushed_lem s req season r u found open_season p =
    let ids : map (λ m. m.id) r.shifted ≡ planned req.season_id req.cutoff_week s.matches =
      ap (λ (x : PushbackPreviewResult). map (λ m. m.id) x.shifted) p.plan
      ∙ plan-ids req.season_id req.cutoff_week req.weeks_to_add s.matches in
    let rows =
      ap (λ l. shift_all req.season_id req.weeks_to_add l s.matches) ids
      ∙ shift_all-planned req.season_id req.cutoff_week req.weeks_to_add s.matches u in
    record {
      season = season;
      found = found;
      season_open = open_season;
      made = p;
      rows = rows;
      end_date =
          ap (λ (x : PushbackPreviewResult). x.new_end_date) p.plan
          ∙ plan-end_date req.season_id req.cutoff_week req.weeks_to_add s.matches
          ∙ ap (latest_of req.season_id) (sym rows);
      season_after = ground arith;
      other_seasons = λ j h. ground arith;
      closed_kept = refl;
    }

-- The database after the writes for the given ids.
abbrev written : ℕ → List ℕ → ℕ → Option ℕ → PushbackDb → PushbackDb
written season ids weeks date s =
    update_season season date (record s { matches = shift_all season weeks ids s.matches })

store_rule :
    (s : PushbackDb) (season : ℕ) (ids : List ℕ) (weeks : ℕ) (date : Option ℕ)
    → Ends s
        (apply_pushback season ids weeks date)
        (λ r d. Either r (λ u. d ≡ written season ids weeks date s) (λ e. d ≡ s))
unfolding apply_pushback
store_rule s season ids weeks date = Ends-run_tx _ refl (
    Ends-bind _ _ (
      Ends-mono (each_rule season weeks ids s) (elim [
        | ok u ↦ λ d h. Ends-at h (Ends-exec_last _ refl (λ now. refl))
        | err e ↦ λ d h. refl
      ])))

carry_out :
    (s d : PushbackDb) (req : PushbackPreviewRequest) (r : PushbackPreviewResult)
    → Pushed s req r
        (written req.season_id (map (λ m. m.id) r.shifted) req.weeks_to_add r.new_end_date s)
    → d ≡ s
    → Ends d
        (apply_pushback req.season_id (map (λ m. m.id) r.shifted) req.weeks_to_add r.new_end_date
          >> pure r)
        (PushOutcome s req)
carry_out s d req r p e = Ends-at e (
    Ends-bind _ _ (
      Ends-mono
        (store_rule s req.season_id (map (λ m. m.id) r.shifted) req.weeks_to_add r.new_end_date)
        (elim [ ok u ↦ λ d' h. Ends-pure (subst (Pushed s req r) (sym h) p) | err x ↦ λ d' h. h ])))

apply_rule :
    (s : PushbackDb) (req : PushbackPreviewRequest)
    → unique_ids s.matches ≡ true
    → Ends s (apply req) (PushOutcome s req)
unfolding apply is_pushback_season_closed
apply_rule s req u = Ends-bind _ _ (
    Ends-query _ _ refl (
      Ends-require _ _ _ (λ _. refl)
        λ season found. Ends-pure (
          Ends-fail_if _ _ _ (λ _. refl)
            λ open_season. Ends-bind _ _ (
              Ends-mono (preview_rule s req) (elim [
                | ok r ↦ λ d h.
                    carry_out s d req r (pushed_lem s req season r u found open_season h.1) h.0
                | err e ↦ λ d h. h.0
              ])))))

pub apply_outcome :
    (req : PushbackPreviewRequest) (w : World PushbackDb)
    → unique_ids w.db.matches ≡ true
    → PushOutcome w.db req (apply req w).0 (apply req w).1.db
apply_outcome req w u = (apply_rule w.db req u).run w refl
