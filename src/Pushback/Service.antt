-- ===== src/Pushback/Service.antt =====
-- backend/domains/matches/pushback_service.go.
use league_app.Base.{
  ℕ, ◌+◌, ◌*◌, Bool, true, not, Option, none, some, List, [], ◌∷◌, ◌==◌, ltb, map, if◌then◌else◌,
}
use league_app.Effects.{
  domain, not_found, invalid_input, conflict, season_closed, pushback_invalid_cutoff,
  pushback_invalid_weeks_to_add, pushback_season_not_found, pushback_has_closed_weeks, M, pure,
  ◌>>=◌, ◌>>◌, fail_if,
}
use league_app.Pushback.Db.{
  PushbackMatchRow, PushbackDb, is_pushback_season_closed, season_exists,
  has_closed_weeks_at_or_after, get_pushback_matches, later, apply_pushback,
}

-- `int` fields; a number below 0 is refused as 0 is.
pub record PushbackPreviewRequest : Type 0 where
  pub season_id : ℕ
  pub cutoff_week : ℕ
  pub weeks_to_add : ℕ

pub record ShiftedMatch : Type 0 where
  pub id : ℕ
  pub week_number : ℕ
  pub new_week_number : ℕ
  pub match_date : Option ℕ
  pub new_match_date : Option ℕ
  pub home_team_id : ℕ
  pub away_team_id : ℕ

pub record PreservedMatch : Type 0 where
  pub id : ℕ
  pub week_number : ℕ
  pub match_date : Option ℕ
  pub completed : Bool
  pub home_team_id : ℕ
  pub away_team_id : ℕ

pub record PushbackPreviewResult : Type 0 where
  pub shifted : List ShiftedMatch
  pub preserved : List PreservedMatch
  pub new_end_date : Option ℕ

abbrev max_date : ℕ → ℕ → ℕ
max_date a b = if ltb b a then a else b

-- `latestDate` after a date, if there is one.
abbrev pub latest : Option ℕ → Option ℕ → Option ℕ
latest none so_far = so_far
latest (some date) none = some date
latest (some date) (some l) = some (max_date date l)

abbrev pub shifted_match : ℕ → PushbackMatchRow → ShiftedMatch
shifted_match weeks m = record {
  id = m.id;
  week_number = m.week_number;
  new_week_number = m.week_number + weeks;
  match_date = m.match_date;
  new_match_date = later (weeks * 7) m.match_date;
  home_team_id = m.home_team_id;
  away_team_id = m.away_team_id;
}

abbrev pub preserved_match : PushbackMatchRow → PreservedMatch
preserved_match m = record {
  id = m.id;
  week_number = m.week_number;
  match_date = m.match_date;
  completed = true;
  home_team_id = m.home_team_id;
  away_team_id = m.away_team_id;
}

-- The loop over the matches from the back: the two lists are in its order, and the latest date is
-- the same in any order.
unfoldable pub partition_matches : ℕ → ℕ → List PushbackMatchRow → PushbackPreviewResult
partition_matches cutoff weeks [] = record { shifted = []; preserved = []; new_end_date = none }
partition_matches cutoff weeks (m ∷ ms) =
    let rest = partition_matches cutoff weeks ms in
    if ltb m.week_number cutoff
    then record rest { new_end_date = latest m.match_date rest.new_end_date }
    else if m.completed
    then record rest {
      preserved = preserved_match m ∷ rest.preserved;
      new_end_date = latest m.match_date rest.new_end_date;
    }
    else record rest {
      shifted = shifted_match weeks m ∷ rest.shifted;
      new_end_date = latest (later (weeks * 7) m.match_date) rest.new_end_date;
    }

-- `compute`, which is `Preview`.
unfoldable pub preview : PushbackPreviewRequest → M PushbackDb PushbackPreviewResult
preview req = do
  fail_if (req.cutoff_week == 0) (domain pushback_invalid_cutoff invalid_input)
  fail_if (req.weeks_to_add == 0) (domain pushback_invalid_weeks_to_add invalid_input)
  exists_row ← season_exists req.season_id
  fail_if (not exists_row) (domain pushback_season_not_found not_found)
  has_closed ← has_closed_weeks_at_or_after req.season_id req.cutoff_week
  fail_if has_closed (domain pushback_has_closed_weeks conflict)
  all_matches ← get_pushback_matches req.season_id
  pure (partition_matches req.cutoff_week req.weeks_to_add all_matches)

unfoldable pub apply : PushbackPreviewRequest → M PushbackDb PushbackPreviewResult
apply req = do
  is_closed ← is_pushback_season_closed req.season_id
  fail_if is_closed (domain season_closed conflict)
  result ← preview req
  apply_pushback req.season_id (map (λ m. m.id) result.shifted) req.weeks_to_add result.new_end_date
  pure result
