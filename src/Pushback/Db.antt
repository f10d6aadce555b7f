-- ===== src/Pushback/Db.antt =====
-- backend/storage/sqlite/pushback_store.go: the rows it reads and writes, and its statements. A date
-- is the number of its day: the order of texts YYYY-MM-DD is that of the days, and a stored text that
-- is no date does not occur.
use league_app.Base.{
  ℕ, ◌+◌, ◌*◌, Bool, false, not, ◌&&◌, Option, none, some, List, [], ◌∷◌, ◌==◌, leb, is_set,
  keep_if, exists_in, update_all, if◌then◌else◌,
}
use league_app.Effects.{infra, M, pure, ◌>>=◌, ◌>>◌, query, exec, run_tx, require}

-- A row of `matches`, with the columns of `PushbackMatchRow`. The query orders the rows by week and
-- id; here they come as they stand in the table.
pub record PushbackMatchRow : Type 0 where
  pub id : ℕ
  pub season_id : ℕ
  pub week_number : ℕ
  pub match_date : Option ℕ
  pub completed : Bool
  pub home_team_id : ℕ
  pub away_team_id : ℕ

pub record PushbackSeason : Type 0 where
  pub closed_at : Option ℕ
  pub end_date : Option ℕ
  pub schedule_stale : Bool

-- A row of `league_weeks` that says "closed".
pub record ClosedWeek : Type 0 where
  pub season_id : ℕ
  pub week_number : ℕ

pub record PushbackDb : Type 0 where
  pub matches : List PushbackMatchRow
  pub seasons : ℕ → Option PushbackSeason
  pub closed_weeks : List ClosedWeek

-- A season without a row is an error (`sql.ErrNoRows`).
unfoldable pub is_pushback_season_closed : ℕ → M PushbackDb Bool
is_pushback_season_closed season = do
  found ← query (λ d. d.seasons season)
  s ← require found infra
  pure (is_set s.closed_at)

unfoldable pub season_exists : ℕ → M PushbackDb Bool
season_exists season = query (λ d. is_set (d.seasons season))

abbrev pub closed_from : ℕ → ℕ → PushbackDb → Bool
closed_from season cutoff d =
    exists_in (λ w. (w.season_id == season) && leb cutoff w.week_number) d.closed_weeks

unfoldable pub has_closed_weeks_at_or_after : ℕ → ℕ → M PushbackDb Bool
has_closed_weeks_at_or_after season cutoff = query (closed_from season cutoff)

abbrev pub season_matches : ℕ → PushbackDb → List PushbackMatchRow
season_matches season d = keep_if (λ m. m.season_id == season) d.matches

unfoldable pub get_pushback_matches : ℕ → M PushbackDb (List PushbackMatchRow)
get_pushback_matches season = query (season_matches season)

abbrev pub later : ℕ → Option ℕ → Option ℕ
later days none = none
later days (some date) = some (date + days)

-- The columns that the `UPDATE` sets.
abbrev pub shift_row : ℕ → PushbackMatchRow → PushbackMatchRow
shift_row weeks m = record m {
  week_number = m.week_number + weeks;
  match_date = later (weeks * 7) m.match_date;
}

-- `WHERE id = ? AND season_id = ? AND COALESCE(completed, 0) = 0`
abbrev pub may_shift : ℕ → ℕ → PushbackMatchRow → Bool
may_shift season id m = (m.id == id) && ((m.season_id == season) && not m.completed)

abbrev pub shift_match : ℕ → ℕ → ℕ → PushbackDb → PushbackDb
shift_match season weeks id d = record d {
  matches = update_all (may_shift season id) (shift_row weeks) d.matches;
}

unfoldable pub shift_each : ℕ → ℕ → List ℕ → M PushbackDb (Unit {0})
shift_each season weeks [] = pure tt
shift_each season weeks (id ∷ ids) = do
  exec (λ now d. (tt, shift_match season weeks id d))
  shift_each season weeks ids

abbrev pub new_end : Option ℕ → Option ℕ → Option ℕ
new_end none before = before
new_end (some date) before = some date

abbrev pub updated : Option ℕ → Option PushbackSeason → Option PushbackSeason
updated date none = none
updated date (some s) =
    some (record s { end_date = new_end date s.end_date; schedule_stale = false })

abbrev pub update_season : ℕ → Option ℕ → PushbackDb → PushbackDb
update_season season date d = record d {
  seasons = λ j. if j == season then updated date (d.seasons j) else d.seasons j;
}

unfoldable pub apply_pushback : ℕ → List ℕ → ℕ → Option ℕ → M PushbackDb (Unit {0})
apply_pushback season ids weeks date =
    run_tx (do shift_each season weeks ids; exec (λ now d. (tt, update_season season date d)))
