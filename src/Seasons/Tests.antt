-- ===== src/Seasons/Tests.antt =====
-- An active season with one match, whose one week is closed.
use league_app.Base.{◌≡◌, refl, true, false, none, some, List, [], ◌∷◌, ◌==◌, if◌then◌else◌}
use league_app.Effects.{ok, World, query, exec, clock, ◌>>=◌}
use league_app.Seasons.Close.{
  SeasonDb, WeekSummary, get_season, get_match_count, get_season_missing_count, close_season_record,
  compute_close, commit_close, close_season,
}
use league_app.Seasons.Closing.{CloseOutcome, close_season_outcome}

abbrev one_season : SeasonDb
one_season = record {
  seasons = λ j.
      if j == 5
      then some (record {
        active = true;
        activated_at = some 10;
        closed_at = none;
        final_standings_snapshot = none;
      })
      else none;
  matches = record { season_id = 5; completed = true } ∷ [];
}

abbrev last_week : List WeekSummary
last_week = record { week_number = 1; is_closed = true } ∷ []

abbrev at_the_end : World SeasonDb
at_the_end = record { db = one_season; now = 90; calls = 0; fails = λ n. false }

season_done :
    (close_season 5 last_week [] at_the_end).0
    ≡ ok (record {
      active = false;
      activated_at = some 10;
      closed_at = some 90;
      final_standings_snapshot = some (record { captured_at = 90; standings = [] });
    })
unfolding close_season compute_close commit_close get_season get_match_count
    get_season_missing_count close_season_record query exec clock ◌>>=◌
season_done = refl

close_season_outcome_example :
    CloseOutcome one_season 5 last_week []
      (close_season 5 last_week [] at_the_end).0
      (close_season 5 last_week [] at_the_end).1.db
close_season_outcome_example = close_season_outcome 5 last_week [] at_the_end
