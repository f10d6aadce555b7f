-- ===== src/Pushback/Tests.antt =====
-- A season of three matches, the last two of which are pushed back by a week, one of them played.
use league_app.Base.{◌≡◌, refl, true, false, none, some, [], ◌∷◌, ◌==◌, if◌then◌else◌}
use league_app.Effects.{ok, World, query, exec, run_tx, ◌>>=◌}
use league_app.Pushback.Db.{
  PushbackDb, is_pushback_season_closed, season_exists, has_closed_weeks_at_or_after,
  get_pushback_matches, shift_each, apply_pushback,
}
use league_app.Pushback.Service.{
  PushbackPreviewRequest, PushbackPreviewResult, partition_matches, preview, apply,
}
use league_app.Pushback.Previewing.{CarriesOut, apply-preview}

abbrev three_weeks : PushbackDb
three_weeks = record {
  matches =
      record {
        id = 1;
        season_id = 5;
        week_number = 1;
        match_date = some 700;
        completed = true;
        home_team_id = 1;
        away_team_id = 2;
      }
      ∷ record {
        id = 2;
        season_id = 5;
        week_number = 2;
        match_date = some 707;
        completed = true;
        home_team_id = 2;
        away_team_id = 3;
      }
      ∷ record {
        id = 3;
        season_id = 5;
        week_number = 2;
        match_date = some 707;
        completed = false;
        home_team_id = 1;
        away_team_id = 4;
      }
      ∷ [];
  seasons = λ j.
      if j == 5
      then some (record { closed_at = none; end_date = some 707; schedule_stale = true })
      else none;
  closed_weeks = record { season_id = 5; week_number = 1 } ∷ [];
}

abbrev one_week_later : PushbackPreviewRequest
one_week_later = record { season_id = 5; cutoff_week = 2; weeks_to_add = 1 }

abbrev before_push : World PushbackDb
before_push = record { db = three_weeks; now = 10; calls = 0; fails = λ n. false }

abbrev push_plan : PushbackPreviewResult
push_plan = record {
  shifted =
      record {
        id = 3;
        week_number = 2;
        new_week_number = 3;
        match_date = some 707;
        new_match_date = some 714;
        home_team_id = 1;
        away_team_id = 4;
      }
      ∷ [];
  preserved =
      record {
        id = 2;
        week_number = 2;
        match_date = some 707;
        completed = true;
        home_team_id = 2;
        away_team_id = 3;
      }
      ∷ [];
  new_end_date = some 714;
}

push_shown : (preview one_week_later before_push).0 ≡ ok push_plan
unfolding preview season_exists has_closed_weeks_at_or_after get_pushback_matches partition_matches
    query ◌>>=◌
push_shown = refl

push_done : (apply one_week_later before_push).0 ≡ ok push_plan
unfolding apply preview is_pushback_season_closed season_exists has_closed_weeks_at_or_after
    get_pushback_matches partition_matches apply_pushback shift_each query exec run_tx ◌>>=◌
push_done = refl

apply-preview_example :
    ((preview one_week_later before_push).1.db ≡ three_weeks)
    × (push_plan ≡ push_plan)
    × CarriesOut three_weeks 5 push_plan (apply one_week_later before_push).1.db
apply-preview_example =
    apply-preview one_week_later before_push before_push push_plan push_plan refl refl push_shown
      push_done
