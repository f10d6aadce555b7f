-- ===== src/Weeks/Tests.antt =====
-- A week of one match, approved and with an incomplete game, and the theorems about it.
use league_app.Base.{
  ◌≡◌, refl, true, false, none, some, [], ◌∷◌, ◌==◌, pos, if◌then◌else◌, arith, forall_in, ◌↔◌,
  is_set,
}
use league_app.Effects.{ok, World, query, exec, run_tx, ◌>>=◌}
use league_app.Effects.Runs.{Reached}
use league_app.Approval.Db.{MatchRow, cleared_side}
use league_app.Scoresheet.Sheet.{game, game_incomplete, game_messages}
use league_app.Scoresheet.Rounds.{
  RoundConfig, any_score, validate_rounds, messages_from, pairing_messages,
}
use league_app.Scoresheet.Legal.{home_won, open_game, SheetIsLegal}
use league_app.Scoresheet.Whole.{whole_float}
use league_app.Weeks.Db.{ScoreRow, WeekDb}
use league_app.Weeks.Messages.{of_scoresheet, scoresheet_field, has_week_errors, week_warnings}
use league_app.Weeks.Validate.{all_slots, duplicates, match_messages, validate_week_data}
use league_app.Weeks.Config.{Strconv, resolve_round_config}
use league_app.Weeks.Store.{
  is_season_closed, is_season_draft, load_matches, get_week_validation_data, insert_acks,
}
use league_app.Weeks.Store
use league_app.Weeks.Service.{
  CloseWeekRequest, week_done, notes_for, close_validated, close_week, reopen_week,
}
use league_app.Weeks.Ready.{AllReady, validate_week_data-errors}
use league_app.Weeks.Loading.{week_rows}
use league_app.Weeks.Closing.{ReopenOutcome, reopen_week_outcome}
use league_app.Weeks.Flags.{
  FlagsAgree, close_request, reopen_request, serve_weeks, serve_weeks-FlagsAgree, still_processed,
  reopen_week-close_week,
}
use league_app.Weeks.Closable.{IsDone, close_week-IsDone}

abbrev whole_strconv : Strconv whole_float
whole_strconv = record {
  float_zero = pos 0;
  parse_float = λ s. none;
  positive_finite = λ f. true;
  atoi = λ s. none;
}

abbrev approved_row : MatchRow
approved_row = record {
  season_id = 1;
  home_team_id = some 10;
  away_team_id = some 20;
  completed = true;
  week_closed = false;
  approved_at = some 50;
  approved_by_user_id = none;
  approval_note = "";
  processed_at = none;
  processed_by_user_id = none;
  score_revision = 4;
  home_side = cleared_side 0;
  away_side = cleared_side 0;
}

abbrev played : ScoreRow whole_float
played = record {
  match_id = 7;
  round_number = 1;
  home_player_id = 11;
  away_player_id = 21;
  game1 = record { h = pos 10; a = pos 3 };
  game2 = record { h = pos 0; a = pos 0 };
  game3 = record { h = pos 5; a = pos 3 };
  home_handicap_used = some (pos 2);
  away_handicap_used = none;
}

abbrev one_week : WeekDb whole_float
one_week = record {
  matches = record { id = 7; week_number = 3; row = approved_row } ∷ [];
  scores = played ∷ [];
  players = λ p. some (some (pos 1));
  seasons = λ j.
      if j == 1
      then some (record { active = true; activated_at = some 1; closed_at = none })
      else none;
  rules = λ s k. none;
  weeks = λ s w. none;
  lineups = [];
  acks = [];
}

abbrev week_request : CloseWeekRequest
week_request = record {
  season_id = 1;
  week_number = 3;
  acknowledgments =
      record {
        match_id = 7;
        warning_code = of_scoresheet game_incomplete;
        field = scoresheet_field (game 0 3);
        notes = "left early";
      }
      ∷ [];
  processed_by_user_id = some 2;
}

abbrev calm_week : World (WeekDb whole_float)
calm_week = record { db = one_week; now = 900; calls = 0; fails = λ n. false }

abbrev by_default : RoundConfig whole_float
by_default = record { multiplier = pos 3; min_ball_hc = pos 0 }

close_done :
    (close_week whole_float whole_strconv week_request calm_week).0
    ≡ ok (week_done (record { ack_count = 1; processed_count = 1 }))
unfolding close_week is_season_closed is_season_draft resolve_round_config get_week_validation_data
    load_matches close_validated Store.close_week insert_acks query exec run_tx ◌>>=◌
    validate_week_data match_messages duplicates all_slots any_score validate_rounds messages_from
    pairing_messages game_messages notes_for
close_done = refl

reopen_week_outcome_example :
    ReopenOutcome whole_float whole_strconv one_week 1 3
      (reopen_week whole_float whole_strconv 1 3 calm_week).0
      (reopen_week whole_float whole_strconv 1 3 calm_week).1.db
reopen_week_outcome_example = reopen_week_outcome whole_float whole_strconv 1 3 calm_week

serve_weeks-FlagsAgree_example :
    FlagsAgree whole_float
      (serve_weeks whole_float whole_strconv
        (close_request week_request ∷ reopen_request 1 3 ∷ [])
        calm_week).db
serve_weeks-FlagsAgree_example =
    serve_weeks-FlagsAgree whole_float whole_strconv
      (close_request week_request ∷ reopen_request 1 3 ∷ []) calm_week refl

reopen_week-close_week_example :
    forall_in
      (still_processed whole_float whole_strconv 1 3)
      (reopen_week whole_float whole_strconv 1 3
        (close_week whole_float whole_strconv week_request calm_week).1).1.db.matches
    ≡ true
reopen_week-close_week_example =
    reopen_week-close_week whole_float whole_strconv week_request _ calm_week close_done

played-SheetIsLegal : SheetIsLegal (
    record {
      round_number = 1;
      home_player_id = 11;
      away_player_id = 21;
      game1 = record { h = pos 10; a = pos 3 };
      game2 = record { h = pos 0; a = pos 0 };
      game3 = record { h = pos 5; a = pos 3 };
    }
    ∷ [])
played-SheetIsLegal =
    SheetIsLegal.cons
      (
        home_won 3 (ground arith),
        open_game 0 0 (ground arith) (ground arith),
        open_game 5 3 (ground arith) (ground arith),
      )
      SheetIsLegal.nil

one_week-AllReady :
    AllReady whole_float by_default (week_rows whole_float whole_strconv 1 3 one_week)
unfolding all_slots any_score
one_week-AllReady =
    AllReady.cons
      (record {
        home_team = refl;
        away_team = refl;
        one_place_a_round = refl;
        scored = refl;
        legal = played-SheetIsLegal;
      })
      AllReady.nil

validate_week_data-errors_example :
    (has_week_errors (
        validate_week_data whole_float
          (week_rows whole_float whole_strconv 1 3 one_week)
          by_default)
      ≡ false)
    ↔ AllReady whole_float by_default (week_rows whole_float whole_strconv 1 3 one_week)
validate_week_data-errors_example =
    validate_week_data-errors whole_float by_default
      (week_rows whole_float whole_strconv 1 3 one_week)

warnings_acked :
    forall_in
      (λ msg. is_set (notes_for msg week_request.acknowledgments))
      (week_warnings (
        validate_week_data whole_float
          (week_rows whole_float whole_strconv 1 3 one_week)
          by_default))
    ≡ true
unfolding validate_week_data match_messages duplicates all_slots any_score validate_rounds
    messages_from pairing_messages game_messages notes_for
warnings_acked = refl

close_week-IsDone_example :
    Reached
      (λ r d. IsDone whole_float whole_strconv r)
      (close_week whole_float whole_strconv week_request calm_week)
close_week-IsDone_example =
    close_week-IsDone whole_float whole_strconv week_request
      (record { active = true; activated_at = some 1; closed_at = none }) by_default calm_week
      (λ n. refl) refl refl refl (record { multiplier = refl; min_ball = refl }) one_week-AllReady
      warnings_acked
