-- ===== src/Weeks/Messages.antt =====
-- backend/validation/validation.go with the codes of backend/domains/matches/closeweek.go: the
-- messages of a week's validation, each of one match. The texts are left out.
use league_app.Base.{ℕ, Bool, true, false, not, ◌&&◌, List, ◌==◌, exists_in, keep_if, String}
use league_app.Scoresheet.Spot.{Team, home, away}
use league_app.Scoresheet.Sheet.{
  Level, error, warning, MessageCode, no_scores, both_winners, score_range, loser_range,
  game_incomplete, hc_length_mismatch, Field, sheet, game, game_of,
}

pub data WeekCode : Type 0 where
  match_no_scores match_unassigned player_duplicate : WeekCode
  of_scoresheet : MessageCode → WeekCode

-- "match_<id>", or a field of that match's scoresheet.
pub data WeekField : Type 0 where
  match_field : ℕ → WeekField
  scoresheet_field : Field → WeekField

-- `MatchID` is set in every message of a week.
pub record WeekMessage : Type 0 where
  pub code : WeekCode
  pub field : WeekField
  pub level : Level
  pub match_id : ℕ

abbrev pub is_error_level : Level → Bool
is_error_level error = true
is_error_level warning = false

abbrev pub is_week_error : WeekMessage → Bool
is_week_error msg = is_error_level msg.level

abbrev pub is_week_warning : WeekMessage → Bool
is_week_warning msg = not (is_week_error msg)

-- `HasErrors`
abbrev pub has_week_errors : List WeekMessage → Bool
has_week_errors = exists_in is_week_error

-- `Warnings`
abbrev pub week_warnings : List WeekMessage → List WeekMessage
week_warnings = keep_if is_week_warning

abbrev code_number : MessageCode → ℕ
code_number no_scores = 0
code_number both_winners = 1
code_number score_range = 2
code_number loser_range = 3
code_number game_incomplete = 4
code_number hc_length_mismatch = 5

abbrev pub code_eq : WeekCode → WeekCode → Bool
code_eq match_no_scores match_no_scores = true
code_eq match_unassigned match_unassigned = true
code_eq player_duplicate player_duplicate = true
code_eq (of_scoresheet a) (of_scoresheet b) = code_number a == code_number b
code_eq _ _ = false

abbrev team_eq : Team → Team → Bool
team_eq home home = true
team_eq away away = true
team_eq _ _ = false

abbrev pub field_eq : WeekField → WeekField → Bool
field_eq (match_field a) (match_field b) = a == b
field_eq (scoresheet_field sheet) (scoresheet_field sheet) = true
field_eq (scoresheet_field (game i n)) (scoresheet_field (game j k)) = (i == j) && (n == k)
field_eq (scoresheet_field (game_of i n s)) (scoresheet_field (game_of j k t)) =
    (i == j) && ((n == k) && team_eq s t)
field_eq _ _ = false

-- One warning acknowledgment of the request. A code or a field that names no message is as good as
-- none.
pub record AckEntry : Type 0 where
  pub match_id : ℕ
  pub warning_code : WeekCode
  pub field : WeekField
  pub notes : String
