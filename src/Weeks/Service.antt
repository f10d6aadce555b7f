-- ===== src/Weeks/Service.antt =====
-- backend/domains/matches/service.go: validating, closing and reopening a week.
use league_app.Base.{
  ℕ, String, Bool, true, false, not, ◌&&◌, Option, none, some, List, [], ◌∷◌, map, ◌==◌, is_set,
  length, keep_if, if◌then◌else◌,
}
use league_app.Effects.{
  domain, not_found, conflict, season_closed, week_close_season_draft, week_not_found,
  week_not_closed, M, pure, ◌>>=◌, ◌>>◌, fail_if,
}
use league_app.Scoresheet.Spot.{Float}
use league_app.Scoresheet.Sheet.{error}
use league_app.Weeks.Db.{WeekStatus, open_week, closed_week, WeekDb}
use league_app.Weeks.Messages.{
  WeekMessage, AckEntry, has_week_errors, week_warnings, code_eq, field_eq,
}
use league_app.Weeks.Validate.{validate_week_data}
use league_app.Weeks.Config.{Strconv, resolve_round_config}
use league_app.Weeks.Store.{
  week_match_count, get_week_status, is_season_draft, is_season_closed, get_week_validation_data,
}
use league_app.Weeks.Store

pub record CloseWeekRequest : Type 0 where
  pub season_id : ℕ
  pub week_number : ℕ
  pub acknowledgments : List AckEntry
  pub processed_by_user_id : Option ℕ

pub record CloseWeekResult : Type 0 where
  pub ack_count : ℕ
  pub processed_count : ℕ

-- `week_blocked` is the error `*WeekCloseErr`, with the messages of its result.
pub data CloseWeekReply : Type 0 where
  week_done : CloseWeekResult → CloseWeekReply
  week_blocked : List WeekMessage → CloseWeekReply

-- The key of `ackSet` that a message asks for.
abbrev pub acknowledges : WeekMessage → AckEntry → Bool
acknowledges msg a =
    (a.match_id == msg.match_id) && (code_eq a.warning_code msg.code && field_eq a.field msg.field)

-- `ackSet[...]`: of two entries with one key the later one counts.
unfoldable pub notes_for : WeekMessage → List AckEntry → Option String
notes_for msg [] = none
notes_for msg (a ∷ rest) =
    let later = notes_for msg rest in
    if is_set later then later else if acknowledges msg a then some a.notes else none

abbrev pub is_unacked : List AckEntry → WeekMessage → Bool
is_unacked acks msg = not (is_set (notes_for msg acks))

abbrev pub as_error : WeekMessage → WeekMessage
as_error msg = record msg { level = error }

-- The notes, or "" where the map has no entry.
abbrev notes_or_empty : Option String → String
notes_or_empty none = ""
notes_or_empty (some n) = n

abbrev pub ack_to_write : List AckEntry → WeekMessage → AckEntry
ack_to_write acks msg = record {
  match_id = msg.match_id;
  warning_code = msg.code;
  field = msg.field;
  notes = notes_or_empty (notes_for msg acks);
}

abbrev pub none_left : List WeekMessage → Bool
none_left [] = true
none_left (m ∷ ms) = false

abbrev pub is_closed_status : Option WeekStatus → Bool
is_closed_status none = false
is_closed_status (some open_week) = false
is_closed_status (some closed_week) = true

module _ (float : Float) (strconv : Strconv float) where
  unfoldable pub validate_week : ℕ → ℕ → M (WeekDb float) (List WeekMessage)
  validate_week season week = do
    cfg ← resolve_round_config float strconv season
    data_rows ← get_week_validation_data float strconv season week
    pure (validate_week_data float data_rows cfg)

  abbrev pub write_close : CloseWeekRequest → List WeekMessage → M (WeekDb float) CloseWeekReply
  write_close req warnings = do
    n ←
        Store.close_week float req.season_id req.week_number
          (map (ack_to_write req.acknowledgments) warnings) req.processed_by_user_id
    pure (week_done (record { ack_count = length warnings; processed_count = n }))

  abbrev pub close_without_errors :
      CloseWeekRequest → List WeekMessage → M (WeekDb float) CloseWeekReply
  close_without_errors req warnings =
      let unacked = keep_if (is_unacked req.acknowledgments) warnings in
      if none_left unacked
      then write_close req warnings
      else pure (week_blocked (map as_error unacked))

  -- The rest of `CloseWeek`, with the messages of the validation.
  unfoldable pub close_validated :
      CloseWeekRequest → List WeekMessage → M (WeekDb float) CloseWeekReply
  close_validated req messages =
      if has_week_errors messages
      then pure (week_blocked messages)
      else close_without_errors req (week_warnings messages)

  unfoldable pub close_week : CloseWeekRequest → M (WeekDb float) CloseWeekReply
  close_week req = do
    is_closed ← is_season_closed float req.season_id
    fail_if is_closed (domain season_closed conflict)
    draft ← is_season_draft float req.season_id
    fail_if draft (domain week_close_season_draft conflict)
    cfg ← resolve_round_config float strconv req.season_id
    data_rows ← get_week_validation_data float strconv req.season_id req.week_number
    close_validated req (validate_week_data float data_rows cfg)

  unfoldable pub reopen_week : ℕ → ℕ → M (WeekDb float) (Unit {0})
  reopen_week season week = do
    is_closed ← is_season_closed float season
    fail_if is_closed (domain season_closed conflict)
    count ← week_match_count float season week
    fail_if (count == 0) (domain week_not_found not_found)
    status ← get_week_status float season week
    fail_if (not (is_closed_status status)) (domain week_not_closed conflict)
    Store.reopen_week float season week
