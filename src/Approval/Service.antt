-- ===== src/Approval/Service.antt =====
-- backend/domains/matches/team_approval_service.go and approval_service.go, with the edits of
-- round_service.go that the approvals guard against (`submitResults`, `clearResults`).
use league_app.Base.{
  ℕ, String, str_eq, Bool, true, false, not, ◌&&◌, Option, none, some, List, ◌==◌, is_set,
}
use league_app.Effects.{
  domain, not_found, invalid_input, conflict, unprocessable, match_not_found, match_not_scored,
  match_already_processed, match_not_approved, approval_revision_stale, approval_ineligible_player,
  approval_invalid_side, approval_note_required, approval_override_required, match_already_accepted,
  season_closed, week_closed, M, pure, ◌>>=◌, ◌>>◌, require, fail_if, query, run_tx, map_err,
}
use league_app.Approval.Db.{
  Db, Side, approved, TeamSide, EventType, admin_accepted, admin_override, ResultRow, state_eq,
  eligible,
}
use league_app.Approval.Guards.{map_team_action_guard, map_score_edit_guard, map_admin_accept_guard}
use league_app.Approval.Store
use league_app.Approval.Store.{
  Actor, MatchApprovalState, get_match_approval_state, is_week_closed, is_season_closed_for_match,
  advance_score_revision_for_edit, guarded_admin_accept, record_admin_acceptance_event,
}

-- The `side` of a request: "home", "away", or any other text.
pub data SideText : Type 0 where
  side_text : TeamSide → SideText
  other_text : SideText

-- `isValidSide`
abbrev pub valid_side : SideText → Option TeamSide
valid_side (side_text side) = some side
valid_side other_text = none

abbrev pub approved_at_revision : Option ℕ → ℕ → Bool
approved_at_revision none expected = false
approved_at_revision (some revision) expected = revision == expected

-- `sideApprovedAtRevision`
unfoldable pub side_approved_at_revision : Side → ℕ → Bool
side_approved_at_revision side expected =
    state_eq side.state approved && approved_at_revision side.state_score_revision expected

-- What the three team actions check before their guarded write: the match exists, and the player
-- is eligible for the side.
unfoldable pub check_team_action : ℕ → TeamSide → ℕ → M Db (Unit {0})
check_team_action id side player = do
  found ← get_match_approval_state id
  state ← require found (domain match_not_found not_found)
  is_eligible ← query (eligible id side player)
  fail_if (not is_eligible) (domain approval_ineligible_player unprocessable)

unfoldable pub approve_team_side : ℕ → SideText → ℕ → Actor → M Db (Unit {0})
approve_team_side id text expected actor = do
  side ← require (valid_side text) (domain approval_invalid_side invalid_input)
  player ← require actor.player_id (domain approval_ineligible_player unprocessable)
  check_team_action id side player
  map_err map_team_action_guard (Store.approve_team_side id side expected actor)

unfoldable pub withdraw_team_approval : ℕ → SideText → ℕ → Actor → M Db (Unit {0})
withdraw_team_approval id text expected actor = do
  side ← require (valid_side text) (domain approval_invalid_side invalid_input)
  player ← require actor.player_id (domain approval_ineligible_player unprocessable)
  check_team_action id side player
  map_err map_team_action_guard (Store.withdraw_team_approval id side expected actor)

-- `trim` is `strings.TrimSpace`.
unfoldable pub request_correction :
    (String → String) → ℕ → SideText → ℕ → String → Actor → M Db (Unit {0})
request_correction trim id text expected note actor = do
  side ← require (valid_side text) (domain approval_invalid_side invalid_input)
  fail_if (str_eq (trim note) "") (domain approval_note_required invalid_input)
  player ← require actor.player_id (domain approval_ineligible_player unprocessable)
  check_team_action id side player
  map_err map_team_action_guard (Store.request_correction id side expected note actor)

abbrev both_approved : Option MatchApprovalState → Bool
both_approved none = false
both_approved (some state) =
    side_approved_at_revision state.home_side state.score_revision
    && side_approved_at_revision state.away_side state.score_revision

unfoldable pub both_sides_approved : ℕ → M Db Bool
both_sides_approved id = do found ← get_match_approval_state id; pure (both_approved found)

-- The season and the week of the match are open.
unfoldable pub check_open : ℕ → M Db (Unit {0})
check_open id = do
  season_is_closed ← is_season_closed_for_match id
  fail_if season_is_closed (domain season_closed conflict)
  week_is_closed ← is_week_closed id
  fail_if week_is_closed (domain week_closed conflict)

abbrev pub accept_event : Bool → EventType
accept_event true = admin_accepted
accept_event false = admin_override

unfoldable pub admin_accept_match : ℕ → Option ℕ → String → Bool → ℕ → M Db (Unit {0})
admin_accept_match id by note override expected = do
  found ← get_match_approval_state id
  state ← require found (domain match_not_found not_found)
  fail_if (not (expected == state.score_revision)) (domain approval_revision_stale conflict)
  check_open id
  fail_if (not state.completed) (domain match_not_scored unprocessable)
  fail_if (is_set state.processed_at) (domain match_already_processed conflict)
  fail_if (is_set state.approved_at) (domain match_already_accepted conflict)
  let both =
      side_approved_at_revision state.home_side expected
      && side_approved_at_revision state.away_side expected
  fail_if (not both && not override) (domain approval_override_required conflict)
  run_tx (do
    map_err map_admin_accept_guard
        (guarded_admin_accept id expected state.home_side state.away_side by note)
    record_admin_acceptance_event id (accept_event both) by note expected state.home_side
        state.away_side)

unfoldable pub approve_match : ℕ → Option ℕ → String → M Db (Unit {0})
approve_match id by note = do
  found ← get_match_approval_state id
  state ← require found (domain match_not_found not_found)
  check_open id
  fail_if (not state.completed) (domain match_not_scored unprocessable)
  fail_if (is_set state.processed_at) (domain match_already_processed conflict)
  Store.approve_match id by note

unfoldable pub process_match : ℕ → Option ℕ → M Db (Unit {0})
process_match id by = do
  found ← get_match_approval_state id
  state ← require found (domain match_not_found not_found)
  check_open id
  fail_if (not (is_set state.approved_at)) (domain match_not_approved unprocessable)
  Store.process_match id by

unfoldable pub unapprove_match : ℕ → M Db (Unit {0})
unapprove_match id = do
  found ← get_match_approval_state id
  state ← require found (domain match_not_found not_found)
  check_open id
  fail_if (is_set state.processed_at) (domain match_already_processed conflict)
  Store.unapprove_match id

unfoldable pub unprocess_match : ℕ → M Db (Unit {0})
unprocess_match id = do
  found ← get_match_approval_state id
  state ← require found (domain match_not_found not_found)
  check_open id
  Store.unprocess_match id

-- Both edits return the new score revision.
unfoldable pub submit_results : ℕ → List ResultRow → Option ℕ → M Db ℕ
submit_results id rs expected = run_tx (do
  revision ← map_err map_score_edit_guard (advance_score_revision_for_edit id expected)
  Store.submit_match_results id rs
  pure revision)

unfoldable pub clear_results : ℕ → Option ℕ → M Db ℕ
clear_results id expected = run_tx (do
  revision ← map_err map_score_edit_guard (advance_score_revision_for_edit id expected)
  Store.clear_match_results id
  pure revision)
