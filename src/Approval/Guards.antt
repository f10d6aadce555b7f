-- ===== src/Approval/Guards.antt =====
-- Why a guarded statement found no row: `matchGuardSnapshot` and the `classify...Block` functions
-- of backend/storage/sqlite/round_store.go, and the mapping of the sentinel errors to domain errors
-- in backend/domains/matches/team_approval_service.go and approval_service.go.
use league_app.Base.{
  ℕ, String, str_eq, Bool, false, not, ◌&&◌, ◌||◌, Option, none, some, ◌==◌, is_set, opt_eq,
  if◌then◌else◌,
}
use league_app.Effects.{
  Err, domain, sentinel, Guard, guard_match_not_found, revision_stale, guard_not_scored,
  guard_season_closed, guard_week_closed, guard_processed, guard_admin_accepted,
  guard_invalid_transition, guard_team_state_changed, not_found, conflict, unprocessable,
  match_not_found, match_not_scored, match_already_processed, match_approved, match_processed,
  match_admin_accepted, approval_revision_stale, approval_invalid_transition, season_closed,
  week_closed, match_already_accepted, approval_team_state_changed,
}
use league_app.Approval.Db.{Db, MatchRow, Side, SideState, approved, TeamSide, home, away, state_eq}

pub record Snapshot : Type 0 where
  pub score_revision : ℕ
  pub completed : Bool
  pub season_is_closed : Bool
  pub week_is_closed : Bool
  pub processed : Bool
  pub admin_accepted : Bool
  pub home_state : SideState
  pub away_state : SideState
  pub home_state_revision : Option ℕ
  pub away_state_revision : Option ℕ
  pub home_note : String
  pub away_note : String

abbrev snapshot_of : MatchRow → Option ℕ → Snapshot
snapshot_of r closed_at = record {
  score_revision = r.score_revision;
  completed = r.completed;
  season_is_closed = is_set closed_at;
  week_is_closed = r.week_closed;
  processed = is_set r.processed_at;
  admin_accepted = is_set r.approved_at;
  home_state = r.home_side.state;
  away_state = r.away_side.state;
  home_state_revision = r.home_side.state_score_revision;
  away_state_revision = r.away_side.state_score_revision;
  home_note = r.home_side.correction_note;
  away_note = r.away_side.correction_note;
}

-- The join of the match with its season.
abbrev join_season : MatchRow → Option (Option ℕ) → Option Snapshot
join_season r none = none
join_season r (some closed_at) = some (snapshot_of r closed_at)

abbrev join_match : Option MatchRow → Db → Option Snapshot
join_match none d = none
join_match (some r) d = join_season r (d.seasons r.season_id)

-- `loadMatchGuardSnapshot`
unfoldable pub load_snapshot : ℕ → Db → Option Snapshot
load_snapshot id d = join_match (d.matches id) d

abbrev pub unless_revision : Option ℕ → ℕ → Bool
unless_revision none revision = false
unless_revision (some expected) revision = not (revision == expected)

-- `classifyScoreEditBlock`
unfoldable pub classify_score_edit : Option ℕ → Snapshot → Guard
classify_score_edit expected s =
    if unless_revision expected s.score_revision
    then revision_stale
    else if s.season_is_closed
    then guard_season_closed
    else if s.week_is_closed
    then guard_week_closed
    else if s.processed
    then guard_processed
    else if s.admin_accepted
    then guard_admin_accepted
    else revision_stale

abbrev side_state : TeamSide → Snapshot → SideState
side_state home s = s.home_state
side_state away s = s.away_state

-- `classifyTeamActionBlock`
unfoldable pub classify_team_action : ℕ → TeamSide → Bool → Bool → Snapshot → Guard
classify_team_action expected side require_completed require_from_approved s =
    if not (s.score_revision == expected)
    then revision_stale
    else if s.season_is_closed
    then guard_season_closed
    else if s.week_is_closed
    then guard_week_closed
    else if s.processed
    then guard_processed
    else if s.admin_accepted
    then guard_admin_accepted
    else if require_completed && not s.completed
    then guard_not_scored
    else if require_from_approved && not (state_eq (side_state side s) approved)
    then guard_invalid_transition
    else revision_stale

-- `classifyAdminAcceptBlock`
unfoldable pub classify_admin_accept : ℕ → Side → Side → Snapshot → Guard
classify_admin_accept expected pinned_home pinned_away s =
    if not (s.score_revision == expected)
    then revision_stale
    else if s.season_is_closed
    then guard_season_closed
    else if s.week_is_closed
    then guard_week_closed
    else if not s.completed
    then guard_not_scored
    else if s.processed
    then guard_processed
    else if s.admin_accepted
    then guard_admin_accepted
    else if not (state_eq s.home_state pinned_home.state)
        || (not (opt_eq s.home_state_revision pinned_home.state_score_revision)
            || not (str_eq s.home_note pinned_home.correction_note))
    then guard_team_state_changed
    else if not (state_eq s.away_state pinned_away.state)
        || (not (opt_eq s.away_state_revision pinned_away.state_score_revision)
            || not (str_eq s.away_note pinned_away.correction_note))
    then guard_team_state_changed
    else revision_stale

-- `mapScoreEditGuardErr`
unfoldable pub map_score_edit_guard : Err → Err
map_score_edit_guard (sentinel guard_match_not_found) = domain match_not_found not_found
map_score_edit_guard (sentinel revision_stale) = domain approval_revision_stale conflict
map_score_edit_guard (sentinel guard_season_closed) = domain season_closed conflict
map_score_edit_guard (sentinel guard_week_closed) = domain week_closed conflict
map_score_edit_guard (sentinel guard_processed) = domain match_processed conflict
map_score_edit_guard (sentinel guard_admin_accepted) = domain match_approved conflict
map_score_edit_guard e = e

-- `mapTeamActionGuardErr`
unfoldable pub map_team_action_guard : Err → Err
map_team_action_guard (sentinel guard_match_not_found) = domain match_not_found not_found
map_team_action_guard (sentinel revision_stale) = domain approval_revision_stale conflict
map_team_action_guard (sentinel guard_not_scored) = domain match_not_scored unprocessable
map_team_action_guard (sentinel guard_season_closed) = domain season_closed conflict
map_team_action_guard (sentinel guard_week_closed) = domain week_closed conflict
map_team_action_guard (sentinel guard_processed) = domain match_processed conflict
map_team_action_guard (sentinel guard_admin_accepted) = domain match_admin_accepted conflict
map_team_action_guard (sentinel guard_invalid_transition) =
    domain approval_invalid_transition conflict
map_team_action_guard e = e

-- `mapAdminAcceptGuardErr`
unfoldable pub map_admin_accept_guard : Err → Err
map_admin_accept_guard (sentinel guard_match_not_found) = domain match_not_found not_found
map_admin_accept_guard (sentinel revision_stale) = domain approval_revision_stale conflict
map_admin_accept_guard (sentinel guard_not_scored) = domain match_not_scored unprocessable
map_admin_accept_guard (sentinel guard_season_closed) = domain season_closed conflict
map_admin_accept_guard (sentinel guard_week_closed) = domain week_closed conflict
map_admin_accept_guard (sentinel guard_processed) = domain match_already_processed conflict
map_admin_accept_guard (sentinel guard_admin_accepted) = domain match_already_accepted conflict
map_admin_accept_guard (sentinel guard_team_state_changed) =
    domain approval_team_state_changed conflict
map_admin_accept_guard e = e
