-- ===== src/Approval/Db.antt =====
-- The rows of `matches`, `seasons`, `season_rosters`, `round_results` and `match_approval_events`
-- that match approval reads and writes (backend/domains/matches/round_store.go, and the statements
-- of backend/storage/sqlite/round_store.go). A table with a key is a function from the key, a
-- nullable column an option, a time a number.
use league_app.Base.{
  ℕ, String, Bool, true, false, not, ◌&&◌, ◌||◌, Option, none, some, List, ◌==◌, is_set, opt_eq,
  exists_in, keep_if, if◌then◌else◌,
}

-- `home_approval_state` and `away_approval_state`
pub data SideState : Type 0 where
  pending approved correction_requested : SideState

abbrev pub state_eq : SideState → SideState → Bool
state_eq pending pending = true
state_eq approved approved = true
state_eq correction_requested correction_requested = true
state_eq _ _ = false

pub data TeamSide : Type 0 where
  home away : TeamSide

-- The columns of one side, which `TeamSideApprovalState` mirrors.
pub record Side : Type 0 where
  pub state : SideState
  pub state_at : Option ℕ
  pub actor_user_id : Option ℕ
  pub actor_player_id : Option ℕ
  pub actor_name_snapshot : String
  pub state_score_revision : Option ℕ
  pub correction_note : String

pub record MatchRow : Type 0 where
  pub season_id : ℕ
  pub home_team_id : Option ℕ
  pub away_team_id : Option ℕ
  pub completed : Bool
  pub week_closed : Bool
  pub approved_at : Option ℕ
  pub approved_by_user_id : Option ℕ
  pub approval_note : String
  pub processed_at : Option ℕ
  pub processed_by_user_id : Option ℕ
  pub score_revision : ℕ
  pub home_side : Side
  pub away_side : Side

pub data Scope : Type 0 where
  side_scope : TeamSide → Scope
  match_scope : Scope

pub data EventType : Type 0 where
  approved_event withdrawn correction_requested_event cleared_by_edit : EventType
  admin_accepted admin_override : EventType

-- The state of both sides, which an acceptance event keeps.
pub record SidesSnapshot : Type 0 where
  pub home_state : SideState
  pub home_note : String
  pub away_state : SideState
  pub away_note : String

pub record Event : Type 0 where
  pub match_id : ℕ
  pub event_scope : Scope
  pub event_type : EventType
  pub score_revision : ℕ
  pub actor_user_id : Option ℕ
  pub actor_player_id : Option ℕ
  pub actor_name_snapshot : String
  pub note : String
  pub snapshot : Option SidesSnapshot

pub record RosterRow : Type 0 where
  pub season_id : ℕ
  pub player_id : ℕ
  pub team_id : ℕ

pub record RoundRow : Type 0 where
  pub match_id : ℕ
  pub home_player_id : ℕ
  pub away_player_id : ℕ

-- `match_results`, less `diff`, which is copied and read by nothing here.
pub record ResultRow : Type 0 where
  pub match_id : ℕ
  pub player_id : ℕ
  pub team_id : ℕ
  pub games_won : ℕ
  pub games_lost : ℕ
  pub sets_won : ℕ
  pub sets_lost : ℕ

pub record Db : Type 0 where
  pub matches : ℕ → Option MatchRow
  -- `closed_at` of each season
  pub seasons : ℕ → Option (Option ℕ)
  pub rosters : List RosterRow
  pub rounds : List RoundRow
  pub results : List ResultRow
  -- oldest first
  pub events : List Event

abbrev pub side_of : TeamSide → MatchRow → Side
side_of home r = r.home_side
side_of away r = r.away_side

abbrev pub with_side : TeamSide → Side → MatchRow → MatchRow
with_side home s r = record r { home_side = s }
with_side away s r = record r { away_side = s }

abbrev pub put : ℕ → MatchRow → Db → Db
put id r d = record d { matches = λ j. if j == id then some r else d.matches j }

abbrev pub season_is_open : Option (Option ℕ) → Bool
season_is_open none = false
season_is_open (some closed_at) = not (is_set closed_at)

-- `matchStillEditableSQL`
unfoldable pub still_editable : Db → MatchRow → Bool
still_editable d r =
    not (is_set r.approved_at)
    && (not (is_set r.processed_at)
        && (not r.week_closed && season_is_open (d.seasons r.season_id)))

-- `UPDATE matches SET ... WHERE id = ? AND ...`, with whether a row was affected.
abbrev pub update_found :
    Option MatchRow → ℕ → (MatchRow → Bool) → (MatchRow → MatchRow) → Db → Bool × Db
update_found none id cond f d = (false, d)
update_found (some r) id cond f d = if cond r then (true, put id (f r) d) else (false, d)

unfoldable pub update_where : ℕ → (MatchRow → Bool) → (MatchRow → MatchRow) → Db → Bool × Db
update_where id cond f d = update_found (d.matches id) id cond f d

abbrev pub cleared_side : ℕ → Side
cleared_side now = record {
  state = pending;
  state_at = some now;
  actor_user_id = none;
  actor_player_id = none;
  actor_name_snapshot = "";
  state_score_revision = none;
  correction_note = "";
}

abbrev pub team_of : TeamSide → MatchRow → Option ℕ
team_of home r = r.home_team_id
team_of away r = r.away_team_id

abbrev pub player_of : TeamSide → RoundRow → ℕ
player_of home q = q.home_player_id
player_of away q = q.away_player_id

-- Rostered to the side's team for the season of the match (NULL equals nothing).
abbrev rostered : Option MatchRow → TeamSide → ℕ → List RosterRow → Bool
rostered none side player rs = false
rostered (some m) side player rs =
    exists_in
      (λ q.
        q.season_id == m.season_id
        && (q.player_id == player && opt_eq (some q.team_id) (team_of side m)))
      rs

-- `ResolveApprovalEligibility`: rostered, or a participant of the match on that side.
unfoldable pub eligible : ℕ → TeamSide → ℕ → Db → Bool
eligible id side player d =
    rostered (d.matches id) side player d.rosters
    || exists_in (λ q. q.match_id == id && player_of side q == player) d.rounds

-- `DELETE FROM match_results WHERE match_id = ?`
abbrev pub without_results : ℕ → Db → Db
without_results id d = record d { results = keep_if (λ q. not (q.match_id == id)) d.results }
