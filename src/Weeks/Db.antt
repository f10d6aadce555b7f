-- ===== src/Weeks/Db.antt =====
-- The rows of `matches`, `round_results`, `players`, `seasons`, `season_rules`, `league_weeks`,
-- `lineup_plans` and `week_close_acknowledgments` that the week workflow reads and writes
-- (src/db/db.go). A row of `matches` is the one of match approval, with its id and its week.
use league_app.Base.{ℕ, String, Bool, Option, List}
use league_app.Approval.Db.{MatchRow}
use league_app.Scoresheet.Spot.{Float}
use league_app.Scoresheet.Sheet.{Score}
use league_app.Weeks.Messages.{WeekCode, WeekField}

pub record WeekMatch : Type 0 where
  pub id : ℕ
  pub week_number : ℕ
  pub row : MatchRow

pub record SeasonRow : Type 0 where
  pub active : Bool
  pub activated_at : Option ℕ
  pub closed_at : Option ℕ

-- `league_weeks.status`
pub data WeekStatus : Type 0 where
  open_week closed_week : WeekStatus

pub record LeagueWeek : Type 0 where
  pub status : WeekStatus
  pub closed_at : Option ℕ

pub data RuleKey : Type 0 where
  handicap_multiplier min_ball_handicap : RuleKey

pub record LineupRow : Type 0 where
  pub season_id : ℕ
  pub team_id : ℕ
  pub week_number : ℕ

pub record AckRow : Type 0 where
  pub season_id : ℕ
  pub week_number : ℕ
  pub match_id : Option ℕ
  pub warning_code : WeekCode
  pub field : WeekField
  pub notes : String
  pub acknowledged_at : ℕ

module _ (float : Float) where
  open float use {F}

  -- A row of `round_results`.
  pub record ScoreRow : Type 0 where
    pub match_id : ℕ
    pub round_number : ℕ
    pub home_player_id : ℕ
    pub away_player_id : ℕ
    pub game1 : Score
    pub game2 : Score
    pub game3 : Score
    pub home_handicap_used : Option F
    pub away_handicap_used : Option F

  -- `matches` stands in the order of its ids.
  pub record WeekDb : Type 0 where
    pub matches : List WeekMatch
    pub scores : List ScoreRow
    -- the handicap of a player, null or not
    pub players : ℕ → Option (Option F)
    pub seasons : ℕ → Option SeasonRow
    pub rules : ℕ → RuleKey → Option String
    pub weeks : ℕ → ℕ → Option LeagueWeek
    pub lineups : List LineupRow
    pub acks : List AckRow
