-- ===== src/Auth/Authorize.antt =====
-- backend/domains/auth/authz.go, the policy function.
use league_app.Base.{ℕ, Bool, true, false, ◌&&◌, Option, none, some, ◌==◌, if◌then◌else◌}
use league_app.Auth.Identity.{
  Identity, AuthMethod, session, api_key, static_token, is_system_admin, is_league_admin_for,
  is_any_league_admin, is_player,
}

-- `unlisted` is any string that names no action.
pub data Action : Type 0 where
  system_user_admin backup : Action
  league_create league_administer : Action
  season_setup roster_mutate schedule_mutate lineup_mutate : Action
  match_score_mutate match_approval week_close_reopen : Action
  finance_read finance_write handicap_apply : Action
  player_overview_own player_overview_other : Action
  match_team_approval match_approval_read : Action
  unlisted : Action

pub record Scope : Type 0 where
  pub league_id : Option ℕ
  pub player_id : Option ℕ

abbrev pub is_session : AuthMethod → Bool
is_session session = true
is_session api_key = false
is_session static_token = false

-- `scope.LeagueID != nil && identity.IsLeagueAdminFor(*scope.LeagueID)`
unfoldable pub league_scoped : Identity → Scope → Bool
league_scoped id scope = elim scope.league_id [ none ↦ false | some l ↦ is_league_admin_for id l ]

-- `identity.IsPlayer() && scope.PlayerID != nil && *identity.PlayerID == *scope.PlayerID`
unfoldable pub own_player : Identity → Scope → Bool
own_player id scope = elim id.player_id [
  | none ↦ false
  | some p ↦ elim scope.player_id [ none ↦ false | some q ↦ p == q ]
]

-- The `switch`, reached by an active identity that is no system administrator.
unfoldable pub by_action : Identity → Action → Scope → Bool
by_action id system_user_admin scope = false
by_action id backup scope = false
by_action id league_create scope = is_any_league_admin id
by_action id league_administer scope = league_scoped id scope
by_action id season_setup scope = league_scoped id scope
by_action id roster_mutate scope = league_scoped id scope
by_action id schedule_mutate scope = league_scoped id scope
by_action id lineup_mutate scope = league_scoped id scope
by_action id match_score_mutate scope = league_scoped id scope
by_action id match_approval scope = league_scoped id scope
by_action id match_approval_read scope = league_scoped id scope
by_action id week_close_reopen scope = league_scoped id scope
by_action id finance_read scope = league_scoped id scope
by_action id finance_write scope = league_scoped id scope
by_action id handicap_apply scope = league_scoped id scope
by_action id player_overview_own scope =
    if league_scoped id scope then true else own_player id scope
by_action id player_overview_other scope = league_scoped id scope
by_action id match_team_approval scope = false
by_action id unlisted scope = false

abbrev pub is_team_approval : Action → Bool
is_team_approval match_team_approval = true
is_team_approval _ = false

unfoldable pub authorize : Identity → Action → Scope → Bool
authorize id action scope =
    if id.active
    then if is_team_approval action
      then is_session id.auth_method && is_player id
      else if is_system_admin id
      then true
      else by_action id action scope
    else false
