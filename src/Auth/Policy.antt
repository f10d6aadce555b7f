-- ===== src/Auth/Policy.antt =====
-- The access policy stated as rules, and what `Authorize` grants by it.
use league_app.Base.{
  ℕ, ◌≡◌, ◌≢◌, true, false, Option, some, if◌then◌else◌, inl, inr, Bool-cases, arith,
}
use league_app.Auth.Identity.{Identity, system_admin, league_admin, session, is_any_league_admin}
use league_app.Auth.Authorize.{
  Action, Scope, is_team_approval, league_scoped, own_player, by_action,
}
use league_app.Auth.Grants.{Holds, founder_iff, scoped_iff, owner_iff}

-- The actions of one league.
pub data IsLeagueAction : Action → Type 0 where
  administer : IsLeagueAction Action.league_administer
  setup : IsLeagueAction Action.season_setup
  roster : IsLeagueAction Action.roster_mutate
  schedule : IsLeagueAction Action.schedule_mutate
  lineup : IsLeagueAction Action.lineup_mutate
  score : IsLeagueAction Action.match_score_mutate
  approval : IsLeagueAction Action.match_approval
  approval_read : IsLeagueAction Action.match_approval_read
  week : IsLeagueAction Action.week_close_reopen
  read : IsLeagueAction Action.finance_read
  write : IsLeagueAction Action.finance_write
  handicap : IsLeagueAction Action.handicap_apply
  own : IsLeagueAction Action.player_overview_own
  others : IsLeagueAction Action.player_overview_other

-- Why an identity may act, its being active apart.
pub data Permits (id : Identity) (scope : Scope) : Action → Type 0 where
  as_player :
      (p : ℕ)
      → id.auth_method ≡ session
      → id.player_id ≡ some p
      → Permits id scope Action.match_team_approval
  as_system :
      {act : Action} (l : Option ℕ)
      → act ≢ Action.match_team_approval
      → Holds system_admin l id.assignments
      → Permits id scope act
  as_founder :
      (l : Option ℕ) → Holds league_admin l id.assignments → Permits id scope Action.league_create
  as_league :
      {act : Action} (l : ℕ)
      → IsLeagueAction act
      → scope.league_id ≡ some l
      → Holds league_admin (some l) id.assignments
      → Permits id scope act
  as_owner :
      (p : ℕ)
      → id.player_id ≡ some p
      → scope.player_id ≡ some p
      → Permits id scope Action.player_overview_own

-- A league action is granted to the league's administrators.
pub by_league :
    (id : Identity) (scope : Scope) (act : Action)
    → IsLeagueAction act
    → league_scoped id scope ≡ true
    → by_action id act scope ≡ true
unfolding by_action
by_league id scope act administer e = e
by_league id scope act setup e = e
by_league id scope act roster e = e
by_league id scope act schedule e = e
by_league id scope act lineup e = e
by_league id scope act score e = e
by_league id scope act approval e = e
by_league id scope act approval_read e = e
by_league id scope act week e = e
by_league id scope act read e = e
by_league id scope act write e = e
by_league id scope act handicap e = e
by_league id scope act own e = ground arith
by_league id scope act others e = e

league_scoped-Permits :
    (id : Identity) (scope : Scope) (act : Action)
    → IsLeagueAction act
    → league_scoped id scope ≡ true
    → Permits id scope act
unfolding league_scoped
league_scoped-Permits id scope act k e =
    let (l, el, g) = (scoped_iff id scope.league_id).0 e in as_league l k el g

own_player-Permits :
    (id : Identity) (scope : Scope)
    → (if league_scoped id scope then true else own_player id scope) ≡ true
    → Permits id scope Action.player_overview_own
unfolding own_player
own_player-Permits id scope e = elim (Bool-cases (league_scoped id scope)) [
  | inl t ↦ league_scoped-Permits id scope Action.player_overview_own own t
  | inr f ↦
      let (p, ep, eq) = (owner_iff id.player_id scope.player_id).0 (ground arith) in
      as_owner p ep eq
]

is_any_league_admin-Permits :
    (id : Identity) (scope : Scope)
    → is_any_league_admin id ≡ true
    → Permits id scope Action.league_create
is_any_league_admin-Permits id scope e = let (l, g) = (founder_iff id).0 e in as_founder l g

pub by_action-Permits :
    (id : Identity) (scope : Scope) (act : Action)
    → by_action id act scope ≡ true
    → Permits id scope act
unfolding by_action
by_action-Permits id scope Action.system_user_admin e = ground arith
by_action-Permits id scope Action.backup e = ground arith
by_action-Permits id scope Action.league_create e = is_any_league_admin-Permits id scope e
by_action-Permits id scope Action.league_administer e =
    league_scoped-Permits id scope _ administer e
by_action-Permits id scope Action.season_setup e = league_scoped-Permits id scope _ setup e
by_action-Permits id scope Action.roster_mutate e = league_scoped-Permits id scope _ roster e
by_action-Permits id scope Action.schedule_mutate e = league_scoped-Permits id scope _ schedule e
by_action-Permits id scope Action.lineup_mutate e = league_scoped-Permits id scope _ lineup e
by_action-Permits id scope Action.match_score_mutate e = league_scoped-Permits id scope _ score e
by_action-Permits id scope Action.match_approval e = league_scoped-Permits id scope _ approval e
by_action-Permits id scope Action.match_approval_read e =
    league_scoped-Permits id scope _ approval_read e
by_action-Permits id scope Action.week_close_reopen e = league_scoped-Permits id scope _ week e
by_action-Permits id scope Action.finance_read e = league_scoped-Permits id scope _ read e
by_action-Permits id scope Action.finance_write e = league_scoped-Permits id scope _ write e
by_action-Permits id scope Action.handicap_apply e = league_scoped-Permits id scope _ handicap e
by_action-Permits id scope Action.player_overview_own e = own_player-Permits id scope e
by_action-Permits id scope Action.player_overview_other e =
    league_scoped-Permits id scope _ others e
by_action-Permits id scope Action.match_team_approval e = ground arith
by_action-Permits id scope Action.unlisted e = ground arith

pub other_action : (act : Action) → act ≢ Action.match_team_approval → is_team_approval act ≡ false
other_action act n = ground arith

pub team_action : (act : Action) → is_team_approval act ≡ true → act ≡ Action.match_team_approval
team_action act e = ground arith

pub not_team : (act : Action) → is_team_approval act ≡ false → act ≢ Action.match_team_approval
not_team act e h = ground arith
