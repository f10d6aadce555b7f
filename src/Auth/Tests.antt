-- ===== src/Auth/Tests.antt =====
-- An administrator of one league, and the theorems about what is granted.
use league_app.Base.{
  ℕ, ◌≡◌, ◌≢◌, refl, true, Option, none, some, [], ◌∷◌, exists_in, ◌==◌, ◌↔◌, arith,
}
use league_app.Auth.Identity.{
  Identity, league_admin, session, is_league_admin_for, league_ids, is_system_admin,
}
use league_app.Auth.Authorize.{Action, Scope, authorize, finance_write, league_scoped, by_action}
use league_app.Auth.Policy.{Permits}
use league_app.Auth.Decision.{authorize_iff}
use league_app.Auth.Granting.{
  grant, league_grant, authorize-grant, authorize-league_grant, league_ids_lem,
}

abbrev organizer : Identity
organizer = record {
  user_id = 1;
  username = "kim";
  email = "kim@example.org";
  active = true;
  player_id = some 31;
  player_name = "Kim";
  assignments = record { role_code = league_admin; league_id = some 5 } ∷ [];
  auth_method = session;
}

abbrev in_league : ℕ → Scope
in_league l = record { league_id = some l; player_id = none }

writes_finance : authorize organizer finance_write (in_league 5) ≡ true
unfolding authorize is_system_admin by_action league_scoped is_league_admin_for
writes_finance = refl

authorize_iff_example :
    (authorize organizer finance_write (in_league 5) ≡ true)
    ↔ (true ≡ true) × Permits organizer (in_league 5) finance_write
authorize_iff_example = authorize_iff organizer finance_write (in_league 5)

authorize-grant_example :
    authorize (grant (league_grant 8) organizer) finance_write (in_league 5) ≡ true
authorize-grant_example =
    authorize-grant (league_grant 8) organizer finance_write (in_league 5) writes_finance

no_creation : finance_write ≢ Action.league_create
no_creation e = ground arith

not_eight : ◌≢◌ {A = Option ℕ} (some 5) (some 8)
not_eight e = ground arith

authorize-league_grant_example :
    authorize (grant (league_grant 8) organizer) finance_write (in_league 5)
    ≡ authorize organizer finance_write (in_league 5)
authorize-league_grant_example =
    authorize-league_grant 8 organizer finance_write (in_league 5) no_creation not_eight

league_ids_lem_example :
    exists_in (λ m. m == 5) (league_ids organizer) ≡ is_league_admin_for organizer 5
league_ids_lem_example = league_ids_lem organizer 5
