-- ===== src/Auth/Granting.antt =====
-- What a further grant changes for `Authorize`.
use league_app.Base.{
  ℕ, ◌≡◌, ◌≢◌, refl, Bool, true, false, ◌&&◌, ◌||◌, Option, none, some, List, [], ◌∷◌, exists_in,
  ◌==◌, arith, sym, ap,
}
use league_app.Auth.Identity.{
  Identity, Assignment, RoleCode, system_admin, league_admin, is_system_admin, is_league_admin_for,
  is_league_role, is_id, is_player, league_ids, league_ids_of,
}
use league_app.Auth.Authorize.{Action, Scope, league_scoped, own_player, by_action, authorize}
use league_app.Auth.Grants.{later}
use league_app.Auth.Policy.{Permits, as_player, as_system, as_founder, as_league, as_owner}
use league_app.Auth.Decision.{authorize_iff}

-- The identity with one more assignment.
abbrev pub grant : Assignment → Identity → Identity
grant a id = record id { assignments = a ∷ id.assignments }

grant-Permits :
    (a : Assignment) (id : Identity) (scope : Scope) (act : Action)
    → Permits id scope act
    → Permits (grant a id) scope act
grant-Permits a id scope act (as_player p m e) = as_player p m e
grant-Permits a id scope act (as_system l n g) = as_system l n (later g)
grant-Permits a id scope act (as_founder l g) = as_founder l (later g)
grant-Permits a id scope act (as_league l k e g) = as_league l k e (later g)
grant-Permits a id scope act (as_owner p e f) = as_owner p e f

-- A further assignment takes no authorization away.
pub authorize-grant :
    (a : Assignment) (id : Identity) (act : Action) (scope : Scope)
    → authorize id act scope ≡ true
    → authorize (grant a id) act scope ≡ true
authorize-grant a id act scope e =
    let h = (authorize_iff id act scope).0 e in
    (authorize_iff (grant a id) act scope).1 (h.0, grant-Permits a id scope act h.1)

abbrev pub league_grant : ℕ → Assignment
league_grant l = record { role_code = league_admin; league_id = some l }

-- A grant for another league is no match.
other_scope :
    (l : ℕ) (id : Identity) (o : Option ℕ)
    → o ≢ some l
    → elim o [ none ↦ false | some n ↦ is_league_admin_for (grant (league_grant l) id) n ]
      ≡ elim o [ none ↦ false | some n ↦ is_league_admin_for id n ]
unfolding is_league_admin_for
other_scope l id none ne = refl
other_scope l id (some n) ne = elsewhere l n _ (λ e. ne (ap some (sym e)))
  where
    elsewhere : (l n : ℕ) (b : Bool) → l ≢ n → (true && (l == n) || b) ≡ b
    elsewhere l n b ne = ground arith

same_by_action :
    (l : ℕ) (id : Identity) (act : Action) (scope : Scope)
    → act ≢ Action.league_create
    → league_scoped (grant (league_grant l) id) scope ≡ league_scoped id scope
    → own_player (grant (league_grant l) id) scope ≡ own_player id scope
    → by_action (grant (league_grant l) id) act scope ≡ by_action id act scope
unfolding by_action
same_by_action l id act scope nc e f = ground arith

same_system :
    (l : ℕ) (id : Identity) → is_system_admin (grant (league_grant l) id) ≡ is_system_admin id
unfolding is_system_admin
same_system l id = refl

-- Leagues are isolated: a grant of league_admin for one league decides no action but the creation of
-- a league unless the action's scope is that league.
pub authorize-league_grant :
    (l : ℕ) (id : Identity) (act : Action) (scope : Scope)
    → act ≢ Action.league_create
    → scope.league_id ≢ some l
    → authorize (grant (league_grant l) id) act scope ≡ authorize id act scope
unfolding authorize league_scoped own_player is_player
authorize-league_grant l id act scope nc ne =
    let s = other_scope l id scope.league_id ne in
    let b = same_by_action l id act scope nc s refl in let y = same_system l id in rw (y, b)

in_ids :
    (n : ℕ) (gs : List Assignment)
    → exists_in (λ m. m == n) (league_ids_of gs)
      ≡ exists_in (λ a. is_league_role a.role_code && is_id a.league_id n) gs
unfolding league_ids_of
in_ids n [] = refl
in_ids n (a ∷ gs) = one_more a.role_code a.league_id (league_ids_of gs) _ (in_ids n gs)
  where
    one_more :
        (r : RoleCode) (o : Option ℕ) (ids : List ℕ) (b : Bool)
        → exists_in (λ m. m == n) ids ≡ b
        → exists_in
            (λ m. m == n)
            (elim r [
              | system_admin ↦ ids
              | league_admin ↦ elim o [ none ↦ ids | some l ↦ l ∷ ids ]
            ])
          ≡ (is_league_role r && is_id o n || b)
    one_more system_admin o ids b e = ground arith
    one_more league_admin none ids b e = ground arith
    one_more league_admin (some l) ids b e = ground arith

-- `LeagueIDs` lists exactly the leagues that `IsLeagueAdminFor` answers for.
pub league_ids_lem :
    (id : Identity) (n : ℕ) → exists_in (λ m. m == n) (league_ids id) ≡ is_league_admin_for id n
unfolding league_ids is_league_admin_for
league_ids_lem id n = in_ids n id.assignments
