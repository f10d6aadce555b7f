-- ===== src/Auth/Decision.antt =====
-- `Authorize` against the policy's rules.
use league_app.Base.{
  ℕ, ◌≡◌, refl, Bool, true, false, ◌&&◌, Option, none, some, is_set, if◌then◌else◌, ◌↔◌, ◌⊎◌, inl,
  inr, arith, sym, subst, ap,
}
use league_app.Auth.Identity.{
  Identity, AuthMethod, session, api_key, static_token, is_system_admin, is_any_league_admin,
  is_player,
}
use league_app.Auth.Authorize.{
  Action, Scope, is_session, is_team_approval, league_scoped, own_player, by_action, authorize,
}
use league_app.Auth.Grants.{system_iff, founder_iff, scoped_iff, owner_iff}
use league_app.Auth.Policy.{
  Permits, as_player, as_system, as_founder, as_league, as_owner, by_league, by_action-Permits,
  other_action, team_action, not_team,
}

nested :
    (active team method player system rest : Bool)
    → ((if active then if team then method && player else if system then true else rest else false)
        ≡ true)
      ↔ (active ≡ true)
        × ((team ≡ true) × (method ≡ true) × (player ≡ true)
            ⊎ (team ≡ false) × ((system ≡ true) ⊎ (rest ≡ true)))
nested active team method player system rest = (λ e. ground arith, λ h. ground arith)

session_of : (m : AuthMethod) → (is_session m ≡ true) ↔ (m ≡ session)
session_of session = ground arith
session_of api_key = ground arith
session_of static_token = ground arith

player_of : (o : Option ℕ) → is_set o ≡ true → (p : ℕ) × (o ≡ some p)
player_of none e = ground arith
player_of (some p) e = (p, refl)

team_Permits :
    (id : Identity) (scope : Scope) (act : Action)
    → is_team_approval act ≡ true
    → is_session id.auth_method ≡ true
    → is_player id ≡ true
    → Permits id scope act
unfolding is_player
team_Permits id scope act t m p =
    let (k, e) = player_of id.player_id p in
    subst (Permits id scope) (sym (team_action act t))
      (as_player k ((session_of id.auth_method).0 m) e)

-- What the code tests holds where a rule permits the action.
Tested : Identity → Action → Scope → Type 0
Tested id act scope =
    (is_team_approval act ≡ true) × (is_session id.auth_method ≡ true) × (is_player id ≡ true)
    ⊎ (is_team_approval act ≡ false)
      × ((is_system_admin id ≡ true) ⊎ (by_action id act scope ≡ true))

by_owner :
    (id : Identity) (scope : Scope)
    → own_player id scope ≡ true
    → by_action id Action.player_overview_own scope ≡ true
unfolding by_action
by_owner id scope e = ground arith

league_is_no_team :
    (id : Identity) (scope : Scope) (act : Action)
    → by_action id act scope ≡ true
    → is_team_approval act ≡ false
unfolding by_action
league_is_no_team id scope act e = ground arith

founds :
    (id : Identity) (scope : Scope)
    → is_any_league_admin id ≡ true
    → by_action id Action.league_create scope ≡ true
unfolding by_action
founds id scope e = e

Permits-Tested :
    (id : Identity) (scope : Scope) (act : Action) → Permits id scope act → Tested id act scope
unfolding Tested is_player league_scoped own_player
Permits-Tested id scope act (as_player p m e) =
    inl (refl, (session_of id.auth_method).1 m, ap is_set e)
Permits-Tested id scope act (as_system l n g) =
    inr (other_action act n, inl ((system_iff id).1 (l, g)))
Permits-Tested id scope act (as_founder l g) =
    inr (refl, inr (founds id scope ((founder_iff id).1 (l, g))))
Permits-Tested id scope act (as_league l k e g) =
    let t = by_league id scope act k ((scoped_iff id scope.league_id).1 (l, e, g)) in
    inr (league_is_no_team id scope act t, inr t)
Permits-Tested id scope act (as_owner p e f) =
    inr (refl, inr (by_owner id scope ((owner_iff id.player_id scope.player_id).1 (p, e, f))))

-- An identity is authorized exactly if it is active and a rule of the policy permits the action: a
-- linked player in a session for team approvals, whatever the roles; else a system administrator;
-- for an action of a league, an administrator of that league; for a new league, of any league; for
-- the player's own overview, the player.
pub authorize_iff :
    (id : Identity) (act : Action) (scope : Scope)
    → (authorize id act scope ≡ true) ↔ (id.active ≡ true) × Permits id scope act
unfolding authorize Tested
authorize_iff id act scope =
    let n =
      nested id.active (is_team_approval act) (is_session id.auth_method) (is_player id)
        (is_system_admin id) (by_action id act scope) in
    (
      λ e. (
        (n.0 e).0,
        elim (n.0 e).1 [
          | inl (t, m, p) ↦ team_Permits id scope act t m p
          | inr (f, inl s) ↦ let (l, g) = (system_iff id).0 s in as_system l (not_team act f) g
          | inr (f, inr b) ↦ by_action-Permits id scope act b
        ],
      ),
      λ h. n.1 (h.0, Permits-Tested id scope act h.1),
    )
