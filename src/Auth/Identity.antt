-- ===== src/Auth/Identity.antt =====
-- backend/domains/auth/identity.go
use league_app.Base.{
  ℕ, String, Bool, true, false, ◌&&◌, ◌||◌, Option, none, some, List, [], ◌∷◌, ◌++◌, exists_in,
  ◌==◌, is_set, if◌then◌else◌,
}

pub data RoleCode : Type 0 where
  system_admin league_admin : RoleCode

pub record Assignment : Type 0 where
  pub role_code : RoleCode
  pub league_id : Option ℕ

pub data AuthMethod : Type 0 where
  session api_key static_token : AuthMethod

pub record Identity : Type 0 where
  pub user_id : ℕ
  pub username : String
  pub email : String
  pub active : Bool
  pub player_id : Option ℕ
  pub player_name : String
  pub assignments : List Assignment
  pub auth_method : AuthMethod

abbrev pub is_system_role : RoleCode → Bool
is_system_role system_admin = true
is_system_role league_admin = false

abbrev pub is_league_role : RoleCode → Bool
is_league_role system_admin = false
is_league_role league_admin = true

-- `a.LeagueID != nil && *a.LeagueID == leagueID`
abbrev pub is_id : Option ℕ → ℕ → Bool
is_id none n = false
is_id (some m) n = m == n

unfoldable pub is_system_admin : Identity → Bool
is_system_admin id = exists_in (λ a. is_system_role a.role_code) id.assignments

unfoldable pub is_league_admin_for : Identity → ℕ → Bool
is_league_admin_for id league_id =
    exists_in (λ a. is_league_role a.role_code && is_id a.league_id league_id) id.assignments

unfoldable pub is_any_league_admin : Identity → Bool
is_any_league_admin id = exists_in (λ a. is_league_role a.role_code) id.assignments

-- The loop of `LeagueIDs`.
unfoldable pub league_ids_of : List Assignment → List ℕ
league_ids_of [] = []
league_ids_of (a ∷ rest) =
    let ids = league_ids_of rest in
    elim a.role_code [
      | system_admin ↦ ids
      | league_admin ↦ elim a.league_id [ none ↦ ids | some l ↦ l ∷ ids ]
    ]

unfoldable pub league_ids : Identity → List ℕ
league_ids id = league_ids_of id.assignments

unfoldable pub is_player : Identity → Bool
is_player id = is_set id.player_id

pub data Workspace : Type 0 where
  admin player : Workspace

unfoldable pub workspaces : Identity → List Workspace
workspaces id =
    (if is_system_admin id || is_any_league_admin id then admin ∷ [] else [])
    ++ (if is_player id then player ∷ [] else [])
