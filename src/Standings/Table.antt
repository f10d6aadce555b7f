-- ===== src/Standings/Table.antt =====
-- backend/domains/matches/scoring.go.
use league_app.Base.{
  ℕ, suc, ◌+◌, String, Bool, ◌&&◌, List, [], ◌∷◌, ◌==◌, ltb, exists_in, update_all, if◌then◌else◌,
}

-- The fields of `models.MatchResult`, `models.Match` and `models.Team` that are read.
pub record MatchResult : Type 0 where
  pub team_id : ℕ
  pub games_won : ℕ
  pub games_lost : ℕ

pub record PlayedMatch : Type 0 where
  pub id : ℕ
  pub home_team_id : ℕ
  pub away_team_id : ℕ
  pub completed : Bool

pub record TeamName : Type 0 where
  pub id : ℕ
  pub name : String

pub record Standing : Type 0 where
  pub team_id : ℕ
  pub team_name : String
  pub played : ℕ
  pub wins : ℕ
  pub losses : ℕ
  pub ties : ℕ
  pub points : ℕ
  pub games_won : ℕ
  pub games_lost : ℕ

-- The games of the home team, and those of the away team.
unfoldable pub home_wins : ℕ → List MatchResult → ℕ
home_wins home [] = 0
home_wins home (r ∷ rs) = (if r.team_id == home then r.games_won else 0) + home_wins home rs

unfoldable pub away_wins : ℕ → ℕ → List MatchResult → ℕ
away_wins home away [] = 0
away_wins home away (r ∷ rs) =
    (if r.team_id == home then 0 else if r.team_id == away then r.games_won else 0)
    + away_wins home away rs

-- The three cases of the `switch`.
pub data Decision : Type 0 where
  home_won away_won tied : Decision

unfoldable pub decide_match : ℕ → ℕ → Decision
decide_match h a = if ltb a h then home_won else if ltb h a then away_won else tied

-- `MatchOutcome`; the points are those of `home_points` and `away_points`.
unfoldable pub match_outcome : List MatchResult → ℕ → ℕ → Decision
match_outcome results home away =
    decide_match (home_wins home results) (away_wins home away results)

abbrev pub home_points : Decision → ℕ
home_points home_won = 2
home_points away_won = 0
home_points tied = 1

abbrev pub away_points : Decision → ℕ
away_points home_won = 0
away_points away_won = 2
away_points tied = 1

abbrev pub new_standing : TeamName → Standing
new_standing t = record {
  team_id = t.id;
  team_name = t.name;
  played = 0;
  wins = 0;
  losses = 0;
  ties = 0;
  points = 0;
  games_won = 0;
  games_lost = 0;
}

abbrev pub is_team : ℕ → Standing → Bool
is_team id s = s.team_id == id

-- The map `standing`: of two teams with one id the later one counts.
unfoldable pub new_table : List TeamName → List Standing
new_table [] = []
new_table (t ∷ ts) =
    let rest = new_table ts in if exists_in (is_team t.id) rest then rest else new_standing t ∷ rest

abbrev pub count_home : Decision → Standing → Standing
count_home home_won s = record s { played = suc s.played; points = s.points + 2; wins = suc s.wins }
count_home away_won s = record s { played = suc s.played; losses = suc s.losses }
count_home tied s = record s { played = suc s.played; points = s.points + 1; ties = suc s.ties }

abbrev pub count_away : Decision → Standing → Standing
count_away home_won s = record s { played = suc s.played; losses = suc s.losses }
count_away away_won s = record s { played = suc s.played; points = s.points + 2; wins = suc s.wins }
count_away tied s = record s { played = suc s.played; points = s.points + 1; ties = suc s.ties }

abbrev pub add_games : MatchResult → Standing → Standing
add_games r s = record s {
  games_won = s.games_won + r.games_won;
  games_lost = s.games_lost + r.games_lost;
}

-- A row that is not the home team's counts for the away team.
unfoldable pub count_games : ℕ → ℕ → List MatchResult → List Standing → List Standing
count_games home away [] t = t
count_games home away (r ∷ rs) t =
    count_games home away rs
      (update_all (is_team (if r.team_id == home then home else away)) (add_games r) t)

abbrev pub count_outcome : ℕ → ℕ → Decision → List Standing → List Standing
count_outcome home away d t =
    update_all (is_team away) (count_away d) (update_all (is_team home) (count_home d) t)

-- Whether a match counts: it is completed, and both its teams are in the table.
abbrev pub counts : PlayedMatch → List Standing → Bool
counts m t =
    m.completed && (exists_in (is_team m.home_team_id) t && exists_in (is_team m.away_team_id) t)

-- The body of the loop.
unfoldable pub count_match : PlayedMatch → List MatchResult → List Standing → List Standing
count_match m res t =
    if counts m t
    then count_games m.home_team_id m.away_team_id res (
        count_outcome m.home_team_id m.away_team_id
          (match_outcome res m.home_team_id m.away_team_id) t)
    else t

unfoldable pub count_matches :
    List PlayedMatch → (ℕ → List MatchResult) → List Standing → List Standing
count_matches [] results t = t
count_matches (m ∷ ms) results t = count_matches ms results (count_match m (results m.id) t)

-- `less` of the sort: more points, then more wins, then more games won come first.
abbrev pub ranks_above : Standing → Standing → Bool
ranks_above a b =
    if a.points == b.points
    then if a.wins == b.wins then ltb b.games_won a.games_won else ltb b.wins a.wins
    else ltb b.points a.points

unfoldable pub insert_standing : Standing → List Standing → List Standing
insert_standing s [] = s ∷ []
insert_standing s (t ∷ ts) =
    let rest = insert_standing s ts in if ranks_above t s then t ∷ rest else s ∷ (t ∷ ts)

unfoldable pub sort_standings : List Standing → List Standing
sort_standings [] = []
sort_standings (s ∷ ss) = insert_standing s (sort_standings ss)

-- `ComputeStandings`, less `WinPct`, the quotient of wins and played in float64. The order in which
-- the code lists equal ranks is that of a map's iteration and of an unstable sort; here it is that of
-- the teams.
unfoldable pub compute_standings :
    List PlayedMatch → (ℕ → List MatchResult) → List TeamName → List Standing
compute_standings matches results teams =
    sort_standings (count_matches matches results (new_table teams))
