-- ===== src/Standings/Tests.antt =====
-- Three teams and three matches.
use league_app.Base.{
  ℕ, ◌*◌, ◌≡◌, refl, true, false, List, [], ◌∷◌, ◌==◌, length, keep_if, forall_in, if◌then◌else◌,
}
use league_app.Standings.Table.{
  MatchResult, PlayedMatch, TeamName, compute_standings, home_wins, away_wins, decide_match,
  match_outcome, new_table, count_games, count_match, count_matches, insert_standing,
  sort_standings,
}
use league_app.Standings.Rows.{adds_up}
use league_app.Standings.Order.{in_order, rows_of, compute_standings-in_order}
use league_app.Standings.Columns.{total}
use league_app.Standings.Totals.{counted_in, compute_standings-totals}

abbrev three_teams : List TeamName
three_teams =
    record { id = 1; name = "A" }
    ∷ record { id = 2; name = "B" }
    ∷ record { id = 3; name = "C" }
    ∷ []

abbrev three_matches : List PlayedMatch
three_matches =
    record { id = 7; home_team_id = 1; away_team_id = 2; completed = true }
    ∷ record { id = 8; home_team_id = 3; away_team_id = 1; completed = true }
    ∷ record { id = 9; home_team_id = 2; away_team_id = 3; completed = false }
    ∷ []

abbrev their_results : ℕ → List MatchResult
their_results id =
    if id == 7
    then record { team_id = 1; games_won = 2; games_lost = 5 }
      ∷ record { team_id = 2; games_won = 5; games_lost = 2 }
      ∷ []
    else record { team_id = 3; games_won = 4; games_lost = 4 }
      ∷ record { team_id = 1; games_won = 4; games_lost = 4 }
      ∷ []

table_points : total (λ s. s.points) (compute_standings three_matches their_results three_teams) ≡ 4
unfolding compute_standings home_wins away_wins decide_match match_outcome new_table count_games
    count_match count_matches insert_standing sort_standings
table_points = refl

compute_standings-totals_example :
    (total (λ s. s.points) (compute_standings three_matches their_results three_teams)
      ≡ 2 * length (keep_if (counted_in three_teams) three_matches))
    × (total (λ s. s.played) (compute_standings three_matches their_results three_teams)
        ≡ 2 * length (keep_if (counted_in three_teams) three_matches))
    × (total (λ s. s.wins) (compute_standings three_matches their_results three_teams)
        ≡ total (λ s. s.losses) (compute_standings three_matches their_results three_teams))
    × (forall_in adds_up (compute_standings three_matches their_results three_teams) ≡ true)
compute_standings-totals_example = compute_standings-totals three_matches their_results three_teams

compute_standings-in_order_example :
    (in_order (compute_standings three_matches their_results three_teams) ≡ true)
    × (rows_of 2 (compute_standings three_matches their_results three_teams) ≡ 1)
compute_standings-in_order_example =
    compute_standings-in_order three_matches their_results three_teams 2
