-- ===== src/Standings/Rows.antt =====
-- What holds of each row of the standings.
use league_app.Base.{
  ℕ, ◌+◌, ◌*◌, ◌≡◌, refl, ◌∙◌, Bool, true, Bool-cases, inl, inr, ◌&&◌, List, [], ◌∷◌, ◌==◌,
  exists_in, forall_in, update_all, forall_in-update_all, arith,
}
use league_app.Standings.Table.{
  MatchResult, PlayedMatch, TeamName, Standing, Decision, home_won, away_won, tied, is_team,
  new_table, count_home, count_away, count_games, count_outcome, counts, match_outcome, count_match,
  count_matches, insert_standing, sort_standings, ranks_above, compute_standings,
}

-- A row's matches are its wins, losses and ties, and its points follow from them.
abbrev pub adds_up : Standing → Bool
adds_up s = (s.played == s.wins + s.losses + s.ties) && (s.points == 2 * s.wins + s.ties)

new_table-adds_up : (ts : List TeamName) → forall_in adds_up (new_table ts) ≡ true
unfolding new_table
new_table-adds_up [] = refl
new_table-adds_up (t ∷ ts) = elim (Bool-cases (exists_in (is_team t.id) (new_table ts))) [
  | inl there ↦ rw there (new_table-adds_up ts)
  | inr fresh ↦ rw fresh (new_table-adds_up ts)
]

count_home-adds_up :
    (d : Decision) (s : Standing) → adds_up s ≡ true → adds_up (count_home d s) ≡ true
count_home-adds_up home_won s h = ground arith
count_home-adds_up away_won s h = ground arith
count_home-adds_up tied s h = ground arith

count_away-adds_up :
    (d : Decision) (s : Standing) → adds_up s ≡ true → adds_up (count_away d s) ≡ true
count_away-adds_up home_won s h = ground arith
count_away-adds_up away_won s h = ground arith
count_away-adds_up tied s h = ground arith

count_games-adds_up :
    (home away : ℕ) (rs : List MatchResult) (t : List Standing)
    → forall_in adds_up t ≡ true
    → forall_in adds_up (count_games home away rs t) ≡ true
unfolding count_games
count_games-adds_up home away [] t h = h
count_games-adds_up home away (r ∷ rs) t h =
    count_games-adds_up home away rs _ (forall_in-update_all _ _ adds_up t (λ s k. k) h)

count_outcome-adds_up :
    (h a : ℕ) (d : Decision) (t : List Standing)
    → forall_in adds_up t ≡ true
    → forall_in adds_up (count_outcome h a d t) ≡ true
count_outcome-adds_up h a d t e =
    forall_in-update_all (is_team a) (count_away d) adds_up
      (update_all (is_team h) (count_home d) t) (count_away-adds_up d)
      (forall_in-update_all (is_team h) (count_home d) adds_up t (count_home-adds_up d) e)

count_match-adds_up :
    (m : PlayedMatch) (res : List MatchResult) (t : List Standing)
    → forall_in adds_up t ≡ true
    → forall_in adds_up (count_match m res t) ≡ true
unfolding count_match
count_match-adds_up m res t h = elim (Bool-cases (counts m t)) [
  | inl counted ↦ rw counted (
      count_games-adds_up m.home_team_id m.away_team_id res _ (
        count_outcome-adds_up m.home_team_id m.away_team_id
          (match_outcome res m.home_team_id m.away_team_id) t h))
  | inr skipped ↦ rw skipped h
]

count_matches-adds_up :
    (ms : List PlayedMatch) (results : ℕ → List MatchResult) (t : List Standing)
    → forall_in adds_up t ≡ true
    → forall_in adds_up (count_matches ms results t) ≡ true
unfolding count_matches
count_matches-adds_up [] results t h = h
count_matches-adds_up (m ∷ ms) results t h =
    count_matches-adds_up ms results _ (count_match-adds_up m (results m.id) t h)

pub forall_in-insert_standing :
    (q : Standing → Bool) (s : Standing) (ts : List Standing)
    → forall_in q (insert_standing s ts) ≡ (q s && forall_in q ts)
unfolding insert_standing
forall_in-insert_standing q s [] = refl
forall_in-insert_standing q s (t ∷ ts) =
    let ih = forall_in-insert_standing q s ts in
    elim (Bool-cases (ranks_above t s)) [ inl up ↦ rw up (ground arith) | inr down ↦ rw down refl ]

pub forall_in-sort_standings :
    (q : Standing → Bool) (ts : List Standing) → forall_in q (sort_standings ts) ≡ forall_in q ts
unfolding sort_standings
forall_in-sort_standings q [] = refl
forall_in-sort_standings q (t ∷ ts) =
    let ih = forall_in-sort_standings q ts in
    let e = forall_in-insert_standing q t (sort_standings ts) in ground arith

-- In each row of the standings the matches played are the wins, the losses and the ties, and the
-- points are two for a win and one for a tie.
pub compute_standings-adds_up :
    (matches : List PlayedMatch) (results : ℕ → List MatchResult) (teams : List TeamName)
    → forall_in adds_up (compute_standings matches results teams) ≡ true
unfolding compute_standings
compute_standings-adds_up matches results teams =
    forall_in-sort_standings adds_up (count_matches matches results (new_table teams))
    ∙ count_matches-adds_up matches results (new_table teams) (new_table-adds_up teams)
