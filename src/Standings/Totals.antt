-- ===== src/Standings/Totals.antt =====
-- The standings neither lose nor invent points.
use league_app.Base.{
  ℕ, ◌+◌, ◌*◌, ◌≡◌, refl, sym, ap, ◌∙◌, Bool, true, Bool-cases, inl, inr, ◌&&◌, ◌||◌, List, [], ◌∷◌,
  ◌==◌, ==_iff, exists_in, forall_in, keep_if, length, arith,
}
use league_app.Standings.Table.{
  MatchResult, PlayedMatch, TeamName, Standing, Decision, home_won, away_won, tied, is_team,
  new_table, count_home, count_away, match_outcome, count_matches, insert_standing, sort_standings,
  ranks_above, compute_standings, new_standing, home_points, away_points,
}
use league_app.Standings.Rows.{adds_up, compute_standings-adds_up}
use league_app.Standings.Columns.{total, has, tallied, total-matches, new_table-unique}

total-insert_standing :
    (f : Standing → ℕ) (s : Standing) (ts : List Standing)
    → total f (insert_standing s ts) ≡ f s + total f ts
unfolding insert_standing
total-insert_standing f s [] = refl
total-insert_standing f s (t ∷ ts) =
    let ih = total-insert_standing f s ts in
    elim (Bool-cases (ranks_above t s)) [
      | inl up ↦ rw up (omega (arith, ih))
      | inr down ↦ rw down refl
    ]

total-sort_standings :
    (f : Standing → ℕ) (ts : List Standing) → total f (sort_standings ts) ≡ total f ts
unfolding sort_standings
total-sort_standings f [] = refl
total-sort_standings f (t ∷ ts) =
    let ih = total-sort_standings f ts in
    let e = total-insert_standing f t (sort_standings ts) in omega (arith, ih, e)

-- The team is in the list of teams.
abbrev pub listed : ℕ → List TeamName → Bool
listed id = exists_in (λ t. t.id == id)

pub has-new_table : (i : ℕ) (ts : List TeamName) → has i (new_table ts) ≡ listed i ts
unfolding new_table
has-new_table i [] = refl
has-new_table i (t ∷ ts) =
    let ih = has-new_table i ts in
    elim (Bool-cases (exists_in (is_team t.id) (new_table ts))) [
      | inl there ↦ rw there (already (new_table ts) there ih)
      | inr fresh ↦ rw fresh (ap (λ b. (t.id == i) || b) ih)
    ]
  where
    already :
        (rest : List Standing)
        → has t.id rest ≡ true
        → has i rest ≡ listed i ts
        → has i rest ≡ ((t.id == i) || listed i ts)
    already rest there ih = elim (Bool-cases (t.id == i)) [
      | inl same ↦ let e = ap (λ j. has j rest) ((==_iff t.id i).0 same) in rw same (sym e ∙ there)
      | inr other ↦ rw other ih
    ]

-- The matches that count: completed, and of two listed teams.
abbrev pub counted_in : List TeamName → PlayedMatch → Bool
counted_in teams m = m.completed && (listed m.home_team_id teams && listed m.away_team_id teams)

twice :
    (w : Decision → ℕ) (ms : List PlayedMatch) (results : ℕ → List MatchResult)
    (teams : List TeamName)
    → ((d : Decision) → w d ≡ 2)
    → tallied w ms results (new_table teams) ≡ 2 * length (keep_if (counted_in teams) ms)
twice w [] results teams two = refl
twice w (m ∷ ms) results teams two =
    let ih = twice w ms results teams two in
    let h = has-new_table m.home_team_id teams in
    let a = has-new_table m.away_team_id teams in
    let d = two (match_outcome (results m.id) m.home_team_id m.away_team_id) in ground arith

total-new_table :
    (f : Standing → ℕ) (ts : List TeamName)
    → ((t : TeamName) → f (new_standing t) ≡ 0)
    → total f (new_table ts) ≡ 0
unfolding new_table
total-new_table f [] zero_at = refl
total-new_table f (t ∷ ts) zero_at =
    let ih = total-new_table f ts zero_at in
    elim (Bool-cases (exists_in (is_team t.id) (new_table ts))) [
      | inl there ↦ rw there ih
      | inr fresh ↦ let z = zero_at t in rw fresh (omega (arith, ih, z))
    ]

points_home : (d : Decision) (s : Standing) → (count_home d s).points ≡ s.points + home_points d
points_home home_won s = refl
points_home away_won s = omega arith
points_home tied s = refl

points_away : (d : Decision) (s : Standing) → (count_away d s).points ≡ s.points + away_points d
points_away home_won s = omega arith
points_away away_won s = refl
points_away tied s = refl

points_two : (d : Decision) → home_points d + away_points d ≡ 2
points_two home_won = refl
points_two away_won = refl
points_two tied = refl

abbrev wins_home : Decision → ℕ
wins_home home_won = 1
wins_home away_won = 0
wins_home tied = 0

abbrev wins_away : Decision → ℕ
wins_away home_won = 0
wins_away away_won = 1
wins_away tied = 0

won_home : (d : Decision) (s : Standing) → (count_home d s).wins ≡ s.wins + wins_home d
won_home home_won s = omega arith
won_home away_won s = omega arith
won_home tied s = omega arith

won_away : (d : Decision) (s : Standing) → (count_away d s).wins ≡ s.wins + wins_away d
won_away home_won s = omega arith
won_away away_won s = omega arith
won_away tied s = omega arith

lost_home : (d : Decision) (s : Standing) → (count_home d s).losses ≡ s.losses + wins_away d
lost_home home_won s = omega arith
lost_home away_won s = omega arith
lost_home tied s = omega arith

lost_away : (d : Decision) (s : Standing) → (count_away d s).losses ≡ s.losses + wins_home d
lost_away home_won s = omega arith
lost_away away_won s = omega arith
lost_away tied s = omega arith

played_home : (d : Decision) (s : Standing) → (count_home d s).played ≡ s.played + 1
played_home home_won s = omega arith
played_home away_won s = omega arith
played_home tied s = omega arith

played_away : (d : Decision) (s : Standing) → (count_away d s).played ≡ s.played + 1
played_away home_won s = omega arith
played_away away_won s = omega arith
played_away tied s = omega arith

tallied-swap :
    (v w : Decision → ℕ) (ms : List PlayedMatch) (results : ℕ → List MatchResult)
    (t : List Standing)
    → tallied (λ d. v d + w d) ms results t ≡ tallied (λ d. w d + v d) ms results t
tallied-swap v w [] results t = refl
tallied-swap v w (m ∷ ms) results t = let ih = tallied-swap v w ms results t in ground arith

-- The standings as a whole: with n the number of completed matches of two listed teams, 2 n points
-- are given and 2 n appearances counted, there are as many wins as losses, and in each row the
-- matches played are the wins, losses and ties, and the points two for a win and one for a tie.
pub compute_standings-totals :
    (matches : List PlayedMatch) (results : ℕ → List MatchResult) (teams : List TeamName)
    → (total (λ s. s.points) (compute_standings matches results teams)
        ≡ 2 * length (keep_if (counted_in teams) matches))
      × (total (λ s. s.played) (compute_standings matches results teams)
          ≡ 2 * length (keep_if (counted_in teams) matches))
      × (total (λ s. s.wins) (compute_standings matches results teams)
          ≡ total (λ s. s.losses) (compute_standings matches results teams))
      × (forall_in adds_up (compute_standings matches results teams) ≡ true)
unfolding compute_standings
compute_standings-totals matches results teams =
    let u = new_table-unique teams in
    let t = new_table teams in
    let sorted = λ (f : Standing → ℕ). total-sort_standings f (count_matches matches results t) in
    let points =
      total-matches (λ s. s.points) home_points away_points points_home points_away (λ r s. refl)
        matches results t u in
    let played =
      total-matches (λ s. s.played) (λ d. 1) (λ d. 1) played_home played_away (λ r s. refl) matches
        results t u in
    let wins =
      total-matches (λ s. s.wins) wins_home wins_away won_home won_away (λ r s. refl) matches
        results t u in
    let losses =
      total-matches (λ s. s.losses) wins_away wins_home lost_home lost_away (λ r s. refl) matches
        results t u in
    (
      sorted (λ s. s.points)
          ∙ points
          ∙ omega (
            arith,
            total-new_table (λ s. s.points) teams (λ x. refl),
            twice (λ d. home_points d + away_points d) matches results teams points_two,
          ),
      sorted (λ s. s.played)
          ∙ played
          ∙ omega (
            arith,
            total-new_table (λ s. s.played) teams (λ x. refl),
            twice (λ d. 2) matches results teams (λ d. refl),
          ),
      sorted (λ s. s.wins)
          ∙ wins
          ∙ omega (
            arith,
            total-new_table (λ s. s.wins) teams (λ x. refl),
            total-new_table (λ s. s.losses) teams (λ x. refl),
            tallied-swap wins_home wins_away matches results t,
          )
          ∙ sym (sorted (λ s. s.losses) ∙ losses),
      compute_standings-adds_up matches results teams,
    )
