-- ===== src/Standings/Columns.antt =====
-- The sum of a column of the standings.
use league_app.Base.{
  ℕ, ◌+◌, ◌≡◌, refl, ap, ◌∙◌, Bool, true, false, Bool-cases, inl, inr, not, ◌&&◌, List, [], ◌∷◌,
  ==_iff, exists_in, update_all, if◌then◌else◌, arith,
}
use league_app.Standings.Table.{
  MatchResult, PlayedMatch, TeamName, Standing, Decision, home_won, away_won, tied, is_team,
  new_table, count_home, count_away, add_games, count_games, count_outcome, counts, match_outcome,
  count_match, count_matches,
}

abbrev pub total : (Standing → ℕ) → List Standing → ℕ
total f [] = 0
total f (s ∷ ss) = f s + total f ss

-- No two rows of one team.
abbrev pub unique : List Standing → Bool
unique [] = true
unique (s ∷ ss) = not (exists_in (is_team s.team_id) ss) && unique ss

-- The table has the team.
abbrev pub has : ℕ → List Standing → Bool
has id = exists_in (is_team id)

-- An update that leaves the teams and adds k to what is summed, in the row of one team.
module _ (f : Standing → ℕ) (g : Standing → Standing) (k : ℕ) where
  total-absent :
      (id : ℕ) (t : List Standing)
      → has id t ≡ false
      → total f (update_all (is_team id) g t) ≡ total f t
  total-absent id [] h = refl
  total-absent id (s ∷ ss) h = let ih = total-absent id ss in ground arith

  same_team :
      (id : ℕ) (s : Standing) (ss : List Standing)
      → is_team id s ≡ true
      → has s.team_id ss ≡ has id ss
  same_team id s ss h = ap (λ i. has i ss) ((==_iff s.team_id id).0 h)

  total-update :
      (id : ℕ) (t : List Standing)
      → ((s : Standing) → f (g s) ≡ f s + k)
      → unique t ≡ true
      → has id t ≡ true
      → total f (update_all (is_team id) g t) ≡ total f t + k
  total-update id [] more u h = cc
  total-update id (s ∷ ss) more u h =
      let ih = total-update id ss more in
      let a = total-absent id ss in let m = more s in let e = same_team id s ss in ground arith

module _ (g : Standing → Standing) (same : (s : Standing) → (g s).team_id ≡ s.team_id) where
  has-update : (id i : ℕ) (t : List Standing) → has i (update_all (is_team id) g t) ≡ has i t
  has-update id i [] = refl
  has-update id i (s ∷ ss) = let ih = has-update id i ss in let e = same s in ground arith

  unique-update : (id : ℕ) (t : List Standing) → unique (update_all (is_team id) g t) ≡ unique t
  unique-update id [] = refl
  unique-update id (s ∷ ss) =
      let ih = unique-update id ss in
      let h = has-update id s.team_id ss in
      let e = same s in let h' = ap (λ i. has i (update_all (is_team id) g ss)) e in ground arith

pub new_table-unique : (ts : List TeamName) → unique (new_table ts) ≡ true
unfolding new_table
new_table-unique [] = refl
new_table-unique (t ∷ ts) = elim (Bool-cases (exists_in (is_team t.id) (new_table ts))) [
  | inl there ↦ rw there (new_table-unique ts)
  | inr fresh ↦ let ih = new_table-unique ts in rw fresh (ground arith)
]

total-same :
    (f : Standing → ℕ) (g : Standing → Standing) (p : Standing → Bool) (t : List Standing)
    → ((s : Standing) → f (g s) ≡ f s)
    → total f (update_all p g t) ≡ total f t
total-same f g p [] same = refl
total-same f g p (s ∷ ss) same = let ih = total-same f g p ss same in let e = same s in ground arith

-- The same teams, once each as before.
pub record SameTeams (t t' : List Standing) : Type 0 where
  pub once : unique t' ≡ unique t
  pub teams : (i : ℕ) → has i t' ≡ has i t

SameTeams-trans : (t t' t'' : List Standing) → SameTeams t t' → SameTeams t' t'' → SameTeams t t''
SameTeams-trans t t' t'' a b = record { once = b.once ∙ a.once; teams = λ i. b.teams i ∙ a.teams i }

SameTeams-update :
    (g : Standing → Standing) (id : ℕ) (t : List Standing)
    → ((s : Standing) → (g s).team_id ≡ s.team_id)
    → SameTeams t (update_all (is_team id) g t)
SameTeams-update g id t same = record {
  once = unique-update g same id t;
  teams = λ i. has-update g same id i t;
}

count_home-team : (d : Decision) (s : Standing) → (count_home d s).team_id ≡ s.team_id
count_home-team home_won s = refl
count_home-team away_won s = refl
count_home-team tied s = refl

count_away-team : (d : Decision) (s : Standing) → (count_away d s).team_id ≡ s.team_id
count_away-team home_won s = refl
count_away-team away_won s = refl
count_away-team tied s = refl

SameTeams-outcome :
    (h a : ℕ) (d : Decision) (t : List Standing) → SameTeams t (count_outcome h a d t)
SameTeams-outcome h a d t =
    SameTeams-trans _ _ _ (SameTeams-update (count_home d) h t (count_home-team d))
      (SameTeams-update (count_away d) a _ (count_away-team d))

SameTeams-games :
    (h a : ℕ) (rs : List MatchResult) (t : List Standing) → SameTeams t (count_games h a rs t)
unfolding count_games
SameTeams-games h a [] t = record { once = refl; teams = λ i. refl }
SameTeams-games h a (r ∷ rs) t =
    SameTeams-trans _ _ _ (SameTeams-update (add_games r) _ t (λ s. refl))
      (SameTeams-games h a rs _)

SameTeams-match :
    (m : PlayedMatch) (res : List MatchResult) (t : List Standing)
    → SameTeams t (count_match m res t)
unfolding count_match
SameTeams-match m res t = elim (Bool-cases (counts m t)) [
  | inl counted ↦ rw counted (
      SameTeams-trans _ _ _ (SameTeams-outcome m.home_team_id m.away_team_id _ t)
        (SameTeams-games m.home_team_id m.away_team_id res _))
  | inr skipped ↦ rw skipped (record { once = refl; teams = λ i. refl })
]

pub SameTeams-matches :
    (ms : List PlayedMatch) (results : ℕ → List MatchResult) (t : List Standing)
    → SameTeams t (count_matches ms results t)
unfolding count_matches
SameTeams-matches [] results t = record { once = refl; teams = λ i. refl }
SameTeams-matches (m ∷ ms) results t =
    SameTeams-trans _ _ _ (SameTeams-match m (results m.id) t) (SameTeams-matches ms results _)

-- What the matches that count add, by their outcomes.
abbrev pub tallied : (Decision → ℕ) → List PlayedMatch → (ℕ → List MatchResult) → List Standing → ℕ
tallied w [] results t = 0
tallied w (m ∷ ms) results t =
    (if counts m t then w (match_outcome (results m.id) m.home_team_id m.away_team_id) else 0)
    + tallied w ms results t

tallied-same :
    (w : Decision → ℕ) (ms : List PlayedMatch) (results : ℕ → List MatchResult)
    (t t' : List Standing)
    → SameTeams t t'
    → tallied w ms results t' ≡ tallied w ms results t
tallied-same w [] results t t' same = refl
tallied-same w (m ∷ ms) results t t' same =
    let ih = tallied-same w ms results t t' same in
    let h = same.teams m.home_team_id in let a = same.teams m.away_team_id in rw (h, a, ih) refl

-- A column to which an outcome adds, and the games do not.
module _ (f : Standing → ℕ) (wh wa : Decision → ℕ)
    (at_home : (d : Decision) (s : Standing) → f (count_home d s) ≡ f s + wh d)
    (at_away : (d : Decision) (s : Standing) → f (count_away d s) ≡ f s + wa d)
    (no_games : (r : MatchResult) (s : Standing) → f (add_games r s) ≡ f s) where
  total-games :
      (h a : ℕ) (rs : List MatchResult) (t : List Standing)
      → total f (count_games h a rs t) ≡ total f t
  unfolding count_games
  total-games h a [] t = refl
  total-games h a (r ∷ rs) t = total-games h a rs _ ∙ total-same f (add_games r) _ t (no_games r)

  total-outcome :
      (h a : ℕ) (d : Decision) (t : List Standing)
      → unique t ≡ true
      → has h t ≡ true
      → has a t ≡ true
      → total f (count_outcome h a d t) ≡ total f t + wh d + wa d
  total-outcome h a d t u eh ea =
      let same = SameTeams-update (count_home d) h t (count_home-team d) in
      total-update f (count_away d) (wa d) a _ (at_away d) (same.once ∙ u) (same.teams a ∙ ea)
      ∙ ap (λ n. n + wa d) (total-update f (count_home d) (wh d) h t (at_home d) u eh)

  total-match :
      (m : PlayedMatch) (res : List MatchResult) (t : List Standing)
      → unique t ≡ true
      → total f (count_match m res t)
        ≡ total f t
          + (if counts m t
              then wh (match_outcome res m.home_team_id m.away_team_id)
                + wa (match_outcome res m.home_team_id m.away_team_id)
              else 0)
  unfolding count_match
  total-match m res t u = elim (Bool-cases (counts m t)) [
    | inl counted ↦
        let o =
          total-outcome m.home_team_id m.away_team_id
            (match_outcome res m.home_team_id m.away_team_id) t u (ground arith) (ground arith) in
        let g = total-games m.home_team_id m.away_team_id res (
          count_outcome m.home_team_id m.away_team_id
            (match_outcome res m.home_team_id m.away_team_id) t) in
        rw counted (omega (arith, o, g))
    | inr skipped ↦ rw skipped (omega arith)
  ]

  pub total-matches :
      (ms : List PlayedMatch) (results : ℕ → List MatchResult) (t : List Standing)
      → unique t ≡ true
      → total f (count_matches ms results t) ≡ total f t + tallied (λ d. wh d + wa d) ms results t
  unfolding count_matches
  total-matches [] results t u = omega arith
  total-matches (m ∷ ms) results t u =
      let same = SameTeams-match m (results m.id) t in
      let ih = total-matches ms results (count_match m (results m.id) t) (same.once ∙ u) in
      let e = tallied-same (λ d. wh d + wa d) ms results t _ same in
      let n = total-match m (results m.id) t u in omega (arith, ih, e, n)
