-- ===== src/Standings/Order.antt =====
-- The order of the standings.
use league_app.Base.{
  ℕ, ◌≡◌, refl, ap, ◌∙◌, Bool, true, false, Bool-cases, inl, inr, not, ◌&&◌, ◌||◌, List, [], ◌∷◌,
  ◌==◌, ==_iff, leb, ltb, forall_in, forall_in-implies, keep_if, length, if◌then◌else◌, arith,
}
use league_app.Standings.Table.{
  MatchResult, PlayedMatch, TeamName, Standing, new_table, count_matches, ranks_above,
  insert_standing, sort_standings, compute_standings, is_team,
}
use league_app.Standings.Rows.{forall_in-insert_standing}
use league_app.Standings.Columns.{unique, has, new_table-unique, SameTeams-matches}
use league_app.Standings.Totals.{listed, has-new_table}

-- No row ranks above one that is listed before it.
abbrev ranked : List Standing → Bool
ranked [] = true
ranked (s ∷ ss) = forall_in (λ t. not (ranks_above t s)) ss && ranked ss

-- The row `s` has more points than `t`, or as many and more wins, or as many of both and at least as
-- many games won.
abbrev pub leads : Standing → Standing → Bool
leads s t =
    ltb t.points s.points
    || ((s.points == t.points)
        && (ltb t.wins s.wins || ((s.wins == t.wins) && leb t.games_won s.games_won)))

-- Each row leads all that are listed after it.
abbrev pub in_order : List Standing → Bool
in_order [] = true
in_order (s ∷ ss) = forall_in (leads s) ss && in_order ss

not_above_trans :
    (a b c : Standing) → ranks_above b a ≡ false → ranks_above c b ≡ false → ranks_above c a ≡ false
not_above_trans a b c h g = ground arith

negate : (b : Bool) → b ≡ false → not b ≡ true
negate b h = ground arith

negated : (b : Bool) → not b ≡ true → b ≡ false
negated b h = ground arith

not_both : (a b : Standing) → ranks_above a b ≡ true → ranks_above b a ≡ false
not_both a b h = ground arith

insert_standing-ranked :
    (s : Standing) (ts : List Standing) → ranked ts ≡ true → ranked (insert_standing s ts) ≡ true
unfolding insert_standing
insert_standing-ranked s [] h = refl
insert_standing-ranked s (t ∷ ts) h =
    let ih = insert_standing-ranked s ts in
    let e = forall_in-insert_standing (λ x. not (ranks_above x t)) s ts in
    elim (Bool-cases (ranks_above t s)) [
      | inl up ↦ let n = not_both t s up in rw up (ground arith)
      | inr down ↦
          let k =
            forall_in-implies (λ x. not (ranks_above x t)) (λ x. not (ranks_above x s)) ts
              (λ x g. negate _ (not_above_trans s t x down (negated _ g))) in
          rw down (ground arith)
    ]

sort_standings-ranked : (ts : List Standing) → ranked (sort_standings ts) ≡ true
unfolding sort_standings
sort_standings-ranked [] = refl
sort_standings-ranked (t ∷ ts) =
    insert_standing-ranked t (sort_standings ts) (sort_standings-ranked ts)

leads_unless_above : (s t : Standing) → not (ranks_above t s) ≡ true → leads s t ≡ true
leads_unless_above s t h = ground arith

ranked-in_order : (ts : List Standing) → ranked ts ≡ true → in_order ts ≡ true
ranked-in_order [] h = refl
ranked-in_order (t ∷ ts) h =
    let ih = ranked-in_order ts in
    let k = forall_in-implies (λ x. not (ranks_above x t)) (leads t) ts (leads_unless_above t) in
    ground arith

-- The rows of one team.
abbrev pub rows_of : ℕ → List Standing → ℕ
rows_of i ts = length (keep_if (is_team i) ts)

rows_of-insert_standing :
    (i : ℕ) (s : Standing) (ts : List Standing)
    → rows_of i (insert_standing s ts) ≡ rows_of i (s ∷ ts)
unfolding insert_standing
rows_of-insert_standing i s [] = refl
rows_of-insert_standing i s (t ∷ ts) =
    let ih = rows_of-insert_standing i s ts in
    elim (Bool-cases (ranks_above t s)) [ inl up ↦ rw up (ground arith) | inr down ↦ rw down refl ]

rows_of-sort_standings : (i : ℕ) (ts : List Standing) → rows_of i (sort_standings ts) ≡ rows_of i ts
unfolding sort_standings
rows_of-sort_standings i [] = refl
rows_of-sort_standings i (t ∷ ts) =
    let ih = rows_of-sort_standings i ts in
    let e = rows_of-insert_standing i t (sort_standings ts) in ground arith

rows_of-absent : (i : ℕ) (ts : List Standing) → has i ts ≡ false → rows_of i ts ≡ 0
rows_of-absent i [] h = refl
rows_of-absent i (t ∷ ts) h = let ih = rows_of-absent i ts in ground arith

rows_of-unique :
    (i : ℕ) (ts : List Standing) → unique ts ≡ true → rows_of i ts ≡ (if has i ts then 1 else 0)
rows_of-unique i [] u = refl
rows_of-unique i (t ∷ ts) u =
    let ih = rows_of-unique i ts in
    let none_left = rows_of-absent i ts in
    elim (Bool-cases (t.team_id == i)) [
      | inl same ↦ let e = ap (λ j. has j ts) ((==_iff t.team_id i).0 same) in ground arith
      | inr other ↦ ground arith
    ]

-- The standings list each listed team once and no other team, and they are in order: each row has
-- more points than any row after it, or as many and more wins, or as many of both and at least as
-- many games won.
pub compute_standings-in_order :
    (matches : List PlayedMatch) (results : ℕ → List MatchResult) (teams : List TeamName) (i : ℕ)
    → (in_order (compute_standings matches results teams) ≡ true)
      × (rows_of i (compute_standings matches results teams) ≡ (if listed i teams then 1 else 0))
unfolding compute_standings
compute_standings-in_order matches results teams i =
    let counted = count_matches matches results (new_table teams) in
    let same = SameTeams-matches matches results (new_table teams) in
    (
      ranked-in_order (sort_standings counted) (sort_standings-ranked counted),
      rows_of-sort_standings i counted
          ∙ rows_of-unique i counted (same.once ∙ new_table-unique teams)
          ∙ ap (λ (b : Bool). if b then 1 else 0) (same.teams i ∙ has-new_table i teams),
    )
