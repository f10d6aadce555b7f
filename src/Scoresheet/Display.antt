-- ===== src/Scoresheet/Display.antt =====
-- backend/domains/matches/round_service.go, `computePairingResult`: the derived fields of a stored
-- pairing as `GetRounds` shows them, next to the winner that `ValidateRounds` counts.
use league_app.Base.{
  suc, ◌-◌, ◌≡◌, refl, Option, none, some, if◌then◌else◌, ltb, ℤ, pos, ◌+ℤ◌, ◌<ℤ◌, ltb_ℤ, +ℤ_parts,
  eq_of_parts, arith, ℕ, ◌∙◌, sym, subst,
}
use league_app.Scoresheet.Spot.{Team, home, away, Float, SpotResult, calc_spot_m}
use league_app.Scoresheet.Growth.{add_game-played}
use league_app.Scoresheet.Sheet.{
  RoundResult, Score, Adjustment, Tally, tally, add_home, add_away, add_game, no_games, game_winner,
  tally_winner, decide_pairing, pairing_winner,
}

pub record Displayed : Type 0 where
  pub handicap_pts : ℤ
  pub handicap_to : Option Team
  pub home_total_pts : ℤ
  pub away_total_pts : ℤ
  pub winner : Option Team

-- The last `switch`.
unfoldable pub more_points : ℤ → ℤ → Option Team
more_points home_adj away_adj =
    if ltb_ℤ away_adj home_adj
    then some home
    else if ltb_ℤ home_adj away_adj
    then some away
    else none

unfoldable pub show_pairing : Adjustment → RoundResult → Displayed
show_pairing s r =
    let home_raw = r.game1.h +ℤ r.game2.h +ℤ r.game3.h in
    let away_raw = r.game1.a +ℤ r.game2.a +ℤ r.game3.a in
    record {
      handicap_pts = s.pts;
      handicap_to = s.to;
      home_total_pts = add_home s home_raw;
      away_total_pts = add_away s away_raw;
      winner = more_points (add_home s home_raw) (add_away s away_raw);
    }

abbrev pub value_or {ℓ} : {A : Type ℓ} → Option A → A → A
value_or none d = d
value_or (some a) d = a

module _ (float : Float) where
  open float use {F}

  -- The handicap columns of a stored row; the `used` ones may be NULL.
  pub record StoredHc : Type 0 where
    pub handicap_pts_used : Option ℤ
    pub handicap_to_used : Option (Option Team)
    pub home_handicap : F
    pub home_handicap_used : Option F
    pub away_handicap : F
    pub away_handicap_used : Option F

  -- `calc_spot_m` on the handicaps that were used, the current ones where none are stored.
  abbrev computed_spot : StoredHc → F → SpotResult
  computed_spot hc factor =
      calc_spot_m float (value_or hc.home_handicap_used hc.home_handicap)
        (value_or hc.away_handicap_used hc.away_handicap) factor

  unfoldable pub displayed_spot : StoredHc → F → Adjustment
  unfolding calc_spot_m
  displayed_spot hc factor = elim hc.handicap_pts_used [
    | none ↦ record { to = (computed_spot hc factor).to; pts = (computed_spot hc factor).pts }
    | some pts ↦ elim hc.handicap_to_used [
      | none ↦ record { to = (computed_spot hc factor).to; pts = (computed_spot hc factor).pts }
      | some to ↦ record { to = to; pts = pts }
    ]
  ]

  unfoldable pub compute_pairing_result : RoundResult → StoredHc → F → Displayed
  unfolding displayed_spot show_pairing
  compute_pairing_result r hc factor = show_pairing (displayed_spot hc factor) r

zero_left : (x : ℤ) → (pos 0 +ℤ x) ≡ x
zero_left x = let l = +ℤ_parts (pos 0) x in eq_of_parts (pos 0 +ℤ x) x (omega arith)

-- A game that counts adds its points.
counted :
    (t : Tally) (s : Score) (w : Option Team)
    → (add_game t s w).played ≡ suc t.played
    → ((add_game t s w).raw_home ≡ (t.raw_home +ℤ s.h))
      × ((add_game t s w).raw_away ≡ (t.raw_away +ℤ s.a))
counted t s none e = absurd (omega (arith, e))
counted t s (some home) e = (refl, refl)
counted t s (some away) e = (refl, refl)

-- After three decided games the tally has all the points.
all_played :
    (r : RoundResult)
    → (tally r).played ≡ 3
    → ((tally r).raw_home ≡ (r.game1.h +ℤ r.game2.h +ℤ r.game3.h))
      × ((tally r).raw_away ≡ (r.game1.a +ℤ r.game2.a +ℤ r.game3.a))
unfolding tally
all_played r e =
    let t1 = add_game no_games r.game1 (game_winner r.game1) in
    let t2 = add_game t1 r.game2 (game_winner r.game2) in
    let p1 = add_game-played no_games r.game1 (game_winner r.game1) in
    let p2 = add_game-played t1 r.game2 (game_winner r.game2) in
    let p3 = add_game-played t2 r.game3 (game_winner r.game3) in
    let c1 = counted no_games r.game1 (game_winner r.game1) (omega (arith, p1, p2, p3, e)) in
    let c2 = counted t1 r.game2 (game_winner r.game2) (omega (arith, p1, p2, p3, e)) in
    let c3 = counted t2 r.game3 (game_winner r.game3) (omega (arith, p1, p2, p3, e)) in
    let zh = zero_left r.game1.h in let za = zero_left r.game1.a in (cc, cc)

played_out :
    (t : Tally) (h a : ℤ) (w : Team)
    → more_points h a ≡ some w
    → (if ltb 0 3 then decide_pairing t h a (3 - 3) else none) ≡ some w
unfolding more_points decide_pairing
played_out t h a w e = let ph = +ℤ_parts h (pos 0) in let pa = +ℤ_parts a (pos 0) in ground arith

same_winner :
    (s : Adjustment) (x x' y y' : ℤ)
    → x ≡ x'
    → y ≡ y'
    → more_points (add_home s x) (add_away s y) ≡ more_points (add_home s x') (add_away s y')
same_winner s x x' y y' ex ey = rw (ex, ey)

-- When the three games are decided and the spot shown is the one that counts, the winner shown by
-- points is the winner that the validation counts.
pub show_pairing-winner :
    (s : Adjustment) (r : RoundResult) (w : Team)
    → (tally r).played ≡ 3
    → (show_pairing s r).winner ≡ some w
    → pairing_winner s r ≡ some w
unfolding show_pairing pairing_winner tally_winner
show_pairing-winner s r w e h =
    let t = all_played r e in
    let m =
      same_winner s (tally r).raw_home (r.game1.h +ℤ r.game2.h +ℤ r.game3.h) (tally r).raw_away
        (r.game1.a +ℤ r.game2.a +ℤ r.game3.a) t.0 t.1 in
    let k =
      played_out (tally r) (add_home s (tally r).raw_home) (add_away s (tally r).raw_away) w
        (m ∙ h) in
    subst
      (λ n.
        (if ltb 0 n
          then decide_pairing (tally r) (add_home s (tally r).raw_home)
              (add_away s (tally r).raw_away) (3 - n)
          else none)
        ≡ some w)
      (sym e) k

-- A pairing with no scores.
abbrev pub blank : ℕ → ℕ → ℕ → RoundResult
blank rn home_player away_player = record {
  round_number = rn;
  home_player_id = home_player;
  away_player_id = away_player;
  game1 = record { h = pos 0; a = pos 0 };
  game2 = record { h = pos 0; a = pos 0 };
  game3 = record { h = pos 0; a = pos 0 };
}

zeros : (pos 0 +ℤ pos 0 +ℤ pos 0) ≡ pos 0
zeros = rw (zero_left (pos 0), zero_left (pos 0))

ahead :
    (pts : ℤ)
    → pos 0 <ℤ pts
    → (more_points pts (pos 0) ≡ some home) × (more_points (pos 0) pts ≡ some away)
unfolding more_points
ahead pts l = (ground arith, ground arith)

spot_ahead :
    (pts : ℤ) (w : Team)
    → pos 0 <ℤ pts
    → more_points
        (add_home (record { to = some w; pts = pts }) (pos 0 +ℤ pos 0 +ℤ pos 0))
        (add_away (record { to = some w; pts = pts }) (pos 0 +ℤ pos 0 +ℤ pos 0))
      ≡ some w
unfolding more_points
spot_ahead pts home l = let z = zero_left pts in let g = ahead pts l in rw (zeros, z) g.0
spot_ahead pts away l = let z = zero_left pts in let g = ahead pts l in rw (zeros, z) g.1

-- A pairing with no scores is shown as won by the side that gets a spot of one point or more, while
-- the validation counts no winner.
pub show_pairing-blank :
    (rn home_player away_player : ℕ) (pts : ℤ) (w : Team)
    → pos 0 <ℤ pts
    → ((show_pairing (record { to = some w; pts = pts }) (blank rn home_player away_player)).winner
        ≡ some w)
      × (pairing_winner (record { to = some w; pts = pts }) (blank rn home_player away_player)
          ≡ none)
unfolding show_pairing pairing_winner tally tally_winner game_winner
show_pairing-blank rn home_player away_player pts w l = (spot_ahead pts w l, refl)
