-- ===== src/Scoresheet/LowerRated.antt =====
-- Who gets the spot: `CalcSpotM` (logic/handicap.go) as `computePairingResult` (round_service.go)
-- uses it.
use league_app.Base.{
  refl, ◌≡◌, ◌∙◌, subst, sym, true, Option, none, some, ℤ, pos, ◌+ℤ◌, ◌<ℤ◌, +ℤ_parts, ◌↔◌, arith,
}
use league_app.Scoresheet.Spot.{Team, home, away, other, Float, calc_spot_m}
use league_app.Scoresheet.Sheet.{RoundResult, Adjustment, add_home, add_away}
use league_app.Scoresheet.Display.{
  more_points, show_pairing, value_or, StoredHc, displayed_spot, compute_pairing_result,
}

-- The raw points of a side over the three games.
abbrev pub raw_points : Team → RoundResult → ℤ
raw_points home r = r.game1.h +ℤ r.game2.h +ℤ r.game3.h
raw_points away r = r.game1.a +ℤ r.game2.a +ℤ r.game3.a

-- Of two level sides the one that gets points is ahead.
ahead_home :
    (x p : ℤ) (t : Team) → pos 0 <ℤ p → (more_points (x +ℤ p) x ≡ some t) ↔ (some home ≡ some t)
unfolding more_points
ahead_home x p t above = let l = +ℤ_parts x p in ground arith

ahead_away :
    (x p : ℤ) (t : Team) → pos 0 <ℤ p → (more_points x (x +ℤ p) ≡ some t) ↔ (some away ≡ some t)
unfolding more_points
ahead_away x p t above = let l = +ℤ_parts x p in ground arith

ahead_none : (x : ℤ) (t : Team) → (more_points x x ≡ some t) ↔ (none ≡ some t)
unfolding more_points
ahead_none x t = ground arith

receiver_ahead :
    (to : Option Team) (p x : ℤ) (t : Team)
    → pos 0 <ℤ p
    → (more_points
          (add_home (record { to = to; pts = p }) x)
          (add_away (record { to = to; pts = p }) x)
        ≡ some t)
      ↔ (to ≡ some t)
receiver_ahead none p x t above = ahead_none x t
receiver_ahead (some home) p x t above = ahead_home x p t above
receiver_ahead (some away) p x t above = ahead_away x p t above

module _ (float : Float) where
  open float use {F, lt, lt_asym}

  -- The handicap of a side: the one that was used, or the current one where none is stored.
  abbrev pub rating : StoredHc float → Team → F
  rating hc home = value_or hc.home_handicap_used hc.home_handicap
  rating hc away = value_or hc.away_handicap_used hc.away_handicap

  calc_spot_m-receiver :
      (a b factor : F) (t : Team)
      → ((calc_spot_m float a b factor).to ≡ some t)
        ↔ (elim t [ home ↦ lt a b | away ↦ lt b a ] ≡ true)
  unfolding calc_spot_m
  calc_spot_m-receiver a b factor t = let h = lt_asym a b in ground arith

  below_rating :
      (hc : StoredHc float) (t : Team)
      → (elim t [
        | home ↦ lt (rating hc home) (rating hc away)
        | away ↦ lt (rating hc away) (rating hc home)
      ])
        ≡ lt (rating hc t) (rating hc (other t))
  below_rating hc home = refl
  below_rating hc away = refl

  winner_shown :
      (r : RoundResult) (hc : StoredHc float) (factor : F)
      → hc.handicap_pts_used ≡ none
      → raw_points home r ≡ raw_points away r
      → (compute_pairing_result float r hc factor).winner ≡ (
          let s : Adjustment = record {
            to = (calc_spot_m float (rating hc home) (rating hc away) factor).to;
            pts = (calc_spot_m float (rating hc home) (rating hc away) factor).pts;
          } in
          more_points (add_home s (raw_points home r)) (add_away s (raw_points home r)))
  unfolding compute_pairing_result displayed_spot show_pairing
  winner_shown r hc factor unset level = rw (unset, sym level) refl

  -- A pairing without a stored spot, with as many points for the one side as for the other over the
  -- three games, and a spot above 0 from the two handicaps: a player is shown as the winner exactly
  -- if the player's handicap is below the opponent's.
  pub compute_pairing_result-level :
      (r : RoundResult) (hc : StoredHc float) (factor : F) (t : Team)
      → hc.handicap_pts_used ≡ none
      → raw_points home r ≡ raw_points away r
      → pos 0 <ℤ (calc_spot_m float (rating hc home) (rating hc away) factor).pts
      → ((compute_pairing_result float r hc factor).winner ≡ some t)
        ↔ (lt (rating hc t) (rating hc (other t)) ≡ true)
  compute_pairing_result-level r hc factor t unset level p =
      let spot = calc_spot_m float (rating hc home) (rating hc away) factor in
      let ahead = receiver_ahead spot.to spot.pts (raw_points home r) t p in
      let low =
        subst (λ b. (spot.to ≡ some t) ↔ (b ≡ true)) (below_rating hc t)
          (calc_spot_m-receiver (rating hc home) (rating hc away) factor t) in
      let shown = winner_shown r hc factor unset level in
      (λ h. low.0 (ahead.0 (sym shown ∙ h)), λ h. shown ∙ ahead.1 (low.1 h))
