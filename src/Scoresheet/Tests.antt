-- ===== src/Scoresheet/Tests.antt =====
-- A sheet of one pairing, with whole numbers for Go's float64, and the theorems about it.
use league_app.Base.{
  ℕ, ◌+ℤ◌, ◌≡◌, refl, true, false, none, some, List, [], ◌∷◌, length, pos, ◌↔◌, ◌≤◌, ◌<ℤ◌, inl, inr,
  arith,
}
use league_app.Scoresheet.Spot.{home, away, calc_spot, calc_spot_m}
use league_app.Scoresheet.Sheet.{
  Score, RoundResult, Adjustment, has_errors, game_winner, tally, tally_winner, decide_pairing,
  pairing_winner,
}
use league_app.Scoresheet.Rounds.{Outcome, PairingHc, RoundConfig, round_winner, validate_rounds}
use league_app.Scoresheet.Whole.{whole_float}
use league_app.Scoresheet.EarlyStop.{pairing_winner-final}
use league_app.Scoresheet.Legal.{SheetIsLegal, validate_rounds-errors}
use league_app.Scoresheet.Majority.{pairings_won, round_winner-majority}
use league_app.Scoresheet.Snapshots.{effective_by_slot, stored}
use league_app.Scoresheet.Resave.{effective_by_slot-stored}
use league_app.Scoresheet.LowerRated.{raw_points, compute_pairing_result-level}
use league_app.Scoresheet.Display.{
  StoredHc, compute_pairing_result, show_pairing, more_points, show_pairing-winner, blank,
  show_pairing-blank,
}

abbrev score : ℕ → ℕ → Score
score h a = record { h = pos h; a = pos a }

abbrev pairing : Score → Score → Score → RoundResult
pairing g1 g2 g3 = record {
  round_number = 1;
  home_player_id = 11;
  away_player_id = 21;
  game1 = g1;
  game2 = g2;
  game3 = g3;
}

abbrev level : Adjustment
level = record { to = none; pts = pos 0 }

spot_to_lower : (calc_spot whole_float (pos 2) (pos 5)).to ≡ some home
unfolding calc_spot calc_spot_m
spot_to_lower = refl

-- A handicap of 2 against one of 5, and no spot stored.
abbrev unstored_spot : StoredHc whole_float
unstored_spot = record {
  handicap_pts_used = none;
  handicap_to_used = none;
  home_handicap = pos 2;
  home_handicap_used = none;
  away_handicap = pos 5;
  away_handicap_used = none;
}

level_raw :
    raw_points home (pairing (score 10 3) (score 3 10) (score 5 5))
    ≡ raw_points away (pairing (score 10 3) (score 3 10) (score 5 5))
unfolding ◌+ℤ◌
level_raw = refl

spot_above : pos 0 <ℤ (calc_spot_m whole_float (pos 2) (pos 5) (pos 3)).pts
unfolding calc_spot_m
spot_above = omega arith

compute_pairing_result-level_example :
    ((compute_pairing_result whole_float
        (pairing (score 10 3) (score 3 10) (score 5 5))
        unstored_spot
        (pos 3)).winner
      ≡ some home)
    ↔ (whole_float.lt (pos 2) (pos 5) ≡ true)
compute_pairing_result-level_example =
    compute_pairing_result-level whole_float (pairing (score 10 3) (score 3 10) (score 5 5))
      unstored_spot (pos 3) home refl level_raw spot_above

two_won : pairing_winner level (pairing (score 10 3) (score 10 4) (score 0 0)) ≡ some home
unfolding pairing_winner tally_winner tally game_winner decide_pairing ◌+ℤ◌
two_won = refl

open_third : game_winner (score 0 0) ≡ none
unfolding game_winner
open_third = refl

pairing_winner-final_example :
    pairing_winner level (pairing (score 10 3) (score 10 4) (score 2 10)) ≡ some home
pairing_winner-final_example =
    pairing_winner-final level (pairing (score 10 3) (score 10 4) (score 0 0))
      (pairing (score 10 3) (score 10 4) (score 2 10)) home (inl refl) (inl refl)
      (inr (open_third, omega arith, omega arith, omega arith, omega arith)) two_won

abbrev hc_pair : PairingHc whole_float
hc_pair = record { home_hc = pos 2; away_hc = pos 5 }

abbrev config : RoundConfig whole_float
config = record { multiplier = pos 3; min_ball_hc = pos 0 }

validate_rounds-errors_example :
    (has_errors
        (validate_rounds whole_float
          (pairing (score 10 3) (score 10 9) (score 2 10) ∷ [])
          (hc_pair ∷ [])
          config).messages
      ≡ false)
    ↔ (length (hc_pair ∷ []) ≡ 1)
      × SheetIsLegal (pairing (score 10 3) (score 10 9) (score 2 10) ∷ [])
validate_rounds-errors_example =
    validate_rounds-errors whole_float (pairing (score 10 3) (score 10 9) (score 2 10) ∷ [])
      (hc_pair ∷ []) config

abbrev three_outcomes : List Outcome
three_outcomes =
    record { round = 1; winner = some away }
    ∷ record { round = 1; winner = some home }
    ∷ record { round = 1; winner = some away }
    ∷ []

round_winner-majority_example :
    (round_winner three_outcomes 1 ≡ some away) ↔ (2 ≤ pairings_won away 1 three_outcomes)
round_winner-majority_example = round_winner-majority three_outcomes 1 away (omega arith)

three_decided : (tally (pairing (score 10 3) (score 4 10) (score 10 6))).played ≡ 3
unfolding tally game_winner
three_decided = refl

shown_home :
    (show_pairing level (pairing (score 10 3) (score 4 10) (score 10 6))).winner ≡ some home
unfolding show_pairing more_points ◌+ℤ◌
shown_home = refl

show_pairing-winner_example :
    pairing_winner level (pairing (score 10 3) (score 4 10) (score 10 6)) ≡ some home
show_pairing-winner_example =
    show_pairing-winner level (pairing (score 10 3) (score 4 10) (score 10 6)) home three_decided
      shown_home

show_pairing-blank_example :
    ((show_pairing (record { to = some away; pts = pos 8 }) (blank 1 11 21)).winner ≡ some away)
    × (pairing_winner (record { to = some away; pts = pos 8 }) (blank 1 11 21) ≡ none)
show_pairing-blank_example = show_pairing-blank 1 11 21 (pos 8) away (omega arith)

abbrev two_pairings : List RoundResult
two_pairings =
    pairing (score 10 3) (score 4 10) (score 10 6)
    ∷ record (pairing (score 10 3) (score 0 0) (score 0 0)) {
      home_player_id = 12;
      away_player_id = 22;
    }
    ∷ []

abbrev saved_hcs : List (PairingHc whole_float)
saved_hcs = hc_pair ∷ record { home_hc = pos 1; away_hc = pos 4 } ∷ []

effective_by_slot-stored_example :
    effective_by_slot whole_float
      (λ p. pos p)
      (stored whole_float two_pairings saved_hcs)
      two_pairings
    ≡ some saved_hcs
effective_by_slot-stored_example =
    effective_by_slot-stored whole_float (λ p. pos p) two_pairings saved_hcs refl refl
