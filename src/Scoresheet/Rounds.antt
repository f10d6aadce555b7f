-- ===== src/Scoresheet/Rounds.antt =====
-- backend/domains/matches/scoresheet.go, `ValidateRounds` over a whole sheet.
use league_app.Base.{
  ℕ, suc, Bool, true, false, ◌&&◌, ◌||◌, Option, none, some, List, [], ◌∷◌, ◌++◌, map, ◌==◌, leb,
  if◌then◌else◌, length, exists_in, is_set, ℤ,
}
use league_app.Scoresheet.Spot.{Team, home, away, Float, calc_spot_m}
use league_app.Scoresheet.Sheet.{
  Message, no_scores, hc_length_mismatch, sheet, add_error, add_warning, RoundResult, Score, is_ten,
  game_messages, effective_spot, pairing_winner,
}

abbrev has_ten : Score → Bool
has_ten s = is_ten s.h || is_ten s.a

unfoldable pub any_score : List RoundResult → Bool
any_score = exists_in (λ r. has_ten r.game1 || (has_ten r.game2 || has_ten r.game3))

unfoldable pub pairing_messages : ℕ → RoundResult → List Message
pairing_messages i r =
    game_messages i 1 r.game1 ++ (game_messages i 2 r.game2 ++ game_messages i 3 r.game3)

-- The messages of the pairings from slot i on.
unfoldable pub messages_from : ℕ → List RoundResult → List Message
messages_from i [] = []
messages_from i (r ∷ rs) = pairing_messages i r ++ messages_from (suc i) rs

-- A pairing's round number and winner, as the loop counts them.
pub record Outcome : Type 0 where
  pub round : ℕ
  pub winner : Option Team

abbrev pub is_win : Team → Option Team → Bool
is_win t none = false
is_win home (some w) = elim w [ home ↦ true | away ↦ false ]
is_win away (some w) = elim w [ home ↦ false | away ↦ true ]

-- `roundHomeWins[rn]` and `roundAwayWins[rn]`
unfoldable pub round_wins : Team → ℕ → List Outcome → ℕ
round_wins t rn [] = 0
round_wins t rn (o ∷ os) =
    let rest = round_wins t rn os in if (o.round == rn) && is_win t o.winner then suc rest else rest

-- `roundHasDecided[rn]`
unfoldable pub round_has_decided : ℕ → List Outcome → Bool
round_has_decided rn = exists_in (λ o. (o.round == rn) && is_set o.winner)

-- The map `RoundWinners`: `none` where it has no entry.
unfoldable pub round_winner : List Outcome → ℕ → Option Team
round_winner os rn =
    if round_has_decided rn os
    then if leb 2 (round_wins home rn os)
      then some home
      else if leb 2 (round_wins away rn os)
      then some away
      else none
    else none

module _ (float : Float) where
  open float use {F}

  pub record PairingHc : Type 0 where
    pub home_hc : F
    pub away_hc : F

  pub record RoundConfig : Type 0 where
    pub multiplier : F
    pub min_ball_hc : ℤ

  -- `RoundWinners` has an entry for a round where `round_winners` gives a team.
  pub record ScoresheetResult : Type 0 where
    pub messages : List Message
    pub pairing_winners : List (Option Team)
    pub round_winners : ℕ → Option Team

  unfoldable pub spot_winner : RoundConfig → RoundResult → PairingHc → Option Team
  unfolding calc_spot_m
  spot_winner cfg r hc =
      pairing_winner
        (effective_spot cfg.min_ball_hc (calc_spot_m float hc.home_hc hc.away_hc cfg.multiplier)) r

  unfoldable pub outcomes : RoundConfig → List RoundResult → List PairingHc → List Outcome
  outcomes cfg [] hcs = []
  outcomes cfg (r ∷ rs) [] = []
  outcomes cfg (r ∷ rs) (hc ∷ hcs) =
      record { round = r.round_number; winner = spot_winner cfg r hc } ∷ outcomes cfg rs hcs

  unfoldable pub validate_rounds :
      List RoundResult → List PairingHc → RoundConfig → ScoresheetResult
  validate_rounds rounds pairing_hc cfg =
      if length pairing_hc == length rounds
      then record {
        messages =
            (if any_score rounds then [] else add_warning no_scores sheet ∷ [])
            ++ messages_from 0 rounds;
        pairing_winners = map (λ o. o.winner) (outcomes cfg rounds pairing_hc);
        round_winners = round_winner (outcomes cfg rounds pairing_hc);
      }
      else record {
        messages = add_error hc_length_mismatch sheet ∷ [];
        pairing_winners = map (λ r. none) rounds;
        round_winners = λ rn. none;
      }
