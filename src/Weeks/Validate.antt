-- ===== src/Weeks/Validate.antt =====
-- backend/domains/matches/closeweek.go: `validateWeekData`.
use league_app.Base.{
  ℕ, Bool, true, false, ◌&&◌, Option, none, some, List, [], ◌∷◌, ◌++◌, map, ◌==◌, exists_in,
  if◌then◌else◌,
}
use league_app.Scoresheet.Spot.{Float}
use league_app.Scoresheet.Sheet.{error, Message, RoundResult}
use league_app.Scoresheet.Rounds.{PairingHc, RoundConfig, any_score, validate_rounds}
use league_app.Weeks.Messages.{
  WeekCode, match_no_scores, match_unassigned, player_duplicate, of_scoresheet, match_field,
  scoresheet_field, WeekMessage,
}

-- A player in a round: a key of `playersByRound`.
pub record Slot : Type 0 where
  pub round : ℕ
  pub player : ℕ

abbrev pub slot_eq : Slot → Slot → Bool
slot_eq s t = (s.round == t.round) && (s.player == t.player)

abbrev pub slots_of : RoundResult → List Slot
slots_of r =
    record { round = r.round_number; player = r.home_player_id }
    ∷ record { round = r.round_number; player = r.away_player_id }
    ∷ []

unfoldable pub all_slots : List RoundResult → List Slot
all_slots [] = []
all_slots (r ∷ rs) = slots_of r ++ all_slots rs

abbrev pub week_error : WeekCode → ℕ → WeekMessage
week_error code id = record { code = code; field = match_field id; level = error; match_id = id }

-- One message for each slot that was seen before.
unfoldable pub duplicates : ℕ → List Slot → List Slot → List WeekMessage
duplicates id seen [] = []
duplicates id seen (s ∷ ss) =
    let rest = duplicates id (s ∷ seen) ss in
    if exists_in (slot_eq s) seen then week_error player_duplicate id ∷ rest else rest

abbrev pub of_match : ℕ → Message → WeekMessage
of_match id msg = record {
  code = of_scoresheet msg.code;
  field = scoresheet_field msg.field;
  level = msg.level;
  match_id = id;
}

abbrev pub is_empty : List WeekMessage → Bool
is_empty [] = true
is_empty (msg ∷ msgs) = false

module _ (float : Float) where
  open float use {F}

  -- `RoundValidationRow`: the pairing and its handicaps.
  pub record RoundValidationRow : Type 0 where
    pub result : RoundResult
    pub hc : PairingHc float

  pub record MatchValidationRow : Type 0 where
    pub match_id : ℕ
    pub home_team_id : Option ℕ
    pub away_team_id : Option ℕ
    pub rounds : List RoundValidationRow

  abbrev pub results_of : MatchValidationRow → List RoundResult
  results_of m = map (λ r. r.result) m.rounds

  abbrev pub hcs_of : MatchValidationRow → List (PairingHc float)
  hcs_of m = map (λ r. r.hc) m.rounds

  abbrev pub is_assigned : Option ℕ → Option ℕ → Bool
  is_assigned (some h) (some a) = true
  is_assigned (some h) none = false
  is_assigned none a = false

  abbrev pub scored_messages : RoundConfig float → MatchValidationRow → List WeekMessage
  scored_messages cfg m =
      if any_score (results_of m)
      then map (of_match m.match_id) (validate_rounds float (results_of m) (hcs_of m) cfg).messages
      else week_error match_no_scores m.match_id ∷ []

  abbrev pub assigned_messages :
      RoundConfig float → MatchValidationRow → List WeekMessage → List WeekMessage
  assigned_messages cfg m dups = if is_empty dups then scored_messages cfg m else dups

  -- The messages of one match: the body of the loop.
  unfoldable pub match_messages : RoundConfig float → MatchValidationRow → List WeekMessage
  match_messages cfg m =
      if is_assigned m.home_team_id m.away_team_id
      then assigned_messages cfg m (duplicates m.match_id [] (all_slots (results_of m)))
      else week_error match_unassigned m.match_id ∷ []

  unfoldable pub validate_week_data : List MatchValidationRow → RoundConfig float → List WeekMessage
  validate_week_data [] cfg = []
  validate_week_data (m ∷ ms) cfg = match_messages cfg m ++ validate_week_data ms cfg
