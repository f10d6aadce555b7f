-- ===== src/Scoresheet/Sheet.antt =====
-- backend/domains/matches/scoresheet.go (`ValidateRounds`), with the messages of
-- backend/validation/validation.go. The texts of the messages are left out.
use league_app.Base.{
  ℕ, suc, ◌-◌, ◌*◌, Bool, true, false, not, ◌&&◌, ◌||◌, Option, none, some, List, [], ◌∷◌, ◌++◌,
  ◌==◌, ltb, if◌then◌else◌, exists_in, keep_if, ℤ, pos, ltb_ℤ, eqb_ℤ, ◌+ℤ◌,
}
use league_app.Scoresheet.Spot.{Team, home, away, SpotResult}

pub data Level : Type 0 where
  error warning : Level

pub data MessageCode : Type 0 where
  no_scores both_winners score_range loser_range game_incomplete hc_length_mismatch : MessageCode

-- "", "rounds[i].gameN", and that with "_home" or "_away".
pub data Field : Type 0 where
  sheet : Field
  game : ℕ → ℕ → Field
  game_of : ℕ → ℕ → Team → Field

pub record Message : Type 0 where
  pub code : MessageCode
  pub field : Field
  pub level : Level

abbrev pub add_error : MessageCode → Field → Message
add_error code field = record { code = code; field = field; level = error }

abbrev pub add_warning : MessageCode → Field → Message
add_warning code field = record { code = code; field = field; level = warning }

abbrev pub is_error : Message → Bool
is_error msg = elim msg.level [ error ↦ true | warning ↦ false ]

-- `HasErrors`, `HasWarnings`, `Errors`
abbrev pub has_errors : List Message → Bool
has_errors = exists_in is_error

abbrev pub has_warnings : List Message → Bool
has_warnings = exists_in (λ msg. not (is_error msg))

abbrev pub errors : List Message → List Message
errors = keep_if is_error

pub record Score : Type 0 where
  pub h : ℤ
  pub a : ℤ

pub record RoundResult : Type 0 where
  pub round_number : ℕ
  pub home_player_id : ℕ
  pub away_player_id : ℕ
  pub game1 : Score
  pub game2 : Score
  pub game3 : Score

abbrev pub is_ten : ℤ → Bool
is_ten x = eqb_ℤ x (pos 10)

abbrev pub out_of_range : ℤ → Bool
out_of_range x = ltb_ℤ x (pos 0) || ltb_ℤ (pos 10) x

abbrev pub when : Bool → Message → List Message
when true msg = msg ∷ []
when false msg = []

-- The messages of one game, in the order of the code; a game that both sides have won ends there.
unfoldable pub game_messages : ℕ → ℕ → Score → List Message
game_messages i n s =
    when (out_of_range s.h) (add_error score_range (game_of i n home))
    ++ (when (out_of_range s.a) (add_error score_range (game_of i n away))
        ++ (if is_ten s.h && is_ten s.a
            then add_error both_winners (game i n) ∷ []
            else when (is_ten s.h && ltb_ℤ (pos 7) s.a) (add_error loser_range (game_of i n away))
              ++ (when (is_ten s.a && ltb_ℤ (pos 7) s.h) (add_error loser_range (game_of i n home))
                  ++ when
                      (not (is_ten s.h)
                        && (not (is_ten s.a) && (ltb_ℤ (pos 0) s.h || ltb_ℤ (pos 0) s.a)))
                      (add_warning game_incomplete (game i n)))))

-- The winner of a game, where exactly one side has 10 (`gameWinners`).
unfoldable pub game_winner : Score → Option Team
game_winner s =
    if is_ten s.h && is_ten s.a
    then none
    else if is_ten s.h
    then some home
    else if is_ten s.a
    then some away
    else none

-- `rawH`, `rawA`, `gamesPlayed` and `gameWinners`, after the games of a pairing.
pub record Tally : Type 0 where
  pub raw_home : ℤ
  pub raw_away : ℤ
  pub played : ℕ
  pub home_games : ℕ
  pub away_games : ℕ

abbrev pub add_game : Tally → Score → Option Team → Tally
add_game t s none = t
add_game t s (some home) = record t {
  raw_home = t.raw_home +ℤ s.h;
  raw_away = t.raw_away +ℤ s.a;
  played = suc t.played;
  home_games = suc t.home_games;
}
add_game t s (some away) = record t {
  raw_home = t.raw_home +ℤ s.h;
  raw_away = t.raw_away +ℤ s.a;
  played = suc t.played;
  away_games = suc t.away_games;
}

abbrev pub no_games : Tally
no_games = record { raw_home = pos 0; raw_away = pos 0; played = 0; home_games = 0; away_games = 0 }

unfoldable pub tally : RoundResult → Tally
tally r =
    add_game
      (add_game (add_game no_games r.game1 (game_winner r.game1)) r.game2 (game_winner r.game2))
      r.game3 (game_winner r.game3)

-- `RoundConfig`, its multiplier apart. `int` threshold; 0 or less disables it.
pub record Adjustment : Type 0 where
  pub to : Option Team
  pub pts : ℤ

-- The spot of a pairing after the minimum-ball threshold.
unfoldable pub effective_spot : ℤ → SpotResult → Adjustment
effective_spot min_ball_hc spot = record {
  to = spot.to;
  pts = if ltb_ℤ (pos 0) min_ball_hc && ltb_ℤ spot.pts min_ball_hc then pos 0 else spot.pts;
}

abbrev pub add_home : Adjustment → ℤ → ℤ
add_home s x = elim s.to [ none ↦ x | some t ↦ elim t [ home ↦ x +ℤ s.pts | away ↦ x ] ]

abbrev pub add_away : Adjustment → ℤ → ℤ
add_away s x = elim s.to [ none ↦ x | some t ↦ elim t [ home ↦ x | away ↦ x +ℤ s.pts ] ]

-- Three games were played, and the games won break the tie of the points.
abbrev pub tiebreak : Tally → Option Team
tiebreak t =
    if ltb t.away_games t.home_games
    then some home
    else if ltb t.home_games t.away_games
    then some away
    else none

-- The `switch` on the pairing's winner, over the adjusted points and `remaining`.
unfoldable pub decide_pairing : Tally → ℤ → ℤ → ℕ → Option Team
decide_pairing t adj_home adj_away remaining =
    if ltb_ℤ (adj_away +ℤ pos (remaining * 10)) adj_home
    then some home
    else if ltb_ℤ (adj_home +ℤ pos (remaining * 10)) adj_away
    then some away
    else if remaining == 0
    then tiebreak t
    else none

unfoldable pub tally_winner : Adjustment → Tally → Option Team
tally_winner s t =
    if ltb 0 t.played
    then decide_pairing t (add_home s t.raw_home) (add_away s t.raw_away) (3 - t.played)
    else none

unfoldable pub pairing_winner : Adjustment → RoundResult → Option Team
pairing_winner s r = tally_winner s (tally r)
