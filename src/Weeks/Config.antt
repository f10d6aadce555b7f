-- ===== src/Weeks/Config.antt =====
-- backend/domains/matches/round_config.go over the rule store (backend/storage/sqlite/rule_store.go).
use league_app.Base.{ℕ, String, str_eq, Bool, Option, none, some, ℤ, pos, ltb_ℤ, if◌then◌else◌}
use league_app.Effects.{infra, M, pure, ◌>>=◌, query, require}
use league_app.Scoresheet.Spot.{Float}
use league_app.Scoresheet.Rounds.{RoundConfig}
use league_app.Weeks.Db.{WeekDb, RuleKey, handicap_multiplier, min_ball_handicap}

-- Package strconv and the constant 0 of float64: `parse_float` gives a value where there is no error and the number is positive
-- and finite (`ParseFloat`, `IsNaN`, `IsInf`, and the comparison with 0 of float64).
pub record Strconv (float : Float) : Type 0 where
  pub float_zero : float.F
  pub parse_float : String → Option float.F
  pub positive_finite : float.F → Bool
  pub atoi : String → Option ℤ

module _ (float : Float) (strconv : Strconv float) where
  open float use {F, multiplier}
  open strconv use {parse_float, positive_finite, atoi}

  abbrev pub get_value : ℕ → RuleKey → M (WeekDb float) (Option String)
  get_value season key = query (λ d. d.rules season key)

  -- `none` is the error.
  abbrev checked_multiplier : Option F → Option F
  checked_multiplier none = none
  checked_multiplier (some f) = if positive_finite f then some f else none

  abbrev pub parse_multiplier : Option String → Option F
  parse_multiplier none = some multiplier
  parse_multiplier (some s) =
      if str_eq s "" then some multiplier else checked_multiplier (parse_float s)

  abbrev checked_min_ball : Option ℤ → Option ℤ
  checked_min_ball none = none
  checked_min_ball (some n) = if ltb_ℤ n (pos 0) then none else some n

  abbrev pub parse_min_ball : Option String → Option ℤ
  parse_min_ball none = some (pos 0)
  parse_min_ball (some s) = if str_eq s "" then some (pos 0) else checked_min_ball (atoi s)

  unfoldable pub resolve_round_config : ℕ → M (WeekDb float) (RoundConfig float)
  resolve_round_config season = do
    mult_str ← get_value season handicap_multiplier
    mult ← require (parse_multiplier mult_str) infra
    min_ball_str ← get_value season min_ball_handicap
    min_ball ← require (parse_min_ball min_ball_str) infra
    pure (record { multiplier = mult; min_ball_hc = min_ball })
