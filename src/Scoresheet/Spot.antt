-- ===== src/Scoresheet/Spot.antt =====
-- logic/handicap.go: the handicap spot. Go's float64 is a parameter.
use league_app.Base.{◌≡◌, Bool, false, ◌&&◌, Option, none, some, if◌then◌else◌, ℤ}

pub data Team : Type 0 where
  home away : Team

abbrev pub other : Team → Team
other home = away
other away = home

-- The operations of float64 and of package math that the code uses; `round_to_int` is
-- `int(math.Round(x))`. `<` is asymmetric: so it is in IEEE arithmetic, for infinities and NaN too.
pub record Float : Type 1 where
  pub F : Type 0
  pub sub : F → F → F
  pub mul : F → F → F
  pub abs : F → F
  pub lt : F → F → Bool
  pub round_to_int : F → ℤ
  pub multiplier : F
  pub lt_asym : (a b : F) → (lt a b && lt b a) ≡ false

-- `To` is "home", "away" or "" (none).
pub record SpotResult : Type 0 where
  pub pts : ℤ
  pub to : Option Team

module _ (float : Float) where
  open float use {F, sub, mul, abs, lt, round_to_int, multiplier}

  unfoldable pub calc_spot_m : F → F → F → SpotResult
  calc_spot_m home_hc away_hc factor = record {
    pts = round_to_int (mul (abs (sub home_hc away_hc)) factor);
    to = if lt home_hc away_hc then some home else if lt away_hc home_hc then some away else none;
  }

  unfoldable pub calc_spot : F → F → SpotResult
  unfolding calc_spot_m
  calc_spot home_hc away_hc = calc_spot_m home_hc away_hc multiplier
