-- ===== src/Scoresheet/Whole.antt =====
-- Whole numbers for float64, on which the definitions are run.
use league_app.Base.{◌+◌, ◌*◌, ◌≡◌, false, ◌&&◌, ℤ, pos, pos_part, neg_part, sub_ℕ, ltb_ℤ, arith}
use league_app.Scoresheet.Spot.{Float}

abbrev pub whole_sub : ℤ → ℤ → ℤ
whole_sub a b = sub_ℕ (pos_part a + neg_part b) (pos_part b + neg_part a)

abbrev pub whole_abs : ℤ → ℤ
whole_abs a = pos (pos_part a + neg_part a)

pub ltb_ℤ-asym : (a b : ℤ) → (ltb_ℤ a b && ltb_ℤ b a) ≡ false
ltb_ℤ-asym a b = ground arith

abbrev pub whole_float : Float
whole_float = record {
  F = ℤ;
  sub = whole_sub;
  mul = λ a b. pos (pos_part a * pos_part b);
  abs = whole_abs;
  lt = ltb_ℤ;
  round_to_int = λ a. a;
  multiplier = pos 3;
  lt_asym = ltb_ℤ-asym;
}
