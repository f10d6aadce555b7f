-- ===== src/Scoresheet/Leads.antt =====
-- Leads in points, over what the open games can still give.
use league_app.Base.{
  ℕ, ◌-◌, ◌*◌, ◌≡◌, true, false, ℤ, pos, ◌+ℤ◌, ◌≤ℤ◌, ltb_ℤ, arith, int_laws, +ℤ_parts, eq_of_parts,
  ◌≤◌,
}

-- The lead over all that remains is kept.
pub lead_kept :
    (a b a' b' : ℤ) (p q : ℕ)
    → p ≤ q
    → q ≤ 3
    → a ≤ℤ a'
    → b' ≤ℤ (b +ℤ pos ((q - p) * 10))
    → ltb_ℤ (b +ℤ pos ((3 - p) * 10)) a ≡ true
    → ltb_ℤ (b' +ℤ pos ((3 - q) * 10)) a' ≡ true
lead_kept a b a' b' p q pq q3 ha hb h =
    let e = +ℤ_parts b (pos ((q - p) * 10)) in
    let e' = +ℤ_parts b (pos ((3 - p) * 10)) in
    let e'' = +ℤ_parts b' (pos ((3 - q) * 10)) in ground arith

pub one_lead : (a b : ℤ) (n : ℕ) → ltb_ℤ (b +ℤ pos n) a ≡ true → ltb_ℤ (a +ℤ pos n) b ≡ false
one_lead a b n h = let e = +ℤ_parts b (pos n) in let e' = +ℤ_parts a (pos n) in ground arith

pub shifted_up : (x x' c : ℤ) → x ≤ℤ x' → (x +ℤ c) ≤ℤ (x' +ℤ c)
shifted_up x x' c h = omega int_laws

pub shifted_most : (x x' c : ℤ) (n : ℕ) → x' ≤ℤ (x +ℤ pos n) → (x' +ℤ c) ≤ℤ ((x +ℤ c) +ℤ pos n)
shifted_most x x' c n h = omega int_laws

pub no_growth : (x x' : ℤ) (p q : ℕ) → p ≡ q → x ≤ℤ x' → x' ≤ℤ (x +ℤ pos ((q - p) * 10)) → x' ≡ x
no_growth x x' p q e u m = let l = +ℤ_parts x (pos ((q - p) * 10)) in eq_of_parts x' x (omega arith)
