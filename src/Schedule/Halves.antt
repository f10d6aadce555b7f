-- ===== src/Schedule/Halves.antt =====
-- The weeks of a double round robin.
use league_app.Base.{
  ℕ, ◌+◌, ◌-◌, ◌≤◌, ◌<◌, ◌≡◌, refl, Bool, true, false, ◌&&◌, ◌||◌, List, [], ◌∷◌, map, length, ◌==◌,
  ltb, if◌then◌else◌, arith, some, Bool-cases, inl, inr, subst, ap,
}
use league_app.Schedule.Generate.{
  ScheduleEntry, mirrored, double_entries, max_week_num, max_week_from, double_round_robin, twice,
}
use league_app.Schedule.Counting.{count, one_if}
use league_app.Schedule.Weeks.{matches_in, matches_in-append, round_robin_base-entries}

from_most : (m : ℕ) (es : List ScheduleEntry) → m ≤ max_week_from m es
unfolding max_week_from
from_most m [] = omega arith
from_most m (e ∷ es) =
    let r = from_most (if ltb m e.week_number then e.week_number else m) es in
    up m e.week_number _ r
  where
    up : (m n k : ℕ) → (if ltb m n then n else m) ≤ k → m ≤ k
    up m n k l = ground arith

head_most :
    (m : ℕ) (e : ScheduleEntry) (es : List ScheduleEntry) → e.week_number ≤ max_week_from m (e ∷ es)
unfolding max_week_from
head_most m e es =
    up m e.week_number _ (from_most (if ltb m e.week_number then e.week_number else m) es)
  where
    up : (m n k : ℕ) → (if ltb m n then n else m) ≤ k → n ≤ k
    up m n k l = ground arith

early_week : (w v top n : ℕ) (p : Bool) → v ≤ top → top < w → n ≡ 0 → one_if (v == w && p) + n ≡ 0
early_week w v top n p a b c = ground arith

-- Nothing is played after the last week.
beyond : (t w m : ℕ) (es : List ScheduleEntry) → max_week_from m es < w → matches_in t w es ≡ 0
unfolding matches_in max_week_from
beyond t w m [] l = refl
beyond t w m (e ∷ es) l =
    early_week w e.week_number _ _ (e.home_team_id == t || e.away_team_id == t) (head_most m e es) l
      (beyond t w (if ltb m e.week_number then e.week_number else m) es l)

shift_test :
    (v w n : ℕ) (p q : Bool) (k k' : ℕ)
    → k' ≡ k
    → one_if (v + n == w + n && (q || p)) + k' ≡ one_if (v == w && (p || q)) + k
shift_test v w n p q k k' e = ground arith

shifted :
    (t w n : ℕ) (es : List ScheduleEntry)
    → matches_in t (w + n) (map (mirrored n) es) ≡ matches_in t w es
unfolding matches_in
shifted t w n [] = refl
shifted t w n (e ∷ es) =
    shift_test e.week_number w n (e.home_team_id == t) (e.away_team_id == t) _ _ (shifted t w n es)

before : (t w n : ℕ) (es : List ScheduleEntry) → w < n → matches_in t w (map (mirrored n) es) ≡ 0
unfolding matches_in
before t w n [] l = refl
before t w n (e ∷ es) l =
    early_test e.week_number w n (e.away_team_id == t || e.home_team_id == t) _ l
      (before t w n es l)
  where
    early_test : (v w n : ℕ) (p : Bool) (k : ℕ) → w < n → k ≡ 0 → one_if (v + n == w && p) + k ≡ 0
    early_test v w n p k l e = ground arith

lt_of_test : (a b : ℕ) → ltb a b ≡ true → a < b
lt_of_test a b e = ground arith

le_of_test : (a b : ℕ) → ltb a b ≡ false → b ≤ a
le_of_test a b e = ground arith

no_difference : (w n : ℕ) → n ≤ w → ltb n w ≡ false → w - n ≡ 0
no_difference w n l e = ground arith

second_half :
    (t w n : ℕ) (es : List ScheduleEntry)
    → n ≤ w
    → matches_in t w (map (mirrored n) es) ≡ matches_in t (w - n) es
second_half t w n es l =
    subst (λ v. matches_in t v (map (mirrored n) es) ≡ matches_in t (w - n) es) (omega (arith, l))
      (shifted t (w - n) n es)

both_halves :
    (t w : ℕ) (es : List ScheduleEntry)
    → matches_in t 0 es ≡ 0
    → ((v : ℕ) → matches_in t v es ≤ 1)
    → max_week_num es ≤ w
    → matches_in t w es + matches_in t (w - max_week_num es) es ≤ 1
unfolding max_week_num
both_halves t w es z once l = elim (Bool-cases (ltb (max_week_num es) w)) [
  | inl g ↦
      omega (arith, beyond t w 0 es (lt_of_test (max_week_num es) w g), once (w - max_week_num es))
  | inr g ↦
      let e = ap (λ v. matches_in t v es) (no_difference w (max_week_num es) l g) in
      omega (arith, once w, e, z)
]

double_once :
    (t : ℕ) (es : List ScheduleEntry)
    → matches_in t 0 es ≡ 0
    → ((w : ℕ) → matches_in t w es ≤ 1)
    → (w : ℕ) → matches_in t w (double_entries es) ≤ 1
unfolding double_entries max_week_num
double_once t es z once w =
    let n = max_week_num es in
    let split = matches_in-append t w es (map (mirrored n) es) in
    elim (Bool-cases (ltb w n)) [
      | inl l ↦ omega (arith, split, once w, before t w n es (lt_of_test w n l))
      | inr g ↦
          let le = le_of_test w n g in
          omega (arith, split, second_half t w n es le, both_halves t w es z once le)
    ]

-- With two teams or more there is a double round robin, and in each of its weeks a team (that is
-- listed once and is not 0, the bye) has one match at most.
pub double_round_robin-once :
    (ids : List ℕ) (t w : ℕ)
    → 2 ≤ length ids
    → 1 ≤ t
    → count t ids ≤ 1
    → (es : List ScheduleEntry) × (double_round_robin ids ≡ some es) × (matches_in t w es ≤ 1)
unfolding double_round_robin
double_round_robin-once ids t w l p c =
    let (es, e, z, once) = round_robin_base-entries ids l in
    (double_entries es, ap twice e, double_once t es (z t) (λ v. once t v p c) w)
