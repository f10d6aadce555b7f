-- ===== src/Schedule/Weeks.antt =====
-- No team plays twice in one week of a round robin.
use league_app.Base.{
  ℕ, zero, suc, ◌+◌, ◌-◌, ◌/◌, ◌≤◌, ◌<◌, ◌≡◌, refl, Bool, ◌&&◌, ◌||◌, none, some, List, [], ◌∷◌,
  ◌++◌, length, ◌==◌, ltb, if◌then◌else◌, arith, Bool-cases, inl, inr, ==_iff,
}
use league_app.Schedule.Generate.{
  ScheduleEntry, week_matches, rounds_from, rotate, reverse, with_bye, round_robin_base,
}
use league_app.Schedule.Counting.{
  count, take, one_if, two_ends, count-append, count-rotate, length-rotate,
}

-- The entry is a match of team t in week w.
abbrev is_match_of : ℕ → ℕ → ScheduleEntry → Bool
is_match_of t w e = e.week_number == w && (e.home_team_id == t || e.away_team_id == t)

-- How many matches team t has in week w.
unfoldable pub matches_in : ℕ → ℕ → List ScheduleEntry → ℕ
matches_in t w [] = 0
matches_in t w (e ∷ es) = one_if (is_match_of t w e) + matches_in t w es

pub matches_in-append :
    (t w : ℕ) (xs ys : List ScheduleEntry)
    → matches_in t w (xs ++ ys) ≡ matches_in t w xs + matches_in t w ys
unfolding matches_in
matches_in-append t w [] ys = omega arith
matches_in-append t w (x ∷ xs) ys = omega (arith, matches_in-append t w xs ys)

one_match :
    (t w : ℕ) (skip : Bool) (e : ScheduleEntry) (es : List ScheduleEntry)
    → matches_in t w (if skip then es else e ∷ es)
      ≤ one_if (e.home_team_id == t) + one_if (e.away_team_id == t) + matches_in t w es
unfolding matches_in
one_match t w skip e es = ground arith

week_most :
    (t w k v : ℕ) (xs ys : List ℕ)
    → matches_in t w (week_matches k v xs ys) ≤ count t (take k xs) + count t (take k ys)
unfolding matches_in week_matches
week_most t w zero v xs ys = omega arith
week_most t w (suc k) v [] ys = omega arith
week_most t w (suc k) v (x ∷ xs) [] = omega arith
week_most t w (suc k) v (x ∷ xs) (y ∷ ys) = omega (
  arith,
  week_most t w k v xs ys,
  one_match t w (x == 0 || y == 0) (record { home_team_id = x; away_team_id = y; week_number = v })
      (week_matches k v xs ys),
)

other_week :
    (t w v : ℕ) (skip : Bool) (x y : ℕ) (es : List ScheduleEntry)
    → (v ≡ w → ⊥)
    → matches_in t w
        (if skip then es else record { home_team_id = x; away_team_id = y; week_number = v } ∷ es)
      ≡ matches_in t w es
unfolding matches_in
other_week t w v skip x y es ne = ground arith

week_none :
    (t w k v : ℕ) (xs ys : List ℕ) → (v ≡ w → ⊥) → matches_in t w (week_matches k v xs ys) ≡ 0
unfolding matches_in week_matches
week_none t w zero v xs ys ne = refl
week_none t w (suc k) v [] ys ne = refl
week_none t w (suc k) v (x ∷ xs) [] ne = refl
week_none t w (suc k) v (x ∷ xs) (y ∷ ys) ne = omega (
  arith,
  week_none t w k v xs ys ne,
  other_week t w v (x == 0 || y == 0) x y (week_matches k v xs ys) ne,
)

-- The rounds that are left start at week v.
pub later_none :
    (t w half left v : ℕ) (xs : List ℕ) → w < v → matches_in t w (rounds_from half left v xs) ≡ 0
unfolding matches_in rounds_from
later_none t w half zero v xs l = refl
later_none t w half (suc left) v xs l = omega (
  arith,
  matches_in-append t w (week_matches half v xs (reverse xs))
      (rounds_from half left (suc v) (rotate xs)),
  week_none t w half v xs (reverse xs) (λ e. omega (arith, e, l)),
  later_none t w half left (suc v) (rotate xs) (omega (arith, l)),
)

rounds_once :
    (t w half left v : ℕ) (xs : List ℕ)
    → half + half ≤ length xs
    → count t xs ≤ 1
    → matches_in t w (rounds_from half left v xs) ≤ 1
unfolding matches_in rounds_from
rounds_once t w half zero v xs h c = omega arith
rounds_once t w half (suc left) v xs h c =
    let split =
      matches_in-append t w (week_matches half v xs (reverse xs))
        (rounds_from half left (suc v) (rotate xs)) in
    elim (Bool-cases (v == w)) [
      | inl same ↦ omega (
        arith,
        split,
        week_most t w half v xs (reverse xs),
        two_ends t half half xs h,
        c,
        later_none t w half left (suc v) (rotate xs) (omega (arith, (==_iff v w).0 same)),
      )
      | inr other ↦ omega (
        arith,
        split,
        week_none t w half v xs (reverse xs) (λ e. absurd (ground arith)),
        rounds_once t w half left (suc v) (rotate xs) (omega (arith, h, length-rotate xs))
            (omega (arith, c, count-rotate t xs)),
      )
    ]

halves : (n : ℕ) → n / 2 + n / 2 ≤ n
halves n = omega arith

with_bye-count : (t : ℕ) (ids : List ℕ) → 1 ≤ t → count t ids ≤ 1 → count t (with_bye ids) ≤ 1
with_bye-count t ids p c = let e = count-append t ids (0 ∷ []) in ground arith

two_teams :
    (n : ℕ) (es : List ScheduleEntry) → 2 ≤ n → (if ltb n 2 then none else some es) ≡ some es
two_teams n es l = ground arith

-- The entries that there are, with what the second half needs.
pub round_robin_base-entries :
    (ids : List ℕ)
    → 2 ≤ length ids
    → (es : List ScheduleEntry) × (round_robin_base ids ≡ some es)
      × ((t : ℕ) → matches_in t 0 es ≡ 0)
      × ((t w : ℕ) → 1 ≤ t → count t ids ≤ 1 → matches_in t w es ≤ 1)
unfolding round_robin_base
round_robin_base-entries ids l = (
  rounds_from (length (with_bye ids) / 2) (length (with_bye ids) - 1) 1 (with_bye ids),
  two_teams (length ids) _ l,
  λ t.
      later_none t 0 (length (with_bye ids) / 2) (length (with_bye ids) - 1) 1 (with_bye ids)
        (omega arith),
  λ t w p c.
      rounds_once t w (length (with_bye ids) / 2) (length (with_bye ids) - 1) 1 (with_bye ids)
        (halves (length (with_bye ids))) (with_bye-count t ids p c),
)

-- With two teams or more there is a schedule, and in each of its weeks a team (that is listed once
-- and is not 0, the bye) has one match at most.
pub round_robin_base-once :
    (ids : List ℕ) (t w : ℕ)
    → 2 ≤ length ids
    → 1 ≤ t
    → count t ids ≤ 1
    → (es : List ScheduleEntry) × (round_robin_base ids ≡ some es) × (matches_in t w es ≤ 1)
round_robin_base-once ids t w l p c =
    let (es, e, z, once) = round_robin_base-entries ids l in (es, e, once t w p c)
