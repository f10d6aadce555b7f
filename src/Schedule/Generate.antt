-- ===== src/Schedule/Generate.antt =====
-- backend/domains/matches/scheduling.go: the entries of a round robin, before bye requests and dates.
use league_app.Base.{
  ℕ, zero, suc, ◌+◌, ◌-◌, ◌/◌, ◌%◌, ◌||◌, Option, none, some, List, [], ◌∷◌, ◌++◌, map, length,
  ◌==◌, ltb, if◌then◌else◌,
}

-- `MatchDate` is assigned later.
pub record ScheduleEntry : Type 0 where
  pub home_team_id : ℕ
  pub away_team_id : ℕ
  pub week_number : ℕ

-- The last of x and xs in front of the others.
abbrev pub put_first : ℕ → List ℕ → List ℕ
put_first x [] = x ∷ []
put_first x (l ∷ ls) = l ∷ x ∷ ls

abbrev pub last_first : ℕ → List ℕ → List ℕ
last_first x [] = x ∷ []
last_first x (y ∷ ys) = put_first x (last_first y ys)

-- `teams[0]` stays, the rest rotates.
unfoldable pub rotate : List ℕ → List ℕ
rotate [] = []
rotate (t ∷ []) = t ∷ []
rotate (t ∷ (x ∷ xs)) = t ∷ last_first x xs

abbrev pub reverse : List ℕ → List ℕ
reverse [] = []
reverse (x ∷ xs) = reverse xs ++ (x ∷ [])

-- The inner loop over the first k places: `teams[i]` from the front, `teams[n-1-i]` from the back.
unfoldable pub week_matches : ℕ → ℕ → List ℕ → List ℕ → List ScheduleEntry
week_matches zero week homes aways = []
week_matches (suc k) week [] aways = []
week_matches (suc k) week (home ∷ homes) [] = []
week_matches (suc k) week (home ∷ homes) (away ∷ aways) =
    let rest = week_matches k week homes aways in
    if home == 0 || away == 0
    then rest
    else record { home_team_id = home; away_team_id = away; week_number = week } ∷ rest

-- The outer loop, over the rounds that are left.
unfoldable pub rounds_from : ℕ → ℕ → ℕ → List ℕ → List ScheduleEntry
rounds_from half zero week teams = []
rounds_from half (suc left) week teams =
    week_matches half week teams (reverse teams) ++ rounds_from half left (suc week) (rotate teams)

-- With a bye (0) where the number of teams is odd.
abbrev pub with_bye : List ℕ → List ℕ
with_bye ids = if length ids % 2 == 0 then ids else ids ++ (0 ∷ [])

unfoldable pub round_robin_base : List ℕ → Option (List ScheduleEntry)
round_robin_base ids =
    if ltb (length ids) 2
    then none
    else some (rounds_from (length (with_bye ids) / 2) (length (with_bye ids) - 1) 1 (with_bye ids))

abbrev larger : ℕ → ℕ → ℕ
larger a b = if ltb b a then a else b

unfoldable pub max_week_from : ℕ → List ScheduleEntry → ℕ
max_week_from m [] = m
max_week_from m (e ∷ es) = max_week_from (larger e.week_number m) es

unfoldable pub max_week_num : List ScheduleEntry → ℕ
max_week_num = max_week_from 0

abbrev pub mirrored : ℕ → ScheduleEntry → ScheduleEntry
mirrored weeks e = record {
  home_team_id = e.away_team_id;
  away_team_id = e.home_team_id;
  week_number = e.week_number + weeks;
}

-- `DoubleRoundRobin`, up to the dates.
unfoldable pub double_entries : List ScheduleEntry → List ScheduleEntry
double_entries entries = entries ++ map (mirrored (max_week_num entries)) entries

abbrev pub twice : Option (List ScheduleEntry) → Option (List ScheduleEntry)
twice none = none
twice (some es) = some (double_entries es)

unfoldable pub double_round_robin : List ℕ → Option (List ScheduleEntry)
double_round_robin ids = twice (round_robin_base ids)
