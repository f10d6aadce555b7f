-- ===== src/Schedule/Tests.antt =====
-- Five teams: a bye each week.
use league_app.Base.{ℕ, ◌≤◌, ◌+◌, ◌≡◌, some, List, [], ◌∷◌, arith}
use league_app.Schedule.Generate.{
  ScheduleEntry, double_entries, double_round_robin, round_robin_base,
}
use league_app.Schedule.Weeks.{matches_in, round_robin_base-once}
use league_app.Schedule.Mirror.{hosts, double_entries-hosts}
use league_app.Schedule.Halves.{double_round_robin-once}

abbrev five_teams : List ℕ
five_teams = 11 ∷ 12 ∷ 13 ∷ 14 ∷ 15 ∷ []

abbrev one_entry : List ScheduleEntry
one_entry = record { home_team_id = 11; away_team_id = 12; week_number = 1 } ∷ []

round_robin_base-once_example :
    (es : List ScheduleEntry) × (round_robin_base five_teams ≡ some es) × (matches_in 13 2 es ≤ 1)
round_robin_base-once_example =
    round_robin_base-once five_teams 13 2 (omega arith) (omega arith) (omega arith)

double_round_robin-once_example :
    (es : List ScheduleEntry) × (double_round_robin five_teams ≡ some es) × (matches_in 13 7 es ≤ 1)
double_round_robin-once_example =
    double_round_robin-once five_teams 13 7 (omega arith) (omega arith) (omega arith)

double_entries-hosts_example :
    (hosts 11 12 (double_entries one_entry) ≡ hosts 12 11 (double_entries one_entry))
    × (hosts 11 12 (double_entries one_entry) ≡ hosts 11 12 one_entry + hosts 12 11 one_entry)
double_entries-hosts_example = double_entries-hosts 11 12 one_entry
