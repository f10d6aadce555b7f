-- ===== src/Schedule/Mirror.antt =====
-- The second half of a double round robin.
use league_app.Base.{ℕ, ◌+◌, ◌≡◌, refl, Bool, ◌&&◌, List, [], ◌∷◌, ◌++◌, map, ◌==◌, arith}
use league_app.Schedule.Generate.{ScheduleEntry, mirrored, double_entries, max_week_num}
use league_app.Schedule.Counting.{one_if}

-- How often a hosts b.
unfoldable pub hosts : ℕ → ℕ → List ScheduleEntry → ℕ
hosts a b [] = 0
hosts a b (e ∷ es) = one_if (e.home_team_id == a && e.away_team_id == b) + hosts a b es

hosts-append :
    (a b : ℕ) (xs ys : List ScheduleEntry) → hosts a b (xs ++ ys) ≡ hosts a b xs + hosts a b ys
unfolding hosts
hosts-append a b [] ys = omega arith
hosts-append a b (x ∷ xs) ys = omega (arith, hosts-append a b xs ys)

swap_tests : (p q : Bool) → one_if (p && q) ≡ one_if (q && p)
swap_tests p q = ground arith

hosts-mirrored :
    (a b n : ℕ) (es : List ScheduleEntry) → hosts a b (map (mirrored n) es) ≡ hosts b a es
unfolding hosts
hosts-mirrored a b n [] = refl
hosts-mirrored a b n (e ∷ es) =
    omega (arith, hosts-mirrored a b n es, swap_tests (e.away_team_id == a) (e.home_team_id == b))

-- In a double round robin a team hosts another as often as it is its guest, and in all as often as
-- the two met in the first half.
pub double_entries-hosts :
    (a b : ℕ) (es : List ScheduleEntry)
    → (hosts a b (double_entries es) ≡ hosts b a (double_entries es))
      × (hosts a b (double_entries es) ≡ hosts a b es + hosts b a es)
unfolding double_entries
double_entries-hosts a b es =
    let p = hosts-append a b es (map (mirrored (max_week_num es)) es) in
    let q = hosts-append b a es (map (mirrored (max_week_num es)) es) in
    let m = hosts-mirrored a b (max_week_num es) es in
    let n = hosts-mirrored b a (max_week_num es) es in
    (omega (arith, p, q, m, n), omega (arith, p, m))
