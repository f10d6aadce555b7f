-- ===== src/Seasons/Close.antt =====
-- backend/domains/seasons/close_service.go, over the statements of
-- backend/storage/sqlite/season_close_store.go and GetMatchCount of season_store.go. The week
-- summaries and the standings are arguments, as in the code. The snapshot is kept as the value that
-- the code encodes as JSON.
use league_app.Base.{
  ℕ, Bool, true, false, not, ◌&&◌, Option, none, some, List, [], ◌∷◌, map, ◌==◌, ltb, is_set,
  length, keep_if, if◌then◌else◌,
}
use league_app.Effects.{
  Err, domain, season_row_not_found, Code, Category, conflict, unprocessable, season_close_draft,
  season_already_closed, season_close_no_schedule, season_close_unclosed, season_close_blocked,
  season_not_closed, M, pure, ◌>>=◌, ◌>>◌, query, exec, clock, require, fail_if,
}
use league_app.Standings.Table.{Standing}

pub record SnapshotPayload : Type 0 where
  pub captured_at : ℕ
  pub standings : List Standing

pub record ClosableSeason : Type 0 where
  pub active : Bool
  pub activated_at : Option ℕ
  pub closed_at : Option ℕ
  pub final_standings_snapshot : Option SnapshotPayload

pub record SeasonMatch : Type 0 where
  pub season_id : ℕ
  pub completed : Bool

pub record SeasonDb : Type 0 where
  pub seasons : ℕ → Option ClosableSeason
  pub matches : List SeasonMatch

-- The fields of `models.WeekSummary` that are read.
pub record WeekSummary : Type 0 where
  pub week_number : ℕ
  pub is_closed : Bool

unfoldable pub get_season : ℕ → M SeasonDb ClosableSeason
get_season id = do found ← query (λ d. d.seasons id); require found season_row_not_found

abbrev pub match_count : ℕ → SeasonDb → ℕ
match_count id d = length (keep_if (λ m. m.season_id == id) d.matches)

unfoldable pub get_match_count : ℕ → M SeasonDb ℕ
get_match_count id = query (match_count id)

unfoldable pub get_season_missing_count : ℕ → M SeasonDb ℕ
get_season_missing_count id =
    query (λ d. length (keep_if (λ m. (m.season_id == id) && not m.completed) d.matches))

abbrev pub closed_row : ℕ → SnapshotPayload → Bool → ClosableSeason → ClosableSeason
closed_row now snapshot set_inactive s = record s {
  active = if set_inactive then false else s.active;
  closed_at = some now;
  final_standings_snapshot = some snapshot;
}

abbrev pub on_row :
    (ClosableSeason → ClosableSeason) → Option ClosableSeason → Option ClosableSeason
on_row f none = none
on_row f (some s) = some (f s)

abbrev pub update_row : ℕ → (ClosableSeason → ClosableSeason) → SeasonDb → SeasonDb
update_row id f d = record d {
  seasons = λ j. if j == id then on_row f (d.seasons j) else d.seasons j;
}

unfoldable pub close_season_record : ℕ → SnapshotPayload → Bool → M SeasonDb (Unit {0})
close_season_record id snapshot set_inactive =
    exec (λ now d. (tt, update_row id (closed_row now snapshot set_inactive) d))

abbrev pub reopened_row : ClosableSeason → ClosableSeason
reopened_row s = record s { closed_at = none }

unfoldable pub reopen_season_record : ℕ → M SeasonDb (Unit {0})
reopen_season_record id = exec (λ now d. (tt, update_row id reopened_row d))

-- A warning is its count.
pub record SeasonClosePreview : Type 0 where
  pub can_close : Bool
  pub blockers : List Code
  pub warnings : List ℕ
  pub standings : List Standing
  pub missing_count : ℕ
  pub unclosed_weeks : List ℕ

pub record SeasonCloseState : Type 0 where
  pub preview : SeasonClosePreview
  pub set_inactive : Bool

abbrev pub unclosed : List WeekSummary → List ℕ
unclosed weeks = map (λ w. w.week_number) (keep_if (λ w. not w.is_closed) weeks)

abbrev pub no_weeks : List ℕ → Bool
no_weeks [] = true
no_weeks (w ∷ ws) = false

-- One blocker, found before the weeks are looked at.
abbrev pub blocked_by : Code → Bool → List Standing → SeasonCloseState
blocked_by code set_inactive standings = record {
  preview = record {
    can_close = false;
    blockers = code ∷ [];
    warnings = [];
    standings = standings;
    missing_count = 0;
    unclosed_weeks = [];
  };
  set_inactive = set_inactive;
}

abbrev pub checked : Bool → List WeekSummary → List Standing → ℕ → SeasonCloseState
checked set_inactive weeks standings missing = record {
  preview = record {
    can_close = no_weeks (unclosed weeks);
    blockers = if no_weeks (unclosed weeks) then [] else season_close_unclosed ∷ [];
    warnings = if ltb 0 missing then missing ∷ [] else [];
    standings = standings;
    missing_count = missing;
    unclosed_weeks = unclosed weeks;
  };
  set_inactive = set_inactive;
}

module _ (id : ℕ) (weeks : List WeekSummary) (standings : List Standing) where
  abbrev pub compute_scheduled : Bool → ℕ → M SeasonDb SeasonCloseState
  compute_scheduled active count =
      if count == 0
      then pure (blocked_by season_close_no_schedule active standings)
      else get_season_missing_count id >>= λ missing. pure (checked active weeks standings missing)

  abbrev pub compute_open : ClosableSeason → M SeasonDb SeasonCloseState
  compute_open s = get_match_count id >>= compute_scheduled s.active

  abbrev pub compute_found : ClosableSeason → M SeasonDb SeasonCloseState
  compute_found s =
      if not (is_set s.activated_at)
      then pure (blocked_by season_close_draft false standings)
      else if is_set s.closed_at
      then pure (blocked_by season_already_closed false standings)
      else compute_open s

  unfoldable pub compute_close : M SeasonDb SeasonCloseState
  compute_close = get_season id >>= compute_found

  unfoldable pub close_preview : M SeasonDb SeasonClosePreview
  close_preview = do state ← compute_close; pure state.preview

  abbrev blocker_category : Code → Category
  blocker_category season_already_closed = conflict
  blocker_category season_close_unclosed = conflict
  blocker_category _ = unprocessable

  abbrev pub first_blocker : List Code → Err
  first_blocker [] = domain season_close_blocked unprocessable
  first_blocker (code ∷ codes) = domain code (blocker_category code)

  unfoldable pub commit_close : SeasonCloseState → M SeasonDb ClosableSeason
  commit_close state = do
    fail_if (not state.preview.can_close) (first_blocker state.preview.blockers)
    now ← clock
    close_season_record id (record { captured_at = now; standings = state.preview.standings })
        state.set_inactive
    get_season id

  unfoldable pub close_season : M SeasonDb ClosableSeason
  close_season = compute_close >>= commit_close

unfoldable pub reopen_season : ℕ → M SeasonDb ClosableSeason
reopen_season id = do
  s ← get_season id
  fail_if (not (is_set s.closed_at)) (domain season_not_closed conflict)
  reopen_season_record id
  get_season id
