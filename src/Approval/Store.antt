-- ===== src/Approval/Store.antt =====
-- The statements of backend/storage/sqlite/round_store.go on a match's approval. Each call of
-- the driver is a `query` or an `exec`, in the order in which the code makes them.
use league_app.Base.{
  ℕ, suc, String, str_eq, Bool, true, false, not, ◌&&◌, Option, none, some, List, [], ◌∷◌, ◌++◌,
  ◌==◌, is_set, opt_eq, if◌then◌else◌,
}
use league_app.Effects.{
  infra, sentinel, Guard, guard_match_not_found, M, pure, throw, ◌>>=◌, ◌>>◌, require, query,
  query_or, exec, run_tx,
}
use league_app.Approval.Db.{
  Db, MatchRow, Side, SideState, pending, approved, correction_requested, TeamSide, home, away,
  Event, EventType, approved_event, withdrawn, correction_requested_event, cleared_by_edit,
  ResultRow, without_results, side_scope, match_scope, side_of, with_side, state_eq, still_editable,
  update_where, cleared_side,
}
use league_app.Approval.Guards.{
  Snapshot, load_snapshot, unless_revision, classify_score_edit, classify_team_action,
  classify_admin_accept,
}

-- `MatchApprovalState`; where the code has `Exists` false the model has no state.
pub record MatchApprovalState : Type 0 where
  pub completed : Bool
  pub approved_at : Option ℕ
  pub processed_at : Option ℕ
  pub score_revision : ℕ
  pub home_side : Side
  pub away_side : Side

abbrev pub state_of : MatchRow → MatchApprovalState
state_of r = record {
  completed = r.completed;
  approved_at = r.approved_at;
  processed_at = r.processed_at;
  score_revision = r.score_revision;
  home_side = r.home_side;
  away_side = r.away_side;
}

abbrev pub found_state : Option MatchRow → Option MatchApprovalState
found_state none = none
found_state (some r) = some (state_of r)

-- The row that `GetMatchApprovalState` selects.
abbrev pub select_state : ℕ → Db → Option MatchApprovalState
select_state id d = found_state (d.matches id)

unfoldable pub get_match_approval_state : ℕ → M Db (Option MatchApprovalState)
get_match_approval_state id = query (select_state id)

abbrev week_closed_column : Option MatchRow → Bool
week_closed_column none = false
week_closed_column (some r) = r.week_closed

abbrev pub week_is_closed : ℕ → Db → Bool
week_is_closed id d = week_closed_column (d.matches id)

-- The error of the query is dropped: the answer is then "open".
unfoldable pub is_week_closed : ℕ → M Db Bool
is_week_closed id = query_or false (week_is_closed id)

abbrev closed_at_column : Option (Option ℕ) → Bool
closed_at_column none = false
closed_at_column (some closed_at) = is_set closed_at

abbrev season_of : Option MatchRow → Db → Bool
season_of none d = false
season_of (some r) d = closed_at_column (d.seasons r.season_id)

abbrev pub season_is_closed : ℕ → Db → Bool
season_is_closed id d = season_of (d.matches id) d

unfoldable pub is_season_closed_for_match : ℕ → M Db Bool
is_season_closed_for_match id = query_or false (season_is_closed id)

unfoldable pub insert_event : Event → M Db (Unit {0})
insert_event e = exec (λ now d. (tt, record d { events = d.events ++ e ∷ [] }))

-- The read-only query that classifies a guarded statement without a row.
unfoldable pub report_block : ℕ → (Snapshot → Guard) → M Db (Unit {0})
report_block id classify = do
  found ← query (load_snapshot id)
  snap ← require found (sentinel guard_match_not_found)
  throw (sentinel (classify snap))

-- One guarded UPDATE, and the classification where it affects no row.
unfoldable pub guarded_update :
    ℕ → (Db → MatchRow → Bool) → (ℕ → MatchRow → MatchRow) → (Snapshot → Guard) → M Db (Unit {0})
unfolding report_block
guarded_update id cond f classify = do
  affected ← exec (λ now d. update_where id (cond d) (f now) d)
  if affected then pure tt else report_block id classify

abbrev pub score_edit_guard : Option ℕ → Db → MatchRow → Bool
score_edit_guard expected d r =
    not (unless_revision expected r.score_revision) && still_editable d r

abbrev pub bump_revision : ℕ → MatchRow → MatchRow
bump_revision now r = record r { score_revision = suc r.score_revision }

abbrev pub side_event : ℕ → TeamSide → EventType → ℕ → Event
side_event id side type revision = record {
  match_id = id;
  event_scope = side_scope side;
  event_type = type;
  score_revision = revision;
  actor_user_id = none;
  actor_player_id = none;
  actor_name_snapshot = "";
  note = "";
  snapshot = none;
}

-- An UPDATE by key alone; `Exec` reports no error where no row has the key.
unfoldable pub update_by_id : ℕ → (ℕ → MatchRow → MatchRow) → M Db (Unit {0})
update_by_id id f = exec (λ now d. (tt, (update_where id (λ _. true) (f now) d).1))

-- One round of the loop over both sides: a side that is not pending is cleared and logged.
unfoldable pub clear_side : ℕ → ℕ → TeamSide → SideState → M Db (Unit {0})
clear_side id revision side pending = pure tt
clear_side id revision side _ = do
  update_by_id id (λ now. with_side side (cleared_side now))
  insert_event (side_event id side cleared_by_edit revision)

-- `advanceScoreRevisionForEdit`
unfoldable pub advance_score_revision_for_edit : ℕ → Option ℕ → M Db ℕ
advance_score_revision_for_edit id expected = do
  guarded_update id (score_edit_guard expected) bump_revision (classify_score_edit expected)
  found ← query (select_state id)
  row ← require found infra
  clear_side id row.score_revision home row.home_side.state
  clear_side id row.score_revision away row.away_side.state
  pure row.score_revision

pub record Actor : Type 0 where
  pub user_id : Option ℕ
  pub player_id : Option ℕ
  pub name_snapshot : String

abbrev pub acted_side : SideState → ℕ → Actor → ℕ → String → Side
acted_side state now actor revision note = record {
  state = state;
  state_at = some now;
  actor_user_id = actor.user_id;
  actor_player_id = actor.player_id;
  actor_name_snapshot = actor.name_snapshot;
  state_score_revision = some revision;
  correction_note = note;
}

abbrev pub actor_event : ℕ → TeamSide → EventType → ℕ → Actor → String → Event
actor_event id side type revision actor note = record (side_event id side type revision) {
  actor_user_id = actor.user_id;
  actor_player_id = actor.player_id;
  actor_name_snapshot = actor.name_snapshot;
  note = note;
}

abbrev pub scored_guard : ℕ → Db → MatchRow → Bool
scored_guard expected d r = r.score_revision == expected && (r.completed && still_editable d r)

unfoldable pub approve_team_side : ℕ → TeamSide → ℕ → Actor → M Db (Unit {0})
approve_team_side id side expected actor = run_tx (do
  guarded_update id (scored_guard expected)
      (λ now. with_side side (acted_side approved now actor expected ""))
      (classify_team_action expected side true false)
  insert_event (actor_event id side approved_event expected actor ""))

abbrev pub approved_guard : ℕ → TeamSide → Db → MatchRow → Bool
approved_guard expected side d r =
    r.score_revision == expected && (state_eq (side_of side r).state approved && still_editable d r)

unfoldable pub withdraw_team_approval : ℕ → TeamSide → ℕ → Actor → M Db (Unit {0})
withdraw_team_approval id side expected actor = run_tx (do
  guarded_update id (approved_guard expected side) (λ now. with_side side (cleared_side now))
      (classify_team_action expected side false true)
  insert_event (actor_event id side withdrawn expected actor ""))

unfoldable pub request_correction : ℕ → TeamSide → ℕ → String → Actor → M Db (Unit {0})
request_correction id side expected note actor = run_tx (do
  guarded_update id (scored_guard expected)
      (λ now. with_side side (acted_side correction_requested now actor expected note))
      (classify_team_action expected side true false)
  insert_event (actor_event id side correction_requested_event expected actor note))

-- The pinned side is the side as it is now.
abbrev pub same_side : Side → Side → Bool
same_side s pinned =
    state_eq s.state pinned.state
    && (opt_eq s.state_score_revision pinned.state_score_revision
        && str_eq s.correction_note pinned.correction_note)

abbrev pub accept_guard : ℕ → Side → Side → Db → MatchRow → Bool
accept_guard expected pinned_home pinned_away d r =
    r.score_revision == expected
    && (r.completed
        && (same_side r.home_side pinned_home
            && (same_side r.away_side pinned_away && still_editable d r)))

abbrev pub with_approval : Option ℕ → String → ℕ → MatchRow → MatchRow
with_approval by note now r = record r {
  approved_at = some now;
  approved_by_user_id = by;
  approval_note = note;
}

unfoldable pub guarded_admin_accept : ℕ → ℕ → Side → Side → Option ℕ → String → M Db (Unit {0})
guarded_admin_accept id expected pinned_home pinned_away by note =
    guarded_update id (accept_guard expected pinned_home pinned_away) (with_approval by note)
      (classify_admin_accept expected pinned_home pinned_away)

unfoldable pub approve_match : ℕ → Option ℕ → String → M Db (Unit {0})
approve_match id by note = update_by_id id (with_approval by note)

unfoldable pub process_match : ℕ → Option ℕ → M Db (Unit {0})
process_match id by =
    update_by_id id (λ now r. record r { processed_at = some now; processed_by_user_id = by })

unfoldable pub unapprove_match : ℕ → M Db (Unit {0})
unapprove_match id =
    update_by_id id
      (λ now r. record r { approved_at = none; approved_by_user_id = none; approval_note = "" })

unfoldable pub unprocess_match : ℕ → M Db (Unit {0})
unprocess_match id =
    update_by_id id (λ now r. record r { processed_at = none; processed_by_user_id = none })

unfoldable pub mark_match : ℕ → Bool → M Db (Unit {0})
mark_match id completed = update_by_id id (λ now r. record r { completed = completed })

unfoldable pub delete_match_results : ℕ → M Db (Unit {0})
delete_match_results id = exec (λ now d. (tt, without_results id d))

unfoldable pub insert_match_results : ℕ → List ResultRow → M Db (Unit {0})
insert_match_results id [] = pure tt
insert_match_results id (r ∷ rs) = do
  exec (λ now d. (tt, record d { results = d.results ++ record r { match_id = id } ∷ [] }))
  insert_match_results id rs

-- `SubmitMatchResults` and `ClearMatchResults` inside the caller's transaction, where their own
-- `RunTx` runs the body as it is.
unfoldable pub submit_match_results : ℕ → List ResultRow → M Db (Unit {0})
submit_match_results id rs = do
  delete_match_results id
  insert_match_results id rs
  mark_match id true

unfoldable pub clear_match_results : ℕ → M Db (Unit {0})
clear_match_results id = do delete_match_results id; mark_match id false

unfoldable pub record_admin_acceptance_event :
    ℕ → EventType → Option ℕ → String → ℕ → Side → Side → M Db (Unit {0})
record_admin_acceptance_event id type by note revision home_side away_side = insert_event (record {
  match_id = id;
  event_scope = match_scope;
  event_type = type;
  score_revision = revision;
  actor_user_id = by;
  actor_player_id = none;
  actor_name_snapshot = "";
  note = note;
  snapshot = some (record {
    home_state = home_side.state;
    home_note = home_side.correction_note;
    away_state = away_side.state;
    away_note = away_side.correction_note;
  });
})
