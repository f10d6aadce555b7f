-- ===== src/Approval/Tests.antt =====
-- One match, scored and open, and the theorems about it.
use league_app.Base.{
  ℕ, String, ◌≡◌, ◌≢◌, refl, subst, Bool, true, false, none, some, [], ◌∷◌, ◌==◌, arith,
  if◌then◌else◌, ◌&&◌,
}
use league_app.Effects.{ok, World, query, exec, run_tx, map_err, ◌>>=◌}
use league_app.Approval.Db.{
  ResultRow, Db, MatchRow, Side, pending, approved, home, cleared_side, put, still_editable,
  update_where, eligible,
}
use league_app.Approval.Guards.{
  Snapshot, load_snapshot, classify_team_action, classify_admin_accept,
}
use league_app.Approval.Store
use league_app.Approval.Store.{
  Actor, with_approval, acted_side, get_match_approval_state, insert_event, report_block,
  guarded_update, update_by_id, clear_side, advance_score_revision_for_edit, delete_match_results,
  scored_guard, accept_guard, same_side, insert_match_results, mark_match, is_week_closed,
  is_season_closed_for_match,
}
use league_app.Approval.Service.{
  side_text, check_team_action, approve_team_side, approve_match, clear_results,
}
use league_app.Approval.Soundness.{IsSound, RowIsSound, SideIsSound}
use league_app.Approval.Requests.{
  Request, approve_side, clear, process, submit, serve, serve_all, Effect, serve_outcome,
}
use league_app.Approval.Safety.{serve_all-IsSound, serve_others}
use league_app.Approval.Locks.{LockedIn, accepted-Locked}
use league_app.Approval.Causes.{team_action-Cause, admin_accept-Cause}
use league_app.Approval.Stale.{prepared_before_edit}
use league_app.Approval.OpenChecks.{approve_match-week_closed}

abbrev keep : String → String
keep s = s

abbrev fresh_side : Side
fresh_side = cleared_side 0

abbrev scored_row : MatchRow
scored_row = record {
  season_id = 1;
  home_team_id = some 10;
  away_team_id = some 20;
  completed = true;
  week_closed = false;
  approved_at = none;
  approved_by_user_id = none;
  approval_note = "";
  processed_at = none;
  processed_by_user_id = none;
  score_revision = 4;
  home_side = fresh_side;
  away_side = fresh_side;
}

-- Match 7 alone, of the open season 1; player 3 is rostered to its home team.
abbrev one_match : MatchRow → Db
one_match r = record {
  matches = λ j. if j == 7 then some r else none;
  seasons = λ j. if j == 1 then some none else none;
  rosters = record { season_id = 1; player_id = 3; team_id = 10 } ∷ [];
  rounds = [];
  results = [];
  events = [];
}

abbrev at_db : Db → (ℕ → Bool) → World Db
at_db d fails = record { db = d; now = 100; calls = 0; fails = fails }

abbrev answered : ℕ → Bool
answered n = false

abbrev home_player : Actor
home_player = record { user_id = some 30; player_id = some 3; name_snapshot = "Ann" }

abbrev approves_home : ℕ → Request
approves_home revision = approve_side 7 (side_text home) revision home_player

fresh_side-SideIsSound : (r : MatchRow) → SideIsSound r fresh_side
fresh_side-SideIsSound r = record {
  blank = λ _. (refl, refl);
  current = λ h. absurd (h refl);
  scored = λ h. absurd (h refl);
  no_note = λ _. refl;
}

scored_row-RowIsSound : RowIsSound scored_row
scored_row-RowIsSound = record {
  home_is_sound = fresh_side-SideIsSound scored_row;
  away_is_sound = fresh_side-SideIsSound scored_row;
  accepted_scored = λ _. refl;
  processed_accepted = λ h. cc;
}

one_match-IsSound : IsSound (one_match scored_row)
one_match-IsSound id r e = subst RowIsSound (found id r e) scored_row-RowIsSound
  where
    found :
        (id : ℕ) (r : MatchRow)
        → (if id == 7 then some scored_row else none) ≡ some r
        → scored_row ≡ r
    found id r e = ground arith

serve_all-IsSound_example :
    IsSound
      (serve_all keep
        (approves_home 4 ∷ clear 7 none ∷ [])
        (at_db (one_match scored_row) answered)).db
serve_all-IsSound_example =
    serve_all-IsSound keep (approves_home 4 ∷ clear 7 none ∷ [])
      (at_db (one_match scored_row) answered) one_match-IsSound

approves_home_ok : (serve keep (approves_home 4) (at_db (one_match scored_row) answered)).0 ≡ ok tt
unfolding serve approve_team_side check_team_action get_match_approval_state query exec ◌>>=◌
    eligible run_tx map_err Store.approve_team_side guarded_update update_where still_editable
    insert_event
approves_home_ok = refl

serve_outcome_example :
    Effect keep
      (approves_home 4)
      (one_match scored_row)
      (serve keep (approves_home 4) (at_db (one_match scored_row) answered)).1.db
unfolding serve approve_team_side check_team_action get_match_approval_state query exec ◌>>=◌
    eligible run_tx map_err Store.approve_team_side guarded_update update_where still_editable
    insert_event
serve_outcome_example = serve_outcome keep (approves_home 4) (at_db (one_match scored_row) answered)

serve_others_example :
    (serve keep (clear 8 none) (at_db (one_match scored_row) answered)).1.db.matches 7
    ≡ some scored_row
serve_others_example =
    serve_others keep (clear 8 none) (at_db (one_match scored_row) answered) 7 (omega arith)

abbrev accepted_row : MatchRow
accepted_row = with_approval (some 1) "" 90 scored_row

abbrev result_row : ℕ → ResultRow
result_row id = record {
  match_id = id;
  player_id = 3;
  team_id = 10;
  games_won = 2;
  games_lost = 1;
  sets_won = 1;
  sets_lost = 0;
}

abbrev accepted_db : Db
accepted_db = record (one_match accepted_row) { results = result_row 7 ∷ result_row 8 ∷ [] }

accepted-Locked_example :
    LockedIn 7 accepted_row
      (result_row 7 ∷ [])
      (serve_all keep
        (approves_home 4 ∷ submit 7 [] none ∷ process 7 none ∷ [])
        (at_db accepted_db answered)).db
accepted-Locked_example =
    accepted-Locked keep (approves_home 4 ∷ submit 7 [] none ∷ process 7 none ∷ [])
      (at_db accepted_db answered) 7 accepted_row refl refl refl

clear_ok : (serve keep (clear 7 none) (at_db (one_match scored_row) answered)).0 ≡ ok tt
unfolding serve clear_results run_tx map_err advance_score_revision_for_edit guarded_update
    update_where still_editable query exec ◌>>=◌ clear_side Store.clear_match_results
    delete_match_results mark_match update_by_id
clear_ok = refl

prepared_before_edit_example :
    (serve keep
      (approves_home 4)
      (serve keep (clear 7 none) (at_db (one_match scored_row) answered)).1).0
    ≢ ok tt
prepared_before_edit_example =
    prepared_before_edit keep (clear 7 none) (approves_home 4)
      (at_db (one_match scored_row) answered) scored_row refl refl clear_ok refl refl

abbrev closed_row : MatchRow
closed_row = record scored_row { week_closed = true }

abbrev second_fails : ℕ → Bool
second_fails n = n == 2

approve_match-week_closed_example :
    ((approve_match 7 none "" (at_db (one_match closed_row) second_fails)).0 ≡ ok tt)
    × ((approve_match 7 none "" (at_db (one_match closed_row) second_fails)).1.db
        ≡ put 7 (with_approval none "" 100 closed_row) (one_match closed_row))
approve_match-week_closed_example =
    approve_match-week_closed 7 none "" (at_db (one_match closed_row) second_fails) closed_row true
      refl refl refl refl refl refl refl refl refl

abbrev snap_of_scored : Snapshot
snap_of_scored = record {
  score_revision = 4;
  completed = true;
  season_is_closed = false;
  week_is_closed = false;
  processed = false;
  admin_accepted = false;
  home_state = pending;
  away_state = pending;
  home_state_revision = none;
  away_state_revision = none;
  home_note = "";
  away_note = "";
}

team_action-Cause_example : scored_row.score_revision ≢ 3
unfolding load_snapshot classify_team_action still_editable
team_action-Cause_example =
    team_action-Cause (one_match scored_row) 7 scored_row snap_of_scored refl refl 3 home false refl

admin_accept-Cause_example :
    (same_side fresh_side (acted_side approved 0 home_player 4 "")
      && same_side fresh_side fresh_side)
    ≡ false
unfolding load_snapshot classify_admin_accept still_editable
admin_accept-Cause_example =
    admin_accept-Cause (one_match scored_row) 7 scored_row snap_of_scored refl refl 4
      (acted_side approved 0 home_player 4 "") fresh_side refl
