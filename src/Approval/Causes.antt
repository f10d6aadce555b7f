-- ===== src/Approval/Causes.antt =====
-- A guarded statement that wrote nothing reports a condition that really failed: the fallback at
-- the end of the `classify...Block` functions is never reached by the request that was blocked.
use league_app.Base.{
  ℕ, ◌≡◌, ◌≢◌, Bool, not, if◌then◌else◌, true, false, ◌&&◌, Option, some, is_set, arith,
}
use league_app.Effects.{
  Guard, guard_match_not_found, revision_stale, guard_not_scored, guard_season_closed,
  guard_week_closed, guard_processed, guard_admin_accepted, guard_invalid_transition,
  guard_team_state_changed,
}
use league_app.Approval.Db.{
  Db, MatchRow, Side, TeamSide, home, away, approved, side_of, season_is_open, still_editable,
}
use league_app.Approval.Guards.{
  Snapshot, load_snapshot, unless_revision, classify_score_edit, classify_team_action,
  classify_admin_accept,
}
use league_app.Approval.Store.{
  score_edit_guard, scored_guard, approved_guard, same_side, accept_guard,
}

-- The condition on the row `r` that each sentinel error names. `stale` says when the revision is
-- out of date, and `changed` when a pinned side is no longer as it was.
abbrev Cause : (stale changed wrong_state : Type 0) → Db → MatchRow → Guard → Type 0
Cause stale changed wrong_state d r revision_stale = stale
Cause stale changed wrong_state d r guard_season_closed =
    season_is_open (d.seasons r.season_id) ≡ false
Cause stale changed wrong_state d r guard_week_closed = r.week_closed ≡ true
Cause stale changed wrong_state d r guard_processed = is_set r.processed_at ≡ true
Cause stale changed wrong_state d r guard_admin_accepted = is_set r.approved_at ≡ true
Cause stale changed wrong_state d r guard_not_scored = r.completed ≡ false
Cause stale changed wrong_state d r guard_invalid_transition = wrong_state
Cause stale changed wrong_state d r guard_team_state_changed = changed
Cause stale changed wrong_state d r guard_match_not_found = ⊥

module _ (d : Db) (id : ℕ) (r : MatchRow) (snap : Snapshot) (found : d.matches id ≡ some r)
    (loaded : load_snapshot id d ≡ some snap) where
  score_edit-Cause :
      (expected : Option ℕ)
      → score_edit_guard expected d r ≡ false
      → Cause
          (unless_revision expected r.score_revision ≡ true)
          ⊥
          ⊥
          d
          r
          (classify_score_edit expected snap)
  unfolding load_snapshot classify_score_edit still_editable
  score_edit-Cause expected blocked = ground arith

  -- A team action that its guarded statement blocks reports a condition of the match that really
  -- holds: the revision is another one, the season or the week is closed, the match is processed or
  -- accepted, it has no scores (to approve or correct), or the side is not approved (to withdraw).
  pub team_action-Cause :
      (expected : ℕ) (side : TeamSide) (withdraw : Bool)
      → (if withdraw then approved_guard expected side d r else scored_guard expected d r) ≡ false
      → Cause
          (r.score_revision ≢ expected)
          ⊥
          ((withdraw ≡ true) × ((side_of side r).state ≢ approved))
          d
          r
          (classify_team_action expected side (not withdraw) withdraw snap)
  unfolding load_snapshot classify_team_action still_editable
  team_action-Cause expected side false blocked = ground arith
  team_action-Cause expected home true blocked = ground arith
  team_action-Cause expected away true blocked = ground arith

  -- An acceptance that its guarded statement blocks reports a condition of the match that really
  -- holds, `guard_team_state_changed` only where one side differs from the pinned one.
  pub admin_accept-Cause :
      (expected : ℕ) (pinned_home pinned_away : Side)
      → accept_guard expected pinned_home pinned_away d r ≡ false
      → Cause
          (r.score_revision ≢ expected)
          ((same_side r.home_side pinned_home && same_side r.away_side pinned_away) ≡ false)
          ⊥
          d
          r
          (classify_admin_accept expected pinned_home pinned_away snap)
  unfolding load_snapshot classify_admin_accept still_editable
  admin_accept-Cause expected pinned_home pinned_away blocked = ground arith steps 10000000
