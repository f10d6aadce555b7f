-- ===== src/Approval/OpenChecks.antt =====
-- `IsWeekClosed` and `IsSeasonClosedForMatch` of backend/storage/sqlite/round_store.go drop the
-- error of their query: what that does to the operations with no guard of their own.
use league_app.Base.{
  ℕ, String, ◌+◌, ◌≡◌, refl, Bool, true, false, Option, none, some, if◌then◌else◌,
}
use league_app.Effects.{ok, err, domain, week_closed, conflict, World, query, query_or, exec, ◌>>=◌}
use league_app.Approval.Db.{Db, MatchRow, put, update_where}
use league_app.Approval.Store
use league_app.Approval.Store.{
  get_match_approval_state, is_week_closed, is_season_closed_for_match, update_by_id, with_approval,
}
use league_app.Approval.Service.{approve_match, check_open}

-- `ApproveMatch` on a scored, unprocessed match of an open season whose week is closed, where every
-- query but the one for the week is answered: if that one is answered too the match stays as it was
-- and the error is WEEK_CLOSED, and if that one fails the match is approved.
pub approve_match-week_closed :
    (id : ℕ) (by : Option ℕ) (note : String) (w : World Db) (row : MatchRow) (week_fails : Bool)
    → w.db.matches id ≡ some row
    → row.completed ≡ true
    → row.processed_at ≡ none
    → row.week_closed ≡ true
    → w.db.seasons row.season_id ≡ some none
    → w.fails w.calls ≡ false
    → w.fails (w.calls + 1) ≡ false
    → w.fails (w.calls + 1 + 1) ≡ week_fails
    → w.fails (w.calls + 1 + 1 + 1) ≡ false
    → let (r, v) = approve_match id by note w in
      (r ≡ (if week_fails then ok tt else err (domain week_closed conflict)))
      × (v.db ≡ (if week_fails then put id (with_approval by note w.now row) w.db else w.db))
unfolding approve_match check_open get_match_approval_state is_week_closed
    is_season_closed_for_match update_by_id update_where Store.approve_match query query_or exec
    ◌>>=◌
approve_match-week_closed id by note w row true found scored unprocessed closed open_season f₀ f₁ f₂
      f₃ =
    simp (found, scored, unprocessed, closed, open_season, f₀, f₁, f₂, f₃) (refl, refl)
approve_match-week_closed id by note w row false found scored unprocessed closed open_season f₀ f₁
      f₂ f₃ =
    simp (found, scored, unprocessed, closed, open_season, f₀, f₁, f₂) (refl, refl)
