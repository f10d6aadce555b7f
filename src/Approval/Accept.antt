-- ===== src/Approval/Accept.antt =====
-- The administrator's operations of approval_service.go: what each requires and what it writes.
use league_app.Base.{
  ℕ, String, ◌≡◌, refl, sym, ◌∙◌, ap, subst, of_some, Bool, true, false, not, ◌&&◌, Option, none,
  some, is_set, arith, [], ◌∷◌, ◌++◌,
}
use league_app.Effects.{Result, ◌>>◌, run_tx, map_err}
use league_app.Effects.Logic.{
  Ends, Either, Ends-exec_last, Ends-bind, Ends-fail_if, Ends-run_tx, Ends-map_err,
}
use league_app.Approval.Db.{Db, MatchRow, Event, match_scope, put, update_where, update_found}
use league_app.Approval.Guards.{map_admin_accept_guard}
use league_app.Approval.Store
use league_app.Approval.Store.{
  update_by_id, state_of, accept_guard, with_approval, guarded_admin_accept,
  record_admin_acceptance_event, insert_event,
}
use league_app.Approval.Service.{
  side_approved_at_revision, accept_event, admin_accept_match, approve_match, process_match,
  unapprove_match, unprocess_match,
}
use league_app.Approval.Rules.{guarded_update_last, get_state_rule, check_open_rule}

-- One row that met `cond` was rewritten by `f`, and nothing else.
pub record Changed (s : Db) (id : ℕ) (cond : MatchRow → Bool) (f : ℕ → MatchRow → MatchRow) (d : Db)
    : Type 0 where
  pub row : MatchRow
  pub now : ℕ
  pub found : s.matches id ≡ some row
  pub allowed : cond row ≡ true
  pub written : d ≡ put id (f now row) s

abbrev pub Changes :
    Db → ℕ → (MatchRow → Bool) → (ℕ → MatchRow → MatchRow) → Result (Unit {0}) → Db → Type 0
Changes s id cond f r d = Either r (λ _. Changed s id cond f d) (λ _. d ≡ s)

change_rule :
    {s : Db} (id : ℕ) (cond : MatchRow → Bool) (f : ℕ → MatchRow → MatchRow) (r : MatchRow)
    → s.matches id ≡ some r
    → cond r ≡ true
    → Ends s (update_by_id id f) (Changes s id cond f)
unfolding update_by_id update_where
change_rule {s} id cond f r found allowed = Ends-exec_last _ refl λ now.
    subst (λ o. Changed s id cond f (update_found o id (λ _. true) (f now) s).1) (sym found)
      (record { row = r; now = now; found = found; allowed = allowed; written = refl })

abbrev pub approvable : MatchRow → Bool
approvable r = r.completed && not (is_set r.processed_at)

pub approve_match_rule :
    (s : Db) (id : ℕ) (by : Option ℕ) (note : String)
    → Ends s (approve_match id by note) (Changes s id approvable (with_approval by note))
unfolding approve_match Store.approve_match
approve_match_rule s id by note =
    get_state_rule (λ _. refl) id _ _
      λ r found.
        check_open_rule (λ _. refl) id _
          (Ends-fail_if _ _ _ (λ _. refl)
            λ scored.
              Ends-fail_if _ _ _ (λ _. refl)
                λ unprocessed. change_rule id approvable _ r found (ground arith))

abbrev pub with_processing : Option ℕ → ℕ → MatchRow → MatchRow
with_processing by now r = record r { processed_at = some now; processed_by_user_id = by }

pub process_match_rule :
    (s : Db) (id : ℕ) (by : Option ℕ)
    → Ends s (process_match id by) (Changes s id (λ r. is_set r.approved_at) (with_processing by))
unfolding process_match Store.process_match
process_match_rule s id by =
    get_state_rule (λ _. refl) id _ _
      λ r found.
        check_open_rule (λ _. refl) id _
          (Ends-fail_if _ _ _ (λ _. refl)
            λ accepted. change_rule id (λ r. is_set r.approved_at) _ r found (ground arith))

abbrev pub without_approval : ℕ → MatchRow → MatchRow
without_approval now r = record r {
  approved_at = none;
  approved_by_user_id = none;
  approval_note = "";
}

pub unapprove_match_rule :
    (s : Db) (id : ℕ)
    → Ends s (unapprove_match id) (Changes s id (λ r. not (is_set r.processed_at)) without_approval)
unfolding unapprove_match Store.unapprove_match
unapprove_match_rule s id =
    get_state_rule (λ _. refl) id _ _
      λ r found.
        check_open_rule (λ _. refl) id _
          (Ends-fail_if _ _ _ (λ _. refl)
            λ unprocessed.
              change_rule id (λ r. not (is_set r.processed_at)) _ r found (ground arith))

abbrev pub without_processing : ℕ → MatchRow → MatchRow
without_processing now r = record r { processed_at = none; processed_by_user_id = none }

pub unprocess_match_rule :
    (s : Db) (id : ℕ) → Ends s (unprocess_match id) (Changes s id (λ _. true) without_processing)
unfolding unprocess_match Store.unprocess_match
unprocess_match_rule s id =
    get_state_rule (λ _. refl) id _ _
      λ r found. check_open_rule (λ _. refl) id _ (change_rule id (λ _. true) _ r found refl)

-- Both sides have approved the scores of the revision `expected`.
abbrev pub both_at : ℕ → MatchRow → Bool
both_at expected r =
    side_approved_at_revision r.home_side expected && side_approved_at_revision r.away_side expected

abbrev pub acceptance_event : ℕ → Option ℕ → String → ℕ → MatchRow → Event
acceptance_event id by note expected r = record {
  match_id = id;
  event_scope = match_scope;
  event_type = accept_event (both_at expected r);
  score_revision = expected;
  actor_user_id = by;
  actor_player_id = none;
  actor_name_snapshot = "";
  note = note;
  snapshot = some (record {
    home_state = r.home_side.state;
    home_note = r.home_side.correction_note;
    away_state = r.away_side.state;
    away_note = r.away_side.correction_note;
  });
}

-- An accepted match: the row met every guard, the teams agreed or were overridden, and the event
-- says which, with the sides as they stood.
pub record Accepts (s : Db) (id : ℕ) (by : Option ℕ) (note : String) (override : Bool)
    (expected : ℕ) (d : Db) : Type 0 where
  pub row : MatchRow
  pub now : ℕ
  pub found : s.matches id ≡ some row
  pub allowed : accept_guard expected row.home_side row.away_side s row ≡ true
  pub agreed_or_forced : (not (both_at expected row) && not override) ≡ false
  pub written : d ≡ record (put id (with_approval by note now row) s) {
    events = s.events ++ acceptance_event id by note expected row ∷ [];
  }

pub admin_accept_match_rule :
    (s : Db) (id : ℕ) (by : Option ℕ) (note : String) (override : Bool) (expected : ℕ)
    → Ends s
        (admin_accept_match id by note override expected)
        (λ r d. Either r (λ _. Accepts s id by note override expected d) (λ _. d ≡ s))
unfolding admin_accept_match guarded_admin_accept record_admin_acceptance_event insert_event
admin_accept_match_rule s id by note override expected =
    get_state_rule (λ _. refl) id _ _
      λ r found.
        Ends-fail_if _ _ _ (λ _. refl)
          λ fresh.
            check_open_rule (λ _. refl) id _
              (Ends-fail_if _ _ _ (λ _. refl)
                λ scored.
                  Ends-fail_if _ _ _ (λ _. refl)
                    λ unprocessed.
                      Ends-fail_if _ _ _ (λ _. refl)
                        λ unaccepted.
                          Ends-fail_if _ _ _ (λ _. refl) λ agreed. accept r found agreed)
  where
    Kept : Result (Unit {0}) → Db → Type 0
    Kept q d = Either q (λ _. Accepts s id by note override expected d) (λ _. s ≡ s)

    pack :
        (r : MatchRow) (now : ℕ) {r' : MatchRow}
        → (not (both_at expected r) && not override) ≡ false
        → s.matches id ≡ some r
        → r' ≡ r
        → accept_guard expected r.home_side r.away_side s r' ≡ true
        → Accepts s id by note override expected (record (put id (with_approval by note now r') s) {
          events = s.events ++ acceptance_event id by note expected r ∷ [];
        })
    pack r now agreed found same allowed = record {
      row = r;
      now = now;
      found = found;
      allowed = subst (λ x. accept_guard expected r.home_side r.away_side s x ≡ true) same allowed;
      agreed_or_forced = agreed;
      written =
          ap
            (λ x. record (put id (with_approval by note now x) s) {
              events = s.events ++ acceptance_event id by note expected r ∷ [];
            })
            same;
    }

    accept :
        (r : MatchRow)
        → s.matches id ≡ some r
        → (not (both_at expected r) && not override) ≡ false
        → Ends s
            (run_tx (do
              map_err map_admin_accept_guard
                  (guarded_admin_accept id expected r.home_side r.away_side by note)
              record_admin_acceptance_event id
                  (accept_event (both_at expected r))
                  by
                  note
                  expected
                  r.home_side
                  r.away_side))
            (λ q d. Either q (λ _. Accepts s id by note override expected d) (λ _. d ≡ s))
    accept r found agreed = Ends-run_tx _ refl (
        Ends-bind {P = Kept} _ _ (
          Ends-map_err _ _ (
            guarded_update_last id _ _ _ refl (λ _. refl)
              λ r' now found' allowed.
                Ends-exec_last {P = Kept} _ refl
                  λ _. pack r now agreed found (of_some (sym found' ∙ found)) allowed)))
