-- ===== src/Weeks/Closing.antt =====
-- What closing and reopening a week do.
use league_app.Base.{
  ℕ, ◌≡◌, refl, subst, true, false, not, Option, none, some, List, [], ◌∷◌, map, ◌==◌, is_set,
  length, keep_if, forall_in, arith,
}
use league_app.Effects.{Result, ok, err, World, pure}
use league_app.Effects.Logic.{
  Ends, Ends-pure, Ends-query, Ends-fail_if, Ends-bind, Ends-if, Ends-mono,
}
use league_app.Scoresheet.Spot.{Float}
use league_app.Scoresheet.Rounds.{RoundConfig}
use league_app.Weeks.Db.{SeasonRow, WeekStatus, open_week, closed_week, WeekDb}
use league_app.Weeks.Messages.{WeekMessage, AckEntry, has_week_errors, week_warnings}
use league_app.Weeks.Validate.{validate_week_data}
use league_app.Weeks.Config.{Strconv}
use league_app.Weeks.Store.{
  in_week, draft_season, is_season_draft, week_match_count, get_week_status, status_of,
}
use league_app.Weeks.Service.{
  CloseWeekRequest, CloseWeekResult, CloseWeekReply, week_done, week_blocked, notes_for, is_unacked,
  as_error, ack_to_write, none_left, is_closed_status, write_close, close_without_errors,
  close_validated, close_week, reopen_week,
}
use league_app.Weeks.Loading.{Configured, week_rows, config_rule, data_rule, season_closed_rule}
use league_app.Weeks.Changes.{Closed, Reopened}
use league_app.Weeks.Commit.{close_rule, reopen_rule}

none_unacked :
    (acks : List AckEntry) (ms : List WeekMessage)
    → none_left (keep_if (is_unacked acks) ms) ≡ true
    → forall_in (λ msg. is_set (notes_for msg acks)) ms ≡ true
none_unacked acks [] h = refl
none_unacked acks (m ∷ ms) h = let ih = none_unacked acks ms in ground arith

blocked_errors :
    (ms : List WeekMessage) → none_left ms ≡ false → has_week_errors (map as_error ms) ≡ true
blocked_errors [] h = cc
blocked_errors (m ∷ ms) h = refl

module _ (float : Float) (strconv : Strconv float) where
  -- What the service promises where it closes the week: the season was open and active, the
  -- validation of the week as it was found has no error, each of its warnings is acknowledged in the
  -- request, and the database is the one before but for the close.
  pub record Done (s : WeekDb float) (req : CloseWeekRequest) (reply : CloseWeekResult)
      (d : WeekDb float) : Type 0 where
    pub season : SeasonRow
    pub found : s.seasons req.season_id ≡ some season
    pub season_open : is_set season.closed_at ≡ false
    pub not_draft : draft_season float (some season) ≡ false
    pub cfg : RoundConfig float
    pub configured : Configured float strconv s req.season_id cfg
    pub messages : List WeekMessage
    pub validated :
        messages
        ≡ validate_week_data float (week_rows float strconv req.season_id req.week_number s) cfg
    pub no_error : has_week_errors messages ≡ false
    pub acknowledged :
        forall_in (λ msg. is_set (notes_for msg req.acknowledgments)) (week_warnings messages)
        ≡ true
    pub ack_count : reply.ack_count ≡ length (week_warnings messages)
    pub closed :
        Closed float s req.season_id req.week_number
          (map (ack_to_write req.acknowledgments) (week_warnings messages))
          req.processed_by_user_id
          reply.processed_count
          d

  abbrev pub CloseOutcome :
      WeekDb float → CloseWeekRequest → Result CloseWeekReply → WeekDb float → Type 0
  CloseOutcome s req (ok (week_done reply)) d = Done s req reply d
  CloseOutcome s req (ok (week_blocked ms)) d = (d ≡ s) × (has_week_errors ms ≡ true)
  CloseOutcome s req (err e) d = d ≡ s

  module _ (s : WeekDb float) (req : CloseWeekRequest) (season : SeasonRow)
      (found : s.seasons req.season_id ≡ some season)
      (season_open : is_set season.closed_at ≡ false)
      (not_draft : draft_season float (some season) ≡ false) (cfg : RoundConfig float)
      (configured : Configured float strconv s req.season_id cfg) where
    abbrev found_messages : List WeekMessage
    found_messages =
        validate_week_data float (week_rows float strconv req.season_id req.week_number s) cfg

    write_rule :
        has_week_errors found_messages ≡ false
        → none_left (keep_if (is_unacked req.acknowledgments) (week_warnings found_messages)) ≡ true
        → Ends s (write_close float strconv req (week_warnings found_messages)) (CloseOutcome s req)
    write_rule clean acked = Ends-bind _ _ (
        Ends-mono (close_rule float s req.season_id req.week_number _ req.processed_by_user_id)
          (elim [
            | ok n ↦ λ d h. Ends-pure (record {
              season = season;
              found = found;
              season_open = season_open;
              not_draft = not_draft;
              cfg = cfg;
              configured = configured;
              messages = found_messages;
              validated = refl;
              no_error = clean;
              acknowledged = none_unacked req.acknowledgments (week_warnings found_messages) acked;
              ack_count = refl;
              closed = h;
            })
            | err e ↦ λ d h. h
          ]))

    validated_rule : Ends s (close_validated float strconv req found_messages) (CloseOutcome s req)
    unfolding close_validated
    validated_rule =
        Ends-if (has_week_errors found_messages) (pure (week_blocked found_messages))
          (close_without_errors float strconv req (week_warnings found_messages))
          (λ bad. Ends-pure (refl, bad))
          λ clean.
            Ends-if
              (none_left (keep_if (is_unacked req.acknowledgments) (week_warnings found_messages)))
              (write_close float strconv req (week_warnings found_messages))
              (pure (
                week_blocked (
                  map as_error
                    (keep_if (is_unacked req.acknowledgments) (week_warnings found_messages)))))
              (λ acked. write_rule clean acked)
              (λ some_left. Ends-pure (refl, blocked_errors _ some_left))

  close_week_rule :
      (s : WeekDb float) (req : CloseWeekRequest)
      → Ends s (close_week float strconv req) (CloseOutcome s req)
  unfolding close_week is_season_draft
  close_week_rule s req = season_closed_rule float strconv req.season_id _ refl λ season found.
      Ends-fail_if _ _ _ (λ _. refl)
        λ season_open. Ends-query _ _ refl (
          Ends-fail_if _ _ _ (λ _. refl)
            λ not_draft. config_rule float strconv req.season_id _ refl λ cfg configured.
              data_rule float strconv req.season_id req.week_number _ refl (
                validated_rule s req season found season_open
                  (subst (λ o. draft_season float o ≡ false) found not_draft) cfg configured))

  pub close_week_outcome :
      (req : CloseWeekRequest) (w : World (WeekDb float))
      → CloseOutcome w.db req
          (close_week float strconv req w).0
          (close_week float strconv req w).1.db
  close_week_outcome req w = (close_week_rule w.db req).run w refl

  -- What reopening promises where it succeeds: the season was open, the week has matches and was
  -- closed.
  pub record Undone (s : WeekDb float) (season week : ℕ) (d : WeekDb float) : Type 0 where
    pub season_row : SeasonRow
    pub found : s.seasons season ≡ some season_row
    pub season_open : is_set season_row.closed_at ≡ false
    pub has_matches : (length (keep_if (in_week season week) s.matches) == 0) ≡ false
    pub was_closed : status_of float (s.weeks season week) ≡ some closed_week
    pub reopened : Reopened float s season week d

  abbrev pub ReopenOutcome : WeekDb float → ℕ → ℕ → Result (Unit {0}) → WeekDb float → Type 0
  ReopenOutcome s season week (ok u) d = Undone s season week d
  ReopenOutcome s season week (err e) d = d ≡ s

  closed_status : (o : Option WeekStatus) → not (is_closed_status o) ≡ false → o ≡ some closed_week
  closed_status none h = cc
  closed_status (some open_week) h = cc
  closed_status (some closed_week) h = refl

  reopen_week_rule :
      (s : WeekDb float) (season week : ℕ)
      → Ends s (reopen_week float strconv season week) (ReopenOutcome s season week)
  unfolding reopen_week week_match_count get_week_status
  reopen_week_rule s season week = season_closed_rule float strconv season _ refl λ row found.
      Ends-fail_if _ _ _ (λ _. refl)
        λ season_open. Ends-query _ _ refl (
          Ends-fail_if _ _ _ (λ _. refl)
            λ has_matches. Ends-query _ _ refl (
              Ends-fail_if _ _ _ (λ _. refl)
                λ was_closed. Ends-mono (reopen_rule float s season week) (elim [
                  | ok u ↦ λ d h. record {
                    season_row = row;
                    found = found;
                    season_open = season_open;
                    has_matches = has_matches;
                    was_closed = closed_status (status_of float (s.weeks season week)) was_closed;
                    reopened = h;
                  }
                  | err e ↦ λ d h. h
                ])))

  -- Reopening a week, whichever calls of the driver fail. Where it succeeds, the season was open and
  -- the week had matches and was closed; now the week and its matches are open. All else is kept: the
  -- other weeks and matches, the other columns of its matches, also what the close processed, and the
  -- acknowledgments, scores, seasons, players, rules and lineups. On every error the database is as it
  -- was.
  pub reopen_week_outcome :
      (season week : ℕ) (w : World (WeekDb float))
      → ReopenOutcome w.db season week
          (reopen_week float strconv season week w).0
          (reopen_week float strconv season week w).1.db
  reopen_week_outcome season week w = (reopen_week_rule w.db season week).run w refl
