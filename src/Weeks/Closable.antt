-- ===== src/Weeks/Closable.antt =====
-- A week that can be closed is closed.
use league_app.Base.{
  ℕ, ◌≡◌, refl, ap, ◌∙◌, true, false, some, List, [], ◌∷◌, map, is_set, keep_if, forall_in, arith,
}
use league_app.Effects.{domain, season_closed, conflict, World}
use league_app.Effects.Runs.{
  NeverFails, Reached, Runs, Runs-pure, Runs-query, Runs-exec, Runs-fail_if, Runs-require,
  Runs-if_true, Runs-if_false, Runs-run_tx, Runs-bind, Runs-read,
}
use league_app.Scoresheet.Spot.{Float}
use league_app.Scoresheet.Rounds.{RoundConfig}
use league_app.Weeks.Db.{WeekMatch, SeasonRow, WeekDb}
use league_app.Weeks.Messages.{WeekMessage, AckEntry, has_week_errors, week_warnings}
use league_app.Weeks.Validate.{validate_week_data}
use league_app.Weeks.Config.{Strconv, resolve_round_config}
use league_app.Weeks.Store.{
  in_week, draft_season, is_season_draft, is_season_closed, insert_acks, rounds_of, load_matches,
  get_week_validation_data,
}
use league_app.Weeks.Store
use league_app.Weeks.Service.{
  CloseWeekRequest, CloseWeekReply, week_done, notes_for, is_unacked, none_left, write_close,
  close_validated, close_week,
}
use league_app.Weeks.Loading.{Configured, loaded, week_rows}
use league_app.Weeks.Ready.{AllReady, validate_week_data-errors}

none_are_left :
    (acks : List AckEntry) (ms : List WeekMessage)
    → forall_in (λ msg. is_set (notes_for msg acks)) ms ≡ true
    → none_left (keep_if (is_unacked acks) ms) ≡ true
none_are_left acks [] h = refl
none_are_left acks (m ∷ ms) h = let ih = none_are_left acks ms in ground arith

module _ (float : Float) (strconv : Strconv float) where
  load_runs :
      (s : WeekDb float) (ms : List WeekMatch)
      → Runs s
          (load_matches float strconv ms)
          (λ rows d. (d ≡ s) × (rows ≡ map (loaded float strconv s) ms))
  unfolding load_matches
  load_runs s [] = Runs-pure (refl, refl)
  load_runs s (m ∷ ms) = Runs-query (rounds_of float strconv m.id) _ (
      Runs-bind _ _ _ (load_runs s ms)
        (λ rows d h. Runs-pure (h.0, ap (λ x. loaded float strconv s m ∷ x) h.1)))

  insert_runs :
      (season week : ℕ) (acks : List AckEntry) (s : WeekDb float)
      → Runs s (insert_acks float season week acks) (λ u d. Unit {0})
  unfolding insert_acks
  insert_runs season week [] s = Runs-pure tt
  insert_runs season week (a ∷ acks) s = Runs-exec _ _ (λ now. insert_runs season week acks _)

  abbrev pub IsDone : CloseWeekReply → Type 0
  IsDone (week_done r) = Unit
  IsDone _ = ⊥

  write_runs :
      (s : WeekDb float) (req : CloseWeekRequest) (warnings : List WeekMessage)
      → Runs s (write_close float strconv req warnings) (λ r d. IsDone r)
  unfolding Store.close_week
  write_runs s req warnings =
      Runs-bind (λ n d. Unit) _ _
        (Runs-run_tx _ (
          Runs-exec _ _ λ t1. Runs-exec _ _ λ t2.
            Runs-exec _ _
              λ t3. Runs-bind (λ u d. Unit) _ _ (insert_runs _ _ _ _) (λ u d h. Runs-pure tt)))
        (λ n d h. Runs-pure tt)

  validated_runs :
      (s : WeekDb float) (req : CloseWeekRequest) (messages : List WeekMessage)
      → has_week_errors messages ≡ false
      → forall_in (λ msg. is_set (notes_for msg req.acknowledgments)) (week_warnings messages)
        ≡ true
      → Runs s (close_validated float strconv req messages) (λ r d. IsDone r)
  unfolding close_validated
  validated_runs s req messages clean acked = Runs-if_false (has_week_errors messages) _ _ clean (
      Runs-if_true (none_left (keep_if (is_unacked req.acknowledgments) (week_warnings messages))) _
        _ (none_are_left req.acknowledgments (week_warnings messages) acked)
        (write_runs s req (week_warnings messages)))

  close_week_runs :
      (s : WeekDb float) (req : CloseWeekRequest) (season : SeasonRow) (cfg : RoundConfig float)
      → s.seasons req.season_id ≡ some season
      → is_set season.closed_at ≡ false
      → draft_season float (some season) ≡ false
      → Configured float strconv s req.season_id cfg
      → has_week_errors
          (validate_week_data float (week_rows float strconv req.season_id req.week_number s) cfg)
        ≡ false
      → forall_in
          (λ msg. is_set (notes_for msg req.acknowledgments))
          (week_warnings (
            validate_week_data float (week_rows float strconv req.season_id req.week_number s) cfg))
        ≡ true
      → Runs s (close_week float strconv req) (λ r d. IsDone r)
  unfolding close_week is_season_closed is_season_draft resolve_round_config
      get_week_validation_data
  close_week_runs s req season cfg found season_open not_draft configured clean acked =
      Runs-read false _ _
        (Runs-query _ _ (Runs-require _ _ _ season found (Runs-pure (refl, season_open))))
        (Runs-fail_if false (domain season_closed conflict) _ refl (
          Runs-query _ _ (
            Runs-fail_if _ _ _ (ap (draft_season float) found ∙ not_draft) (
              Runs-read cfg _ _
                (Runs-query _ _ (
                  Runs-require _ _ _ cfg.multiplier configured.multiplier (
                    Runs-query _ _ (
                      Runs-require _ _ _ cfg.min_ball_hc configured.min_ball
                        (Runs-pure (refl, refl))))))
                (Runs-read (week_rows float strconv req.season_id req.week_number s) _ _
                  (Runs-query _ _
                    (load_runs s (keep_if (in_week req.season_id req.week_number) s.matches)))
                  (validated_runs s req _ clean acked))))))

  -- A week can be closed: the season is open and no draft and its rules can be read, each match of
  -- the week is ready, and the request acknowledges each warning. Then, if no call of the driver
  -- fails, the close succeeds.
  pub close_week-IsDone :
      (req : CloseWeekRequest) (season : SeasonRow) (cfg : RoundConfig float)
      (w : World (WeekDb float))
      → NeverFails w
      → w.db.seasons req.season_id ≡ some season
      → is_set season.closed_at ≡ false
      → draft_season float (some season) ≡ false
      → Configured float strconv w.db req.season_id cfg
      → AllReady float cfg (week_rows float strconv req.season_id req.week_number w.db)
      → forall_in
          (λ msg. is_set (notes_for msg req.acknowledgments))
          (week_warnings (
            validate_week_data float
              (week_rows float strconv req.season_id req.week_number w.db)
              cfg))
        ≡ true
      → Reached (λ r d. IsDone r) (close_week float strconv req w)
  close_week-IsDone req season cfg w calm found season_open not_draft configured ready acked =
      (close_week_runs w.db req season cfg found season_open not_draft configured
          ((validate_week_data-errors float cfg
              (week_rows float strconv req.season_id req.week_number w.db)).1
            ready)
          acked).reach
        w refl calm
