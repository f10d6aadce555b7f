-- ===== src/Weeks/Store.antt =====
-- backend/storage/sqlite/week_store.go: the statements of the week workflow.
use league_app.Base.{
  ℕ, Bool, true, false, not, ◌&&◌, ◌||◌, Option, none, some, List, [], ◌∷◌, ◌++◌, map, ◌==◌, ltb,
  is_set, length, keep_if, update_all, if◌then◌else◌,
}
use league_app.Effects.{infra, M, pure, ◌>>=◌, ◌>>◌, query, exec, run_tx, require}
use league_app.Scoresheet.Spot.{Float}
use league_app.Weeks.Db.{
  WeekMatch, SeasonRow, WeekStatus, open_week, closed_week, LeagueWeek, AckRow, ScoreRow, WeekDb,
}
use league_app.Weeks.Messages.{AckEntry}
use league_app.Weeks.Validate.{RoundValidationRow, MatchValidationRow}
use league_app.Weeks.Config.{Strconv}

-- `WHERE season_id=? AND week_number=?`
abbrev pub in_week : ℕ → ℕ → WeekMatch → Bool
in_week season week m = (m.row.season_id == season) && (m.week_number == week)

abbrev pub set_week_closed : Bool → WeekMatch → WeekMatch
set_week_closed b m = record m { row = record m.row { week_closed = b } }

-- Approved, completed and not yet processed.
abbrev pub to_process : ℕ → ℕ → WeekMatch → Bool
to_process season week m =
    in_week season week m
    && (m.row.completed && (is_set m.row.approved_at && not (is_set m.row.processed_at)))

abbrev pub processed : Option ℕ → ℕ → WeekMatch → WeekMatch
processed user now m = record m {
  row = record m.row { processed_at = some now; processed_by_user_id = user };
}

abbrev pub set_week :
    ℕ → ℕ → Option LeagueWeek → (ℕ → ℕ → Option LeagueWeek) → ℕ → ℕ → Option LeagueWeek
set_week season week row weeks s w = if (s == season) && (w == week) then row else weeks s w

-- `MatchID` 0 is stored as NULL.
abbrev null_if_zero : ℕ → Option ℕ
null_if_zero id = if id == 0 then none else some id

abbrev pub ack_row : ℕ → ℕ → ℕ → AckEntry → AckRow
ack_row season week now a = record {
  season_id = season;
  week_number = week;
  match_id = null_if_zero a.match_id;
  warning_code = a.warning_code;
  field = a.field;
  notes = a.notes;
  acknowledged_at = now;
}

module _ (float : Float) where
  open float use {F}

  unfoldable pub week_match_count : ℕ → ℕ → M (WeekDb float) ℕ
  week_match_count season week = query (λ d. length (keep_if (in_week season week) d.matches))

  abbrev pub status_of : Option LeagueWeek → Option WeekStatus
  status_of none = none
  status_of (some w) = some w.status

  -- `none` is the text "", where there is no row.
  unfoldable pub get_week_status : ℕ → ℕ → M (WeekDb float) (Option WeekStatus)
  get_week_status season week = query (λ d. status_of (d.weeks season week))

  abbrev pub draft_season : Option SeasonRow → Bool
  draft_season none = false
  draft_season (some s) = not s.active && not (is_set s.activated_at)

  unfoldable pub is_season_draft : ℕ → M (WeekDb float) Bool
  is_season_draft season = query (λ d. draft_season (d.seasons season))

  -- A season without a row is an error (`sql.ErrNoRows`).
  unfoldable pub is_season_closed : ℕ → M (WeekDb float) Bool
  is_season_closed season = do
    found ← query (λ d. d.seasons season)
    s ← require found infra
    pure (is_set s.closed_at)

  abbrev pub upsert_week : ℕ → ℕ → ℕ → WeekDb float → WeekDb float
  upsert_week season week now d = record d {
    weeks =
        set_week season week (some (record { status = closed_week; closed_at = some now })) d.weeks;
  }

  abbrev pub close_matches : ℕ → ℕ → WeekDb float → WeekDb float
  close_matches season week d = record d {
    matches = update_all (in_week season week) (set_week_closed true) d.matches;
  }

  abbrev pub process_matches : ℕ → ℕ → Option ℕ → ℕ → WeekDb float → WeekDb float
  process_matches season week user now d = record d {
    matches = update_all (to_process season week) (processed user now) d.matches;
  }

  unfoldable pub insert_acks : ℕ → ℕ → List AckEntry → M (WeekDb float) (Unit {0})
  insert_acks season week [] = pure tt
  insert_acks season week (a ∷ rest) = do
    exec (λ now d. (tt, record d { acks = d.acks ++ ack_row season week now a ∷ [] }))
    insert_acks season week rest

  -- The number of matches that it processed.
  unfoldable pub close_week : ℕ → ℕ → List AckEntry → Option ℕ → M (WeekDb float) ℕ
  close_week season week acks user = run_tx (do
    exec (λ now d. (tt, upsert_week season week now d))
    exec (λ now d. (tt, close_matches season week d))
    n ← exec (λ now d. (
      length (keep_if (to_process season week) d.matches),
      process_matches season week user now d,
    ))
    insert_acks season week acks
    pure n)

  abbrev pub reopened : Option LeagueWeek → Option LeagueWeek
  reopened none = none
  reopened (some w) = some (record { status = open_week; closed_at = none })

  abbrev pub reopen_row : ℕ → ℕ → WeekDb float → WeekDb float
  reopen_row season week d = record d {
    weeks = set_week season week (reopened (d.weeks season week)) d.weeks;
  }

  abbrev pub open_matches : ℕ → ℕ → WeekDb float → WeekDb float
  open_matches season week d = record d {
    matches = update_all (in_week season week) (set_week_closed false) d.matches;
  }

  unfoldable pub reopen_week : ℕ → ℕ → M (WeekDb float) (Unit {0})
  reopen_week season week = run_tx (do
    exec (λ now d. (tt, reopen_row season week d))
    exec (λ now d. (tt, open_matches season week d)))

module _ (float : Float) (strconv : Strconv float) where
  open float use {F}
  open strconv use {float_zero}

  abbrev or_zero : Option (Option F) → F
  or_zero none = float_zero
  or_zero (some none) = float_zero
  or_zero (some (some x)) = x

  -- `COALESCE(rr.home_handicap_used, hp.handicap, 0)`
  abbrev pub used_or_current : Option F → Option (Option F) → F
  used_or_current none player = or_zero player
  used_or_current (some x) player = x

  abbrev pub validation_row : WeekDb float → ScoreRow float → RoundValidationRow float
  validation_row d r = record {
    result = record {
      round_number = r.round_number;
      home_player_id = r.home_player_id;
      away_player_id = r.away_player_id;
      game1 = r.game1;
      game2 = r.game2;
      game3 = r.game3;
    };
    hc = record {
      home_hc = used_or_current r.home_handicap_used (d.players r.home_player_id);
      away_hc = used_or_current r.away_handicap_used (d.players r.away_player_id);
    };
  }

  -- `ORDER BY rr.round_number, rr.home_player_id`, which is a key of a match's rows.
  abbrev comes_before : ScoreRow float → ScoreRow float → Bool
  comes_before a b =
      ltb a.round_number b.round_number
      || ((a.round_number == b.round_number) && ltb a.home_player_id b.home_player_id)

  abbrev insert_row : ScoreRow float → List (ScoreRow float) → List (ScoreRow float)
  insert_row a [] = a ∷ []
  insert_row a (b ∷ bs) =
      let rest = insert_row a bs in if comes_before b a then b ∷ rest else a ∷ (b ∷ bs)

  abbrev in_order : List (ScoreRow float) → List (ScoreRow float)
  in_order [] = []
  in_order (a ∷ rest) = insert_row a (in_order rest)

  abbrev pub rounds_of : ℕ → WeekDb float → List (RoundValidationRow float)
  rounds_of id d = map (validation_row d) (in_order (keep_if (λ r. r.match_id == id) d.scores))

  abbrev pub match_validation_row :
      WeekMatch → List (RoundValidationRow float) → MatchValidationRow float
  match_validation_row m rounds = record {
    match_id = m.id;
    home_team_id = m.row.home_team_id;
    away_team_id = m.row.away_team_id;
    rounds = rounds;
  }

  -- One query for each match.
  unfoldable pub load_matches : List WeekMatch → M (WeekDb float) (List (MatchValidationRow float))
  load_matches [] = pure []
  load_matches (m ∷ ms) = do
    rounds ← query (rounds_of m.id)
    rest ← load_matches ms
    pure (match_validation_row m rounds ∷ rest)

  unfoldable pub get_week_validation_data :
      ℕ → ℕ → M (WeekDb float) (List (MatchValidationRow float))
  get_week_validation_data season week = do
    ms ← query (λ d. keep_if (in_week season week) d.matches)
    load_matches ms
