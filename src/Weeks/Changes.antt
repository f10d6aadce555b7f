-- ===== src/Weeks/Changes.antt =====
-- What closing and reopening a week leave in the database.
use league_app.Base.{
  ℕ, ◌+◌, ◌≡◌, if◌then◌else◌, Bool, true, false, not, ◌&&◌, ◌||◌, Option, none, some, List, ◌++◌,
  map, ◌==◌, is_set, length, keep_if, forall_in,
}
use league_app.Scoresheet.Spot.{Float}
use league_app.Weeks.Db.{WeekMatch, open_week, closed_week, AckRow, WeekDb}
use league_app.Weeks.Messages.{AckEntry}
use league_app.Weeks.Store.{in_week, set_week_closed, to_process, ack_row, status_of}

-- An acknowledgment without its time.
abbrev pub undated : AckRow → AckRow
undated a = record a { acknowledged_at = 0 }

abbrev pub is_processed : WeekMatch → Bool
is_processed m = is_set m.row.processed_at

-- Everything of a match but the two marks that a close sets.
abbrev pub unmarked : WeekMatch → WeekMatch
unmarked m = record m {
  row = record m.row { week_closed = false; processed_at = none; processed_by_user_id = none };
}

-- Completed and approved, and not yet processed.
abbrev pub is_due : WeekMatch → Bool
is_due m = m.row.completed && (is_set m.row.approved_at && not (is_set m.row.processed_at))

-- What a close at the time `now` by `user` makes of a match.
abbrev pub settled : ℕ → ℕ → Option ℕ → ℕ → WeekMatch → WeekMatch
settled season week user now m =
    if in_week season week m
    then if is_due m
      then record m {
        row = record m.row {
          week_closed = true;
          processed_at = some now;
          processed_by_user_id = user;
        };
      }
      else record m { row = record m.row { week_closed = true } }
    else m

module _ (float : Float) where
  -- The week is closed, with its matches; those that were approved are processed, by the user and at
  -- one time. All else is kept.
  pub record Closed (s : WeekDb float) (season week : ℕ) (acks : List AckEntry) (user : Option ℕ)
      (n : ℕ) (d : WeekDb float) : Type 0 where
    pub processed_when : ℕ
    pub rows : d.matches ≡ map (settled season week user processed_when) s.matches
    pub closed_row : status_of float (d.weeks season week) ≡ some closed_week
    pub other_rows : (a b : ℕ) → ((a == season) && (b == week)) ≡ false → d.weeks a b ≡ s.weeks a b
    pub all_closed :
        forall_in (λ m. not (in_week season week m) || m.row.week_closed) d.matches ≡ true
    pub all_processed :
        forall_in
          (λ m.
            not (in_week season week m && (m.row.completed && is_set m.row.approved_at))
            || is_processed m)
          d.matches
        ≡ true
    pub processed_rows :
        map is_processed d.matches ≡ map (λ m. is_processed m || to_process season week m) s.matches
    pub rest_kept :
        keep_if (λ m. not (in_week season week m)) d.matches
        ≡ keep_if (λ m. not (in_week season week m)) s.matches
    pub columns_kept : map unmarked d.matches ≡ map unmarked s.matches
    pub counted :
        length (keep_if is_processed d.matches) ≡ length (keep_if is_processed s.matches) + n
    pub logged : map undated d.acks ≡ map undated s.acks ++ map (ack_row season week 0) acks
    pub scores_kept : d.scores ≡ s.scores
    pub seasons_kept : d.seasons ≡ s.seasons
    pub players_kept : d.players ≡ s.players
    pub rules_kept : d.rules ≡ s.rules
    pub lineups_kept : d.lineups ≡ s.lineups

  -- The week is open again, with its matches. All else is kept, also what the close processed.
  pub record Reopened (s : WeekDb float) (season week : ℕ) (d : WeekDb float) : Type 0 where
    pub row :
        status_of float (s.weeks season week) ≡ some closed_week
        → status_of float (d.weeks season week) ≡ some open_week
    pub other_rows : (a b : ℕ) → ((a == season) && (b == week)) ≡ false → d.weeks a b ≡ s.weeks a b
    pub all_open :
        forall_in (λ m. not (in_week season week m) || not m.row.week_closed) d.matches ≡ true
    pub rest_kept :
        keep_if (λ m. not (in_week season week m)) d.matches
        ≡ keep_if (λ m. not (in_week season week m)) s.matches
    pub columns_kept : map (set_week_closed false) d.matches ≡ map (set_week_closed false) s.matches
    pub logged : d.acks ≡ s.acks
    pub scores_kept : d.scores ≡ s.scores
    pub seasons_kept : d.seasons ≡ s.seasons
    pub players_kept : d.players ≡ s.players
    pub rules_kept : d.rules ≡ s.rules
    pub lineups_kept : d.lineups ≡ s.lineups
