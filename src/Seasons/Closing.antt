-- ===== src/Seasons/Closing.antt =====
-- What closing and reopening a season do.
use league_app.Base.{
  ℕ, ◌≡◌, refl, ◌⊎◌, inl, inr, Bool, true, false, not, Bool-cases, some, List, [], ◌∷◌, ◌==◌,
  is_set, forall_in, if◌then◌else◌, arith,
}
use league_app.Effects.{Err, Result, ok, err, World, pure, throw}
use league_app.Effects.Logic.{
  Ends, Ends-pure, Ends-throw, Ends-require_last, Ends-query, Ends-exec, Ends-fail_if, Ends-clock,
  Ends-bind, Ends-if,
}
use league_app.Standings.Table.{Standing}
use league_app.Seasons.Close.{
  SnapshotPayload, ClosableSeason, SeasonDb, WeekSummary, SeasonCloseState, get_season, match_count,
  get_match_count, get_season_missing_count, closed_row, update_row, close_season_record, unclosed,
  no_weeks, checked, compute_scheduled, compute_open, compute_close, commit_close, close_season,
}

-- The season can be closed: it was activated, is not closed, has matches, and all its weeks are
-- closed.
pub record MayClose (s : SeasonDb) (id : ℕ) (weeks : List WeekSummary) (row : ClosableSeason)
    : Type 0 where
  pub found : s.seasons id ≡ some row
  pub activated : is_set row.activated_at ≡ true
  pub not_closed : is_set row.closed_at ≡ false
  pub has_matches : (match_count id s == 0) ≡ false
  pub weeks_closed : forall_in (λ w. w.is_closed) weeks ≡ true

-- The row after a close at some time: closed, inactive, with the standings kept.
pub record IsClosed (s : SeasonDb) (id : ℕ) (standings : List Standing) (row : ClosableSeason)
    (d : SeasonDb) : Type 0 where
  pub after : ClosableSeason
  pub stored : d.seasons id ≡ some after
  pub closed : is_set after.closed_at ≡ true
  pub inactive : after.active ≡ false
  pub activation_kept : after.activated_at ≡ row.activated_at
  pub snapshot : SnapshotPayload
  pub kept : after.final_standings_snapshot ≡ some snapshot
  pub final : snapshot.standings ≡ standings
  pub others : (j : ℕ) → (j == id) ≡ false → d.seasons j ≡ s.seasons j
  pub matches_kept : d.matches ≡ s.matches

abbrev pub CloseOutcome :
    SeasonDb → ℕ → List WeekSummary → List Standing → Result ClosableSeason → SeasonDb → Type 0
CloseOutcome s id weeks standings (ok after) d =
    (row : ClosableSeason) × MayClose s id weeks row
    × IsClosed s id standings row d
    × (d.seasons id ≡ some after)
CloseOutcome s id weeks standings (err e) d =
    (d ≡ s) ⊎ ((row : ClosableSeason) × MayClose s id weeks row × IsClosed s id standings row d)

all_closed :
    (weeks : List WeekSummary)
    → no_weeks (unclosed weeks) ≡ true
    → forall_in (λ w. w.is_closed) weeks ≡ true
all_closed [] h = refl
all_closed (w ∷ ws) h = let ih = all_closed ws in ground arith

if_active : (b : Bool) → (if b then false else b) ≡ false
if_active true = refl
if_active false = refl

module _ (s : SeasonDb) (id : ℕ) (weeks : List WeekSummary) (standings : List Standing) where
  abbrev Goal : Result ClosableSeason → SeasonDb → Type 0
  Goal = CloseOutcome s id weeks standings

  blocked_rule : (e : Err) → Ends s (throw e) Goal
  blocked_rule e = Ends-throw (inl refl)

  written_close :
      (row : ClosableSeason) (now at : ℕ)
      → s.seasons id ≡ some row
      → IsClosed s id standings row (
          update_row id
            (closed_row now (record { captured_at = at; standings = standings }) row.active)
            s)
  written_close row now at found = record {
    after = closed_row now (record { captured_at = at; standings = standings }) row.active row;
    stored = ground arith;
    closed = refl;
    inactive = if_active row.active;
    activation_kept = refl;
    snapshot = record { captured_at = at; standings = standings };
    kept = refl;
    final = refl;
    others = λ j h. ground arith;
    matches_kept = refl;
  }

  commit_rule :
      (row : ClosableSeason) (missing : ℕ)
      → MayClose s id weeks row
      → no_weeks (unclosed weeks) ≡ true
      → Ends s (commit_close id weeks standings (checked row.active weeks standings missing)) Goal
  unfolding commit_close close_season_record get_season
  commit_rule row missing may ready =
      Ends-fail_if _ _ _ (λ _. inl refl)
        λ _. Ends-clock _ λ at. Ends-exec _ _ (inl refl) λ now.
          Ends-query _ _ (inr (row, may, written_close row now at may.found)) (
            Ends-require_last _ _ (λ _. inr (row, may, written_close row now at may.found))
              (λ after e. (row, may, written_close row now at may.found, e)))

  refused_rule :
      (state : SeasonCloseState)
      → state.preview.can_close ≡ false
      → Ends s (commit_close id weeks standings state) Goal
  unfolding commit_close
  refused_rule state h = Ends-fail_if _ _ _ (λ _. inl refl) (λ can. absurd (ground arith))

  checked_rule :
      (row : ClosableSeason) (missing : ℕ)
      → s.seasons id ≡ some row
      → is_set row.activated_at ≡ true
      → is_set row.closed_at ≡ false
      → (match_count id s == 0) ≡ false
      → Ends s (commit_close id weeks standings (checked row.active weeks standings missing)) Goal
  checked_rule row missing found activated not_closed has_matches =
      elim (Bool-cases (no_weeks (unclosed weeks))) [
        | inl ready ↦
            commit_rule row missing
              (record {
                found = found;
                activated = activated;
                not_closed = not_closed;
                has_matches = has_matches;
                weeks_closed = all_closed weeks ready;
              })
              ready
        | inr unready ↦ refused_rule (checked row.active weeks standings missing) unready
      ]

  close_rule : Ends s (close_season id weeks standings) Goal
  unfolding close_season compute_close get_season get_match_count get_season_missing_count
  close_rule = Ends-bind _ _ (
      Ends-bind _ _ (
        Ends-query _ _ (inl refl) (
          Ends-require_last _ _ (λ _. inl refl)
            λ row found.
              Ends-if (not (is_set row.activated_at)) (pure _) _
                (λ draft. Ends-pure (refused_rule _ refl))
                λ activated.
                  Ends-if (is_set row.closed_at) (pure _) (compute_open id weeks standings row)
                    (λ already. Ends-pure (refused_rule _ refl))
                    λ not_closed.
                      Ends-query (match_count id) (compute_scheduled id weeks standings row.active)
                        (inl refl)
                        (Ends-if (match_count id s == 0) (pure _) _
                          (λ empty. Ends-pure (refused_rule _ refl))
                          λ has_matches. Ends-query _ _ (inl refl) (
                            Ends-pure
                              (checked_rule row _ found (ground arith) not_closed has_matches))))))

-- Closing a season, whichever calls of the driver fail. Where it succeeds, the season had been
-- activated and was not closed, it has matches, and each of the given weeks is closed; now it is
-- closed and inactive, it keeps the given standings, its activation and the other seasons are as they
-- were, and the row that is returned is the one stored. On an error the database is as it was, or the
-- season could be closed and is: the row could only not be read back.
pub close_season_outcome :
    (id : ℕ) (weeks : List WeekSummary) (standings : List Standing) (w : World SeasonDb)
    → CloseOutcome w.db id weeks standings
        (close_season id weeks standings w).0
        (close_season id weeks standings w).1.db
close_season_outcome id weeks standings w = (close_rule w.db id weeks standings).run w refl
