-- ===== src/Weeks/Loading.antt =====
-- What the reads of the week workflow give.
use league_app.Base.{ℕ, ◌≡◌, refl, sym, subst, ap, Bool, some, List, [], ◌∷◌, map, is_set, keep_if}
use league_app.Effects.{infra, Result, ok, err, M, ◌>>=◌}
use league_app.Effects.Logic.{
  Ends, Either, Ends-pure, Ends-query, Ends-require, Ends-bind, Ends-mono,
}
use league_app.Scoresheet.Spot.{Float}
use league_app.Scoresheet.Rounds.{RoundConfig}
use league_app.Weeks.Db.{WeekMatch, SeasonRow, handicap_multiplier, min_ball_handicap, WeekDb}
use league_app.Weeks.Validate.{MatchValidationRow}
use league_app.Weeks.Config.{Strconv, parse_multiplier, parse_min_ball, resolve_round_config}
use league_app.Weeks.Store.{
  in_week, is_season_closed, rounds_of, match_validation_row, load_matches,
  get_week_validation_data,
}

subst2 :
    {A B : Type 0} (P : A → B → Type 0) {a a' : A} {b b' : B} → a ≡ a' → b ≡ b' → P a b → P a' b'
subst2 P {a} {b'} e f x = subst (λ z. P z b') e (subst (P a) f x)

module _ (float : Float) (strconv : Strconv float) where
  -- The configuration that the season's rules ask for.
  pub record Configured (s : WeekDb float) (season : ℕ) (cfg : RoundConfig float) : Type 0 where
    pub multiplier :
        parse_multiplier float strconv (s.rules season handicap_multiplier) ≡ some cfg.multiplier
    pub min_ball :
        parse_min_ball float strconv (s.rules season min_ball_handicap) ≡ some cfg.min_ball_hc

  abbrev pub loaded : WeekDb float → WeekMatch → MatchValidationRow float
  loaded s m = match_validation_row float strconv m (rounds_of float strconv m.id s)

  -- The week's matches with their score sheets.
  abbrev pub week_rows : ℕ → ℕ → WeekDb float → List (MatchValidationRow float)
  week_rows season week s = map (loaded s) (keep_if (in_week season week) s.matches)

  module _ {A : Type 0} {s : WeekDb float} {P : Result A → WeekDb float → Type 0} where
    pub config_rule :
        (season : ℕ) (k : RoundConfig float → M (WeekDb float) A)
        → P (err infra) s
        → ((cfg : RoundConfig float) → Configured s season cfg → Ends s (k cfg) P)
        → Ends s (resolve_round_config float strconv season >>= k) P
    unfolding resolve_round_config
    config_rule season k failed next = Ends-bind _ _ (
        Ends-query _ _ failed (
          Ends-require _ _ _ (λ _. failed)
            λ mult m. Ends-query _ _ failed (
              Ends-require _ _ _ (λ _. failed)
                λ min_ball n. Ends-pure (next _ (record { multiplier = m; min_ball = n })))))

  load_rule :
      (s : WeekDb float) (ms : List WeekMatch)
      → Ends s
          (load_matches float strconv ms)
          (λ r d. (d ≡ s) × Either r (λ rows. rows ≡ map (loaded s) ms) (λ e. e ≡ infra))
  unfolding load_matches
  load_rule s [] = Ends-pure (refl, refl)
  load_rule s (m ∷ ms) =
      Ends-query (rounds_of float strconv m.id) _ (refl, refl)
        (Ends-bind _ _ (
          Ends-mono (load_rule s ms) (elim [
            | ok rows ↦ λ d h. Ends-pure (h.0, ap (λ x. loaded s m ∷ x) h.1)
            | err e ↦ λ d h. h
          ])))

  module _ {A : Type 0} {s : WeekDb float} {P : Result A → WeekDb float → Type 0} where
    pub data_rule :
        (season week : ℕ) (k : List (MatchValidationRow float) → M (WeekDb float) A)
        → P (err infra) s
        → Ends s (k (week_rows season week s)) P
        → Ends s (get_week_validation_data float strconv season week >>= k) P
    unfolding get_week_validation_data
    data_rule season week k failed next = Ends-bind _ _ (
        Ends-query _ _ failed (
          Ends-mono (load_rule s (keep_if (in_week season week) s.matches)) (elim [
            | ok rows ↦ λ d h. subst2 (λ x y. Ends x (k y) P) (sym h.0) (sym h.1) next
            | err e ↦ λ d h. subst2 (λ x y. P (err x) y) (sym h.1) (sym h.0) failed
          ])))

    pub season_closed_rule :
        (season : ℕ) (k : Bool → M (WeekDb float) A)
        → P (err infra) s
        → ((row : SeasonRow) → s.seasons season ≡ some row → Ends s (k (is_set row.closed_at)) P)
        → Ends s (is_season_closed float season >>= k) P
    unfolding is_season_closed
    season_closed_rule season k failed next = Ends-bind _ _ (
        Ends-query _ _ failed
          (Ends-require _ _ _ (λ _. failed) λ row found. Ends-pure (next row found)))
