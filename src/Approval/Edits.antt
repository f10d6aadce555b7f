-- ===== src/Approval/Edits.antt =====
-- The score edits: the guarded transition of the revision that every edit makes first
-- (`advanceScoreRevisionForEdit`), and the edits of round_service.go around it.
use league_app.Base.{
  ℕ, suc, ◌≡◌, refl, ◌∙◌, sym, ap, subst, of_some, ◌⊎◌, inl, inr, Bool, true, Option, none, some,
  List, [], ◌∷◌, ◌++◌,
}
use mathlib.Core.List.{append-nil, append_assoc}
use league_app.Effects.{Err, err, infra, Result, M, pure, ◌>>◌}
use league_app.Effects.Logic.{
  Ends, Either, Ends-pure, Ends-query, Ends-exec, Ends-exec_last, Ends-bind, Ends-require,
}
use league_app.Approval.Db.{
  Db, MatchRow, Side, SideState, pending, approved, correction_requested, TeamSide, home, away,
  ResultRow, Event, side_scope, cleared_by_edit, put, update_where, update_found, side_of,
  with_side, cleared_side,
}
use league_app.Approval.Store.{
  select_state, score_edit_guard, bump_revision, clear_side, update_by_id, side_event, insert_event,
  advance_score_revision_for_edit, state_of,
}
use league_app.Approval.Promises.{unspoken}
use league_app.Approval.Rules.{guarded_update_rule, found_row}
use league_app.Approval.Frame.{Touched, Touched-self, Touched-put}

-- A side that was pending stays; any other is cleared.
abbrev pub Reset : Side → Side → Type 0
Reset old new = ((old.state ≡ pending) × (new ≡ old)) ⊎ ((now : ℕ) × (new ≡ unspoken now))

-- What clearing one side adds to the log: nothing where the side was pending, else one event.
abbrev pub cleared_log : ℕ → TeamSide → ℕ → SideState → List Event
cleared_log id side revision pending = []
cleared_log id side revision _ =
    record {
      match_id = id;
      event_scope = side_scope side;
      event_type = cleared_by_edit;
      score_revision = revision;
      actor_user_id = none;
      actor_player_id = none;
      actor_name_snapshot = "";
      note = "";
      snapshot = none;
    }
    ∷ []

-- What the transition leaves behind: the revision is the next one, no side has a word on it, and the
-- log has one event more for each side that had one, the home side first.
-- `completed` and `results` are what the edit makes of the match's flag and of the results.
pub record Edited (s : Db) (id : ℕ) (expected : Option ℕ) (completed : MatchRow → Bool)
    (results : List ResultRow) (revision : ℕ) (d : Db) : Type 0 where
  pub row : MatchRow
  pub home_after : Side
  pub away_after : Side
  pub found : s.matches id ≡ some row
  pub allowed : score_edit_guard expected s row ≡ true
  pub next_revision : revision ≡ suc row.score_revision
  pub home_reset : Reset row.home_side home_after
  pub away_reset : Reset row.away_side away_after
  pub touched :
      Touched s id
        (record row {
          completed = completed row;
          score_revision = suc row.score_revision;
          home_side = home_after;
          away_side = away_after;
        })
        d
  pub results_after : d.results ≡ results
  pub logged :
      d.events
      ≡ s.events
        ++ (cleared_log id home revision row.home_side.state
            ++ cleared_log id away revision row.away_side.state)

-- An UPDATE by key of a row that is there.
pub update_by_id_rule :
    {A : Type 0} {s : Db} {P : Result A → Db → Type 0} (id : ℕ) (f : ℕ → MatchRow → MatchRow)
    (k : M Db A) (r : MatchRow)
    → s.matches id ≡ some r
    → P (err infra) s
    → ((now : ℕ) → Ends (put id (f now r) s) k P)
    → Ends s (update_by_id id f >> k) P
unfolding update_by_id update_where
update_by_id_rule {s} {P} id f k r found failed next =
    Ends-exec _ _ failed λ now.
      subst (λ o. Ends (update_found o id (λ _. true) (f now) s).1 k P) (sym found) (next now)

module _ {A : Type 0} {P : Result A → Db → Type 0} (errors : (x : Err) (d : Db) → P (err x) d)
    (s : Db) (id : ℕ) where
  clear_set_side :
      (d : Db) (revision : ℕ) (side : TeamSide) (r : MatchRow) (k : M Db A)
      → Touched s id r d
      → ((after : Side) (d' : Db)
          → Reset (side_of side r) after
          → Touched s id (with_side side after r) d'
          → d'.results ≡ d.results
          → d'.events ≡ d.events ++ side_event id side cleared_by_edit revision ∷ []
          → Ends d' k P)
      → Ends d
          (update_by_id id (λ now. with_side side (cleared_side now))
            >> insert_event (side_event id side cleared_by_edit revision)
            >> k)
          P
  unfolding insert_event
  clear_set_side d revision side r k t next = Ends-bind {P = P} _ _ (
      update_by_id_rule id _ _ r t.written (errors _ _) λ now.
        Ends-exec_last _ (errors _ _)
          λ _. next (cleared_side now) _ (inr (now, refl)) (Touched-put s id r _ d _ t) refl refl)

  clear_side_rule :
      (d : Db) (revision : ℕ) (side : TeamSide) (r : MatchRow) (x : SideState) (k : M Db A)
      → (side_of side r).state ≡ x
      → Touched s id r d
      → ((after : Side) (d' : Db)
          → Reset (side_of side r) after
          → Touched s id (with_side side after r) d'
          → d'.results ≡ d.results
          → d'.events ≡ d.events ++ cleared_log id side revision x
          → Ends d' k P)
      → Ends d (clear_side id revision side x >> k) P
  unfolding clear_side
  clear_side_rule d revision side r pending k e t next = Ends-bind {P = P} _ _ (
      Ends-pure
        (next (side_of side r) d (inl (e, refl)) (same side) refl (sym (append-nil d.events))))
    where
      same : (side : TeamSide) → Touched s id (with_side side (side_of side r) r) d
      same home = t
      same away = t
  clear_side_rule d revision side r approved k e t next = clear_set_side d revision side r k t next
  clear_side_rule d revision side r correction_requested k e t next =
      clear_set_side d revision side r k t next

abbrev pub Advanced : Db → ℕ → Option ℕ → ℕ → Db → Type 0
Advanced s id expected = Edited s id expected (λ r. r.completed) s.results

abbrev pub Advancing : Db → ℕ → Option ℕ → Result ℕ → Db → Type 0
Advancing s id expected r d =
    Either r (λ revision. Advanced s id expected revision d) (λ _. Unit {0})

both_logged :
    (l l₀ l₁ l₂ xs ys : List Event) → l₀ ≡ l → l₁ ≡ l₀ ++ xs → l₂ ≡ l₁ ++ ys → l₂ ≡ l ++ (xs ++ ys)
both_logged l l₀ l₁ l₂ xs ys e₀ e₁ e₂ =
    e₂ ∙ ap (λ k. k ++ ys) (e₁ ∙ ap (λ k. k ++ xs) e₀) ∙ append_assoc l xs ys

-- The part after the guarded statement: both sides are cleared in turn.
clear_both :
    (s d : Db) (id : ℕ) (expected : Option ℕ) (row : MatchRow)
    → s.matches id ≡ some row
    → score_edit_guard expected s row ≡ true
    → Touched s id (bump_revision 0 row) d
    → d.results ≡ s.results
    → d.events ≡ s.events
    → Ends d
        (do
          clear_side id (suc row.score_revision) home row.home_side.state
          clear_side id (suc row.score_revision) away row.away_side.state
          pure (suc row.score_revision))
        (Advancing s id expected)
clear_both s d id expected row found allowed t kept log =
    clear_side_rule (λ _ _. tt) s id d (suc row.score_revision) home (bump_revision 0 row) _ _ refl
      t
      λ home_after d₁ home_reset t₁ kept₁ log₁.
        clear_side_rule (λ _ _. tt) s id d₁ (suc row.score_revision) away _ _ _ refl t₁
          λ away_after d₂ away_reset t₂ kept₂ log₂. Ends-pure (record {
            row = row;
            home_after = home_after;
            away_after = away_after;
            found = found;
            allowed = allowed;
            next_revision = refl;
            home_reset = home_reset;
            away_reset = away_reset;
            touched = t₂;
            results_after = kept₂ ∙ (kept₁ ∙ kept);
            logged = both_logged s.events d.events d₁.events d₂.events _ _ log log₁ log₂;
          })

pub advance_rule :
    (s : Db) (id : ℕ) (expected : Option ℕ)
    → Ends s (advance_score_revision_for_edit id expected) (Advancing s id expected)
unfolding advance_score_revision_for_edit
advance_rule s id expected =
    guarded_update_rule id _ _ _ _ tt (λ _. tt)
      λ row now found allowed.
        let d : Db = put id (bump_revision now row) s in
        let t : Touched s id (bump_revision now row) d =
          Touched-put s id row _ s s.events (Touched-self s id row found) in
        Ends-query {P = Advancing s id expected} (select_state id) _ tt (
          Ends-require {P = Advancing s id expected} _ infra _ (λ _. tt)
            λ state e.
              let (r, there, same) = found_row (d.matches id) state e in
              let is_row : r ≡ bump_revision now row = of_some (sym there ∙ t.written) in
              subst
                (λ st.
                  Ends d
                    (do
                      clear_side id st.score_revision home st.home_side.state
                      clear_side id st.score_revision away st.away_side.state
                      pure st.score_revision)
                    (Advancing s id expected))
                (sym (same ∙ ap state_of is_row))
                (clear_both s d id expected row found allowed t refl refl))
