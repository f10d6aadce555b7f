-- ===== src/Weeks/Commit.antt =====
-- The transactions of the store close and reopen a week as Weeks/Changes says.
use league_app.Base.{
  ℕ, ◌+◌, ◌≡◌, refl, sym, ◌∙◌, ap, subst, update_all, true, ◌||◌, Option, none, some, List, [], ◌∷◌,
  ◌++◌, map, length, keep_if, forall_in-update_all, forall_in-update_some, map-update_all,
  map-update_test, keep_if-update_all, count-update_all, count-update_more, arith,
}
use league_app.Effects.{ok, err}
use league_app.Effects.Logic.{
  Ends, Either, Ends-pure, Ends-exec, Ends-exec_last, Ends-bind, Ends-run_tx, Ends-mono,
}
use league_app.Scoresheet.Spot.{Float}
use league_app.Weeks.Db.{WeekMatch, open_week, closed_week, LeagueWeek, AckRow, WeekDb}
use league_app.Weeks.Messages.{AckEntry}
use league_app.Weeks.Store.{
  in_week, set_week_closed, to_process, processed, set_week, ack_row, status_of, upsert_week,
  close_matches, process_matches, insert_acks, reopened, reopen_row, open_matches,
}
use league_app.Weeks.Store
use league_app.Weeks.Changes.{undated, is_processed, settled, Closed, Reopened}

settled_all :
    (season week : ℕ) (user : Option ℕ) (now : ℕ) (ms : List WeekMatch)
    → update_all
        (to_process season week)
        (processed user now)
        (update_all (in_week season week) (set_week_closed true) ms)
      ≡ map (settled season week user now) ms
settled_all season week user now [] = refl
settled_all season week user now (m ∷ ms) =
    let ih = settled_all season week user now ms in ground arith

append_assoc : {A : Type 0} (xs ys zs : List A) → (xs ++ ys) ++ zs ≡ xs ++ (ys ++ zs)
append_assoc [] ys zs = refl
append_assoc (x ∷ xs) ys zs = ap (λ l. x ∷ l) (append_assoc xs ys zs)

append_nil : {A : Type 0} (xs : List A) → xs ++ [] ≡ xs
append_nil [] = refl
append_nil (x ∷ xs) = ap (λ l. x ∷ l) (append_nil xs)

map-append : {A B : Type 0} (f : A → B) (xs ys : List A) → map f (xs ++ ys) ≡ map f xs ++ map f ys
map-append f [] ys = refl
map-append f (x ∷ xs) ys = ap (λ l. f x ∷ l) (map-append f xs ys)

module _ (float : Float) where
  -- The rows that were appended, and nothing else.
  Acked : WeekDb float → ℕ → ℕ → List AckEntry → WeekDb float → Type 0
  Acked s season week acks d =
      (rows : List AckRow) × (d ≡ record s { acks = s.acks ++ rows })
      × (map undated rows ≡ map (ack_row season week 0) acks)

  append_step :
      (s d : WeekDb float) (season week now : ℕ) (a : AckEntry) (acks : List AckEntry)
      → Acked (record s { acks = s.acks ++ ack_row season week now a ∷ [] }) season week acks d
      → Acked s season week (a ∷ acks) d
  unfolding Acked
  append_step s d season week now a acks (rows, e, u) = (
    ack_row season week now a ∷ rows,
    e ∙ ap (λ l. record s { acks = l }) (append_assoc s.acks (ack_row season week now a ∷ []) rows),
    ap (λ l. ack_row season week 0 a ∷ l) u,
  )

  insert_rule :
      (season week : ℕ) (acks : List AckEntry) (s : WeekDb float)
      → Ends s
          (insert_acks float season week acks)
          (λ r d. Either r (λ u. Acked s season week acks d) (λ e. Unit))
  unfolding insert_acks Acked
  insert_rule season week [] s =
      Ends-pure ([], ap (λ l. record s { acks = l }) (sym (append_nil s.acks)), refl)
  insert_rule season week (a ∷ acks) s = Ends-exec _ _ tt λ now.
      Ends-mono (insert_rule season week acks _)
        (elim [ ok u ↦ λ d h. append_step s d season week now a acks h | err e ↦ λ d h. tt ])

  commit_step :
      (s d : WeekDb float) (season week t1 t3 : ℕ) (acks : List AckEntry) (user : Option ℕ)
      → Acked
          (process_matches float season week user t3
            (close_matches float season week (upsert_week float season week t1 s)))
          season
          week
          acks
          d
      → Closed float s season week acks user
          (length (keep_if (to_process season week) (close_matches float season week s).matches))
          d
  unfolding Acked
  commit_step s d season week t1 t3 acks user (rows, e, u) =
      subst
        (λ x.
          Closed float s season week acks user
            (length (keep_if (to_process season week) (close_matches float season week s).matches))
            x)
        (sym e)
        (record {
          processed_when = t3;
          rows = settled_all season week user t3 s.matches;
          closed_row = ground arith;
          other_rows = λ a b h. ground arith;
          all_closed =
              forall_in-update_all _ _ _ (close_matches float season week s).matches
                (λ m h. ground arith)
                (forall_in-update_some _ _ _ s.matches (λ m h. ground arith) (λ m h. ground arith));
          all_processed =
              forall_in-update_some _ _ _ (close_matches float season week s).matches
                (λ m h. ground arith) (λ m h. ground arith);
          processed_rows =
              map-update_test is_processed (λ m. is_processed m || to_process season week m)
                (to_process season week) (processed user t3)
                (close_matches float season week s).matches (λ m h. ground arith)
                (λ m h. ground arith)
              ∙ map-update_all (λ m. is_processed m || to_process season week m)
                  (in_week season week) (set_week_closed true) s.matches (λ m. refl);
          rest_kept =
              keep_if-update_all _ _ _ (close_matches float season week s).matches
                (λ m h. ground arith)
              ∙ keep_if-update_all _ _ _ s.matches (λ m h. ground arith);
          columns_kept =
              map-update_all _ _ _ (close_matches float season week s).matches (λ m. refl)
              ∙ map-update_all _ _ _ s.matches (λ m. refl);
          counted =
              count-update_more _ _ _ (close_matches float season week s).matches
                (λ m h. ground arith)
              ∙ ap
                  (λ k.
                    k
                    + length (
                        keep_if (to_process season week)
                          (close_matches float season week s).matches))
                  (count-update_all _ _ _ s.matches (λ m. refl));
          logged = map-append undated s.acks rows ∙ ap (λ l. map undated s.acks ++ l) u;
          scores_kept = refl;
          seasons_kept = refl;
          players_kept = refl;
          rules_kept = refl;
          lineups_kept = refl;
        })

  -- The transaction of a close: all of it, or nothing.
  pub close_rule :
      (s : WeekDb float) (season week : ℕ) (acks : List AckEntry) (user : Option ℕ)
      → Ends s
          (Store.close_week float season week acks user)
          (λ r d. Either r (λ n. Closed float s season week acks user n d) (λ e. d ≡ s))
  unfolding Store.close_week
  close_rule s season week acks user = Ends-run_tx _ refl (
      Ends-exec _ _ refl λ t1. Ends-exec _ _ refl λ t2. Ends-exec _ _ refl λ t3. Ends-bind _ _ (
        Ends-mono (insert_rule season week acks _) (elim [
          | ok u ↦ λ d h. Ends-pure (commit_step s d season week t1 t3 acks user h)
          | err e ↦ λ d h. refl
        ])))

  reopened_status :
      (o : Option LeagueWeek)
      → status_of float o ≡ some closed_week
      → status_of float (reopened float o) ≡ some open_week
  reopened_status (some w) h = refl
  reopened_status none h = cc

  at_week :
      (season week : ℕ) (o : Option LeagueWeek) (weeks : ℕ → ℕ → Option LeagueWeek)
      → set_week season week o weeks season week ≡ o
  at_week season week o weeks = ground arith

  reopened_of :
      (s : WeekDb float) (season week : ℕ)
      → Reopened float s season week
          (open_matches float season week (reopen_row float season week s))
  reopened_of s season week = record {
    row = λ h.
        ap (status_of float) (at_week season week (reopened float (s.weeks season week)) s.weeks)
        ∙ reopened_status (s.weeks season week) h;
    other_rows = λ a b h. ground arith;
    all_open = forall_in-update_some _ _ _ s.matches (λ m h. ground arith) (λ m h. ground arith);
    rest_kept = keep_if-update_all _ _ _ s.matches (λ m h. ground arith);
    columns_kept = map-update_all _ _ _ s.matches (λ m. refl);
    logged = refl;
    scores_kept = refl;
    seasons_kept = refl;
    players_kept = refl;
    rules_kept = refl;
    lineups_kept = refl;
  }

  -- The transaction of a reopening: all of it, or nothing.
  pub reopen_rule :
      (s : WeekDb float) (season week : ℕ)
      → Ends s
          (Store.reopen_week float season week)
          (λ r d. Either r (λ n. Reopened float s season week d) (λ e. d ≡ s))
  unfolding Store.reopen_week
  reopen_rule s season week =
      Ends-run_tx _ refl
        (Ends-exec _ _ refl λ t1. Ends-exec_last _ refl λ t2. reopened_of s season week)
