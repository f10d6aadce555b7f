-- ===== src/Weeks/Flags.antt =====
-- A match is marked closed exactly when its week is.
use league_app.Base.{
  Option, ℕ, ◌≡◌, refl, sym, subst, ap, Bool, true, false, not, ◌&&◌, ◌||◌, some, List, [], ◌∷◌,
  ◌==◌, is_set, forall_in, forall_in-split, forall_in-implies, forall_in-kept, forall_in-map, arith,
  ◌∙◌,
}
use league_app.Effects.{Result, ok, err, World}
use league_app.Scoresheet.Spot.{Float}
use league_app.Weeks.Db.{WeekMatch, WeekStatus, open_week, closed_week, WeekDb}
use league_app.Weeks.Messages.{AckEntry}
use league_app.Weeks.Config.{Strconv}
use league_app.Weeks.Store.{in_week, status_of, set_week_closed}
use league_app.Weeks.Service.{
  CloseWeekRequest, CloseWeekResult, CloseWeekReply, week_done, week_blocked, is_closed_status,
  close_week, reopen_week,
}
use league_app.Weeks.Changes.{Closed, Reopened, is_processed}
use league_app.Weeks.Closing.{CloseOutcome, ReopenOutcome, close_week_outcome, reopen_week_outcome}

abbrev same_bool : Bool → Bool → Bool
same_bool true b = b
same_bool false b = not b

same_bool_of : (a b : Bool) → a ≡ b → same_bool a b ≡ true
same_bool_of a b h = ground arith

in_or_out :
    (i k a : Bool) → (not i || k) ≡ true → (i ≡ true → k ≡ true → a ≡ true) → (not i || a) ≡ true
in_or_out i k a h f = ground arith

is_false_of : (b : Bool) → not b ≡ true → b ≡ false
is_false_of b h = ground arith

module _ (float : Float) where
  abbrev pub agrees : WeekDb float → WeekMatch → Bool
  agrees d m =
      same_bool m.row.week_closed
        (is_closed_status (status_of float (d.weeks m.row.season_id m.week_number)))

  -- `matches.week_closed` says of each match what `league_weeks.status` says of its week.
  abbrev pub FlagsAgree : WeekDb float → Type 0
  FlagsAgree d = forall_in (agrees d) d.matches ≡ true

  -- The week of a match in the week.
  week_of :
      (d : WeekDb float) (season week : ℕ) (m : WeekMatch)
      → in_week season week m ≡ true
      → d.weeks m.row.season_id m.week_number ≡ d.weeks season week
  week_of d season week m h =
      let e1 : m.row.season_id ≡ season = ground arith in
      let e2 : m.week_number ≡ week = ground arith in rw (e1, e2) refl

  agrees-set :
      (d : WeekDb float) (season week : ℕ) (m : WeekMatch) (st : WeekStatus)
      → status_of float (d.weeks season week) ≡ some st
      → in_week season week m ≡ true
      → m.row.week_closed ≡ is_closed_status (some st)
      → agrees d m ≡ true
  agrees-set d season week m st h i c =
      let w = ap (λ o. is_closed_status (status_of float o)) (week_of d season week m i) in
      let v = ap is_closed_status h in same_bool_of m.row.week_closed _ (c ∙ sym (w ∙ v))

  -- Outside the week nothing that the test reads changed.
  agrees-kept :
      (s d : WeekDb float) (season week : ℕ) (m : WeekMatch)
      → ((a b : ℕ) → ((a == season) && (b == week)) ≡ false → d.weeks a b ≡ s.weeks a b)
      → not (in_week season week m) ≡ true
      → agrees s m ≡ true
      → agrees d m ≡ true
  agrees-kept s d season week m same out a =
      let e =
        ap (λ o. is_closed_status (status_of float o))
          (same m.row.season_id m.week_number (ground arith)) in
      subst (λ b. same_bool m.row.week_closed b ≡ true) (sym e) a

  Closed-FlagsAgree :
      (s d : WeekDb float) (season week n : ℕ) (acks : List AckEntry) (user : Option ℕ)
      → Closed float s season week acks user n d
      → FlagsAgree s
      → FlagsAgree d
  Closed-FlagsAgree s d season week n acks user c h =
      forall_in-split (in_week season week) (agrees d) d.matches
        (forall_in-implies _ _ d.matches
          (λ m t.
            in_or_out (in_week season week m) m.row.week_closed (agrees d m) t
              (λ i k. agrees-set d season week m closed_week c.closed_row i k))
          c.all_closed)
        (subst (λ ms. forall_in (agrees d) ms ≡ true) (sym c.rest_kept)
          (forall_in-kept _ (agrees s) (agrees d) s.matches
            (λ m out a. agrees-kept s d season week m c.other_rows out a) h))

  Reopened-FlagsAgree :
      (s d : WeekDb float) (season week : ℕ)
      → Reopened float s season week d
      → status_of float (s.weeks season week) ≡ some closed_week
      → FlagsAgree s
      → FlagsAgree d
  Reopened-FlagsAgree s d season week c was h =
      forall_in-split (in_week season week) (agrees d) d.matches
        (forall_in-implies _ _ d.matches
          (λ m t. in_or_out (in_week season week m) (not m.row.week_closed) (agrees d m) t (λ i k.
            agrees-set d season week m open_week (c.row was) i (is_false_of m.row.week_closed k)))
          c.all_open)
        (subst (λ ms. forall_in (agrees d) ms ≡ true) (sym c.rest_kept)
          (forall_in-kept _ (agrees s) (agrees d) s.matches
            (λ m out a. agrees-kept s d season week m c.other_rows out a) h))

-- The requests that close and reopen weeks.
pub data WeekRequest : Type 0 where
  close_request : CloseWeekRequest → WeekRequest
  reopen_request : ℕ → ℕ → WeekRequest

module _ (float : Float) (strconv : Strconv float) where
  abbrev serve : WeekRequest → World (WeekDb float) → World (WeekDb float)
  serve (close_request req) w = (close_week float strconv req w).1
  serve (reopen_request season week) w = (reopen_week float strconv season week w).1

  -- One request after the other, whatever each answers.
  abbrev pub serve_weeks : List WeekRequest → World (WeekDb float) → World (WeekDb float)
  serve_weeks [] w = w
  serve_weeks (r ∷ rs) w = serve_weeks rs (serve r w)

  close_kept :
      (s d : WeekDb float) (req : CloseWeekRequest) (r : Result CloseWeekReply)
      → CloseOutcome float strconv s req r d
      → FlagsAgree float s
      → FlagsAgree float d
  close_kept s d req (ok (week_done reply)) o h = Closed-FlagsAgree float s d _ _ _ _ _ o.closed h
  close_kept s d req (ok (week_blocked ms)) o h = subst (FlagsAgree float) (sym o.0) h
  close_kept s d req (err e) o h = subst (FlagsAgree float) (sym o) h

  reopen_kept :
      (s d : WeekDb float) (season week : ℕ) (r : Result (Unit {0}))
      → ReopenOutcome float strconv s season week r d
      → FlagsAgree float s
      → FlagsAgree float d
  reopen_kept s d season week (ok u) o h =
      Reopened-FlagsAgree float s d _ _ o.reopened o.was_closed h
  reopen_kept s d season week (err e) o h = subst (FlagsAgree float) (sym o) h

  -- Where each match is marked closed exactly if its week is, that stays so through any requests to
  -- close and reopen weeks, refused, failed or done, whichever calls of the driver fail.
  pub serve_weeks-FlagsAgree :
      (rs : List WeekRequest) (w : World (WeekDb float))
      → FlagsAgree float w.db
      → FlagsAgree float (serve_weeks rs w).db
  serve_weeks-FlagsAgree [] w h = h
  serve_weeks-FlagsAgree (close_request req ∷ rs) w h =
      serve_weeks-FlagsAgree rs (close_week float strconv req w).1
        (close_kept w.db _ req _ (close_week_outcome float strconv req w) h)
  serve_weeks-FlagsAgree (reopen_request season week ∷ rs) w h =
      serve_weeks-FlagsAgree rs (reopen_week float strconv season week w).1
        (reopen_kept w.db _ season week _ (reopen_week_outcome float strconv season week w) h)

  -- A match that is completed, approved and in the week is processed.
  abbrev pub still_processed : ℕ → ℕ → WeekMatch → Bool
  still_processed season week m =
      not (in_week season week m && (m.row.completed && is_set m.row.approved_at)) || is_processed m

  undone_processed :
      (s d : WeekDb float) (season week : ℕ) (r : Result (Unit {0}))
      → ReopenOutcome float strconv s season week r d
      → forall_in (still_processed season week) s.matches ≡ true
      → forall_in (still_processed season week) d.matches ≡ true
  undone_processed s d season week (ok u) o h =
      sym (
        forall_in-map (set_week_closed false) (still_processed season week)
          (still_processed season week) d.matches (λ m. refl))
      ∙ ap (forall_in (still_processed season week)) o.reopened.columns_kept
      ∙ forall_in-map (set_week_closed false) (still_processed season week)
          (still_processed season week) s.matches (λ m. refl)
      ∙ h
  undone_processed s d season week (err e) o h =
      subst (λ x. forall_in (still_processed season week) x.matches ≡ true) (sym o) h

  done_processed :
      (s d : WeekDb float) (req : CloseWeekRequest) (reply : CloseWeekResult)
      (r : Result CloseWeekReply)
      → r ≡ ok (week_done reply)
      → CloseOutcome float strconv s req r d
      → forall_in (still_processed req.season_id req.week_number) d.matches ≡ true
  done_processed s d req reply (ok (week_done reply')) e o = o.closed.all_processed
  done_processed s d req reply (ok (week_blocked ms)) e o = cc
  done_processed s d req reply (err x) e o = cc

  -- Closing a week and reopening it does not take back what the close processed: each completed and
  -- approved match of the week stays processed, whether the reopening is refused, fails or is done.
  pub reopen_week-close_week :
      (req : CloseWeekRequest) (reply : CloseWeekResult) (w : World (WeekDb float))
      → (close_week float strconv req w).0 ≡ ok (week_done reply)
      → forall_in
          (still_processed req.season_id req.week_number)
          (reopen_week float strconv req.season_id req.week_number
            (close_week float strconv req w).1).1.db.matches
        ≡ true
  reopen_week-close_week req reply w done =
      let first = (close_week float strconv req w).1 in
      undone_processed first.db _ req.season_id req.week_number _
        (reopen_week_outcome float strconv req.season_id req.week_number first)
        (done_processed w.db first.db req reply _ done (close_week_outcome float strconv req w))
