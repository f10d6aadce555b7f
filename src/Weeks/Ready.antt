-- ===== src/Weeks/Ready.antt =====
-- When a week's validation has no error.
use league_app.Base.{
  ℕ, suc, sym, ◌∙◌, length, ap, is_set, ◌↔◌, ◌≡◌, refl, Bool, true, false, not, ◌&&◌, ◌||◌,
  Bool-cases, inl, inr, Option, none, some, List, [], ◌∷◌, map, exists_in, exists_in-append,
  forall_in, if◌then◌else◌, arith,
}
use league_app.Scoresheet.Spot.{Float}
use league_app.Scoresheet.Sheet.{Message, has_errors}
use league_app.Scoresheet.Rounds.{RoundConfig, any_score, validate_rounds}
use league_app.Scoresheet.Legal.{SheetIsLegal, validate_rounds-errors}
use league_app.Weeks.Messages.{WeekMessage, player_duplicate, has_week_errors, is_week_error}
use league_app.Weeks.Validate.{
  Slot, slot_eq, all_slots, duplicates, week_error, RoundValidationRow, of_match, is_empty,
  MatchValidationRow, results_of, hcs_of, is_assigned, match_messages, assigned_messages,
  scored_messages, validate_week_data,
}

-- No slot is there twice.
abbrev pub distinct : List Slot → Bool
distinct [] = true
distinct (s ∷ ss) = not (exists_in (slot_eq s) ss) && distinct ss

unseen_step :
    (q : Slot → Bool) (s : Slot) (ss : List Slot)
    → forall_in (λ t. not (slot_eq t s || q t)) ss
      ≡ (not (exists_in (slot_eq s) ss) && forall_in (λ t. not (q t)) ss)
unseen_step q s [] = refl
unseen_step q s (t ∷ ss) = let ih = unseen_step q s ss in ground arith

is_empty_step :
    (e : Bool) (x : WeekMessage) (rest : List WeekMessage)
    → is_empty (if e then x ∷ rest else rest) ≡ (not e && is_empty rest)
is_empty_step true x rest = refl
is_empty_step false x rest = refl

duplicates-is_empty :
    (id : ℕ) (seen ss : List Slot)
    → is_empty (duplicates id seen ss)
      ≡ (forall_in (λ t. not (exists_in (slot_eq t) seen)) ss && distinct ss)
unfolding duplicates
duplicates-is_empty id seen [] = refl
duplicates-is_empty id seen (s ∷ ss) =
    let ih = duplicates-is_empty id (s ∷ seen) ss in
    let step = unseen_step (λ t. exists_in (slot_eq t) seen) s ss in
    let here =
      is_empty_step (exists_in (slot_eq s) seen) (week_error player_duplicate id)
        (duplicates id (s ∷ seen) ss) in
    ground arith

errors_step :
    (e : Bool) (x : WeekMessage) (rest : List WeekMessage)
    → is_week_error x ≡ true
    → has_week_errors rest ≡ not (is_empty rest)
    → has_week_errors (if e then x ∷ rest else rest) ≡ not (is_empty (if e then x ∷ rest else rest))
errors_step true x rest h ih = ground arith
errors_step false x rest h ih = ih

duplicates-has_errors :
    (id : ℕ) (seen ss : List Slot)
    → has_week_errors (duplicates id seen ss) ≡ not (is_empty (duplicates id seen ss))
unfolding duplicates
duplicates-has_errors id seen [] = refl
duplicates-has_errors id seen (s ∷ ss) =
    errors_step (exists_in (slot_eq s) seen) _ (duplicates id (s ∷ seen) ss) refl
      (duplicates-has_errors id (s ∷ seen) ss)

of_match-has_errors :
    (id : ℕ) (msgs : List Message) → has_week_errors (map (of_match id) msgs) ≡ has_errors msgs
of_match-has_errors id [] = refl
of_match-has_errors id (msg ∷ msgs) = let ih = of_match-has_errors id msgs in ground arith

forall_unseen : (ss : List Slot) → forall_in (λ t. true) ss ≡ true
forall_unseen [] = refl
forall_unseen (s ∷ ss) = forall_unseen ss

no_duplicates : (id : ℕ) (ss : List Slot) → is_empty (duplicates id [] ss) ≡ distinct ss
no_duplicates id ss =
    let d = duplicates-is_empty id [] ss in let u = forall_unseen ss in ground arith

or_false : (a b : Bool) → ((a || b) ≡ false) ↔ (a ≡ false) × (b ≡ false)
or_false a b = ground arith

module _ (float : Float) (cfg : RoundConfig float) where
  -- The match can be closed: both teams are there, nobody plays twice in one round, some game has a
  -- winner, and every score on the sheet is legal.
  pub record IsReady (m : MatchValidationRow float) : Type 0 where
    pub home_team : is_set m.home_team_id ≡ true
    pub away_team : is_set m.away_team_id ≡ true
    pub one_place_a_round : distinct (all_slots (results_of float m)) ≡ true
    pub scored : any_score (results_of float m) ≡ true
    pub legal : SheetIsLegal (results_of float m)

  assigned_iff : (h a : Option ℕ) → is_assigned float h a ≡ (is_set h && is_set a)
  assigned_iff (some h) (some a) = refl
  assigned_iff (some h) none = refl
  assigned_iff none (some a) = refl
  assigned_iff none none = refl

  same_length :
      (rs : List (RoundValidationRow float))
      → length (map (λ r. r.hc) rs) ≡ length (map (λ r. r.result) rs)
  same_length [] = refl
  same_length (r ∷ rs) = ap suc (same_length rs)

  scored_errors :
      (m : MatchValidationRow float)
      → has_week_errors (scored_messages float cfg m) ≡ (
          not (any_score (results_of float m))
          || has_errors (validate_rounds float (results_of float m) (hcs_of float m) cfg).messages)
  scored_errors m = elim (Bool-cases (any_score (results_of float m))) [
    | inl some_score ↦ rw some_score (
        of_match-has_errors m.match_id
          (validate_rounds float (results_of float m) (hcs_of float m) cfg).messages)
    | inr no_score ↦ rw no_score refl
  ]

  assigned_errors :
      (m : MatchValidationRow float) (dups : List WeekMessage)
      → has_week_errors dups ≡ not (is_empty dups)
      → has_week_errors (assigned_messages float cfg m dups)
        ≡ (not (is_empty dups) || has_week_errors (scored_messages float cfg m))
  assigned_errors m [] h = refl
  assigned_errors m (d ∷ ds) h = h

  match_errors :
      (m : MatchValidationRow float)
      → has_week_errors (match_messages float cfg m)
        ≡ not (
            is_set m.home_team_id
            && (is_set m.away_team_id
                && (distinct (all_slots (results_of float m))
                    && (any_score (results_of float m)
                        && not (
                            has_errors
                              (validate_rounds float
                                (results_of float m)
                                (hcs_of float m)
                                cfg).messages)))))
  unfolding match_messages
  match_errors m =
      let a = assigned_iff m.home_team_id m.away_team_id in
      let d = no_duplicates m.match_id (all_slots (results_of float m)) in
      let e =
        assigned_errors m (duplicates m.match_id [] (all_slots (results_of float m)))
          (duplicates-has_errors m.match_id [] _) in
      let s = scored_errors m in
      elim (Bool-cases (is_assigned float m.home_team_id m.away_team_id)) [
        | inl there ↦ rw there (e ∙ ground arith)
        | inr missing ↦ rw missing (ground arith)
      ]

  match_iff :
      (m : MatchValidationRow float)
      → (has_week_errors (match_messages float cfg m) ≡ false) ↔ IsReady m
  match_iff m =
      let e = match_errors m in
      let l = validate_rounds-errors float (results_of float m) (hcs_of float m) cfg in
      (
        λ h. record {
          home_team = ground arith;
          away_team = ground arith;
          one_place_a_round = ground arith;
          scored = ground arith;
          legal = (l.0 (ground arith)).1;
        },
        λ r.
            let clean = l.1 (same_length m.rounds, r.legal) in
            let t1 = r.home_team in
            let t2 = r.away_team in
            let t3 = r.one_place_a_round in let t4 = r.scored in ground arith,
      )

  pub data AllReady : List (MatchValidationRow float) → Type 0 where
    nil : AllReady []
    cons :
        {m : MatchValidationRow float} {ms : List (MatchValidationRow float)}
        → IsReady m
        → AllReady ms
        → AllReady (m ∷ ms)

  -- A week can be closed (its validation has no error) exactly if in each of its matches both teams
  -- are there, nobody has two places in one round, some game has a winner, and every game's score is
  -- legal; whatever the handicaps and the configuration are.
  pub validate_week_data-errors :
      (ms : List (MatchValidationRow float))
      → (has_week_errors (validate_week_data float ms cfg) ≡ false) ↔ AllReady ms
  unfolding validate_week_data
  validate_week_data-errors [] = (λ h. nil, λ a. refl)
  validate_week_data-errors (m ∷ ms) =
      let e =
        exists_in-append is_week_error (match_messages float cfg m)
          (validate_week_data float ms cfg) in
      let p =
        or_false (has_week_errors (match_messages float cfg m))
          (has_week_errors (validate_week_data float ms cfg)) in
      (
        λ h.
            let q = p.0 (sym e ∙ h) in
            cons ((match_iff m).0 q.0) ((validate_week_data-errors ms).0 q.1),
        elim [ cons r rs ↦ e ∙ p.1 ((match_iff m).1 r, (validate_week_data-errors ms).1 rs) ],
      )
