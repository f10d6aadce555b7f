-- ===== src/Pushback/Shift.antt =====
-- The updates of one match after the other move the planned matches, each once.
use league_app.Base.{
  ℕ, ◌≡◌, refl, sym, ap, ◌∙◌, Bool, true, false, Bool-cases, inl, inr, not, ◌&&◌, Option, none,
  List, [], ◌∷◌, ◌==◌, leb, map, keep_if, exists_in, update_all, if◌then◌else◌, arith,
}
use league_app.Pushback.Db.{PushbackMatchRow, shift_row, may_shift}
use league_app.Pushback.Service.{partition_matches, latest}

-- The ids are a key.
abbrev pub unique_ids : List PushbackMatchRow → Bool
unique_ids [] = true
unique_ids (m ∷ ms) = not (exists_in (λ x. x.id == m.id) ms) && unique_ids ms

-- A match of the season that is unplayed, at or after the cutoff.
abbrev pub moves : ℕ → ℕ → PushbackMatchRow → Bool
moves season cutoff m = (m.season_id == season) && (leb cutoff m.week_number && not m.completed)

abbrev pub moved : ℕ → ℕ → ℕ → PushbackMatchRow → PushbackMatchRow
moved season cutoff weeks m = if moves season cutoff m then shift_row weeks m else m

-- The updates for all ids, on the whole table.
abbrev pub shift_all : ℕ → ℕ → List ℕ → List PushbackMatchRow → List PushbackMatchRow
shift_all season weeks [] ms = ms
shift_all season weeks (id ∷ ids) ms =
    shift_all season weeks ids (update_all (may_shift season id) (shift_row weeks) ms)

abbrev pub has_id : ℕ → List PushbackMatchRow → Bool
has_id id = exists_in (λ x. x.id == id)

-- The ids that are planned for the rows of a table.
abbrev pub planned : ℕ → ℕ → List PushbackMatchRow → List ℕ
planned season cutoff ms = map (λ m. m.id) (keep_if (moves season cutoff) ms)

abbrev in_ids : ℕ → List ℕ → Bool
in_ids id = exists_in (λ i. i == id)

update-stays :
    (season weeks id : ℕ) (m : PushbackMatchRow) (ms : List PushbackMatchRow)
    → may_shift season id m ≡ false
    → update_all (may_shift season id) (shift_row weeks) (m ∷ ms)
      ≡ m ∷ update_all (may_shift season id) (shift_row weeks) ms
update-stays season weeks id m ms h = ground arith

update-goes :
    (season weeks id : ℕ) (m : PushbackMatchRow) (ms : List PushbackMatchRow)
    → may_shift season id m ≡ true
    → update_all (may_shift season id) (shift_row weeks) (m ∷ ms)
      ≡ shift_row weeks m ∷ update_all (may_shift season id) (shift_row weeks) ms
update-goes season weeks id m ms h = ground arith

planned-goes :
    (season cutoff : ℕ) (m : PushbackMatchRow) (ms : List PushbackMatchRow)
    → moves season cutoff m ≡ true
    → planned season cutoff (m ∷ ms) ≡ m.id ∷ planned season cutoff ms
planned-goes season cutoff m ms h = ground arith

planned-stays :
    (season cutoff : ℕ) (m : PushbackMatchRow) (ms : List PushbackMatchRow)
    → moves season cutoff m ≡ false
    → planned season cutoff (m ∷ ms) ≡ planned season cutoff ms
planned-stays season cutoff m ms h = ground arith

moved-goes :
    (season cutoff weeks : ℕ) (m : PushbackMatchRow)
    → moves season cutoff m ≡ true
    → moved season cutoff weeks m ≡ shift_row weeks m
moved-goes season cutoff weeks m h = ground arith

pub moved-stays :
    (season cutoff weeks : ℕ) (m : PushbackMatchRow)
    → moves season cutoff m ≡ false
    → moved season cutoff weeks m ≡ m
moved-stays season cutoff weeks m h = ground arith

-- A row whose id is not among them is left, whatever stands behind it.
shift_all-skip :
    (season weeks : ℕ) (ids : List ℕ) (m : PushbackMatchRow) (ms : List PushbackMatchRow)
    → in_ids m.id ids ≡ false
    → shift_all season weeks ids (m ∷ ms) ≡ m ∷ shift_all season weeks ids ms
shift_all-skip season weeks [] m ms h = refl
shift_all-skip season weeks (id ∷ ids) m ms h =
    let stays : may_shift season id m ≡ false = ground arith in
    ap (shift_all season weeks ids) (update-stays season weeks id m ms stays)
    ∙ shift_all-skip season weeks ids m (update_all (may_shift season id) (shift_row weeks) ms)
        (ground arith)

update-absent :
    (season weeks id : ℕ) (ms : List PushbackMatchRow)
    → has_id id ms ≡ false
    → update_all (may_shift season id) (shift_row weeks) ms ≡ ms
update-absent season weeks id [] h = refl
update-absent season weeks id (m ∷ ms) h = let ih = update-absent season weeks id ms in ground arith

planned-absent :
    (season cutoff id : ℕ) (ms : List PushbackMatchRow)
    → has_id id ms ≡ false
    → in_ids id (planned season cutoff ms) ≡ false
planned-absent season cutoff id [] h = refl
planned-absent season cutoff id (m ∷ ms) h =
    let ih = planned-absent season cutoff id ms in ground arith

may_of_moves :
    (season cutoff : ℕ) (m : PushbackMatchRow)
    → moves season cutoff m ≡ true
    → may_shift season m.id m ≡ true
may_of_moves season cutoff m h = ground arith

-- Updating the planned rows one after the other moves each of them once, and no other.
pub shift_all-planned :
    (season cutoff weeks : ℕ) (ms : List PushbackMatchRow)
    → unique_ids ms ≡ true
    → shift_all season weeks (planned season cutoff ms) ms ≡ map (moved season cutoff weeks) ms
shift_all-planned season cutoff weeks [] u = refl
shift_all-planned season cutoff weeks (m ∷ ms) u =
    let fresh : has_id m.id ms ≡ false = ground arith in
    let ih = shift_all-planned season cutoff weeks ms (ground arith) in
    let skip = planned-absent season cutoff m.id ms fresh in
    elim (Bool-cases (moves season cutoff m)) [
      | inl goes ↦
          ap (λ ids. shift_all season weeks ids (m ∷ ms)) (planned-goes season cutoff m ms goes)
          ∙ ap (shift_all season weeks (planned season cutoff ms)) (
              update-goes season weeks m.id m ms (may_of_moves season cutoff m goes)
              ∙ ap (λ l. shift_row weeks m ∷ l) (update-absent season weeks m.id ms fresh))
          ∙ shift_all-skip season weeks (planned season cutoff ms) (shift_row weeks m) ms skip
          ∙ ap (λ l. shift_row weeks m ∷ l) ih
          ∙ ap (λ x. x ∷ map (moved season cutoff weeks) ms)
              (sym (moved-goes season cutoff weeks m goes))
      | inr stays ↦
          ap (λ ids. shift_all season weeks ids (m ∷ ms)) (planned-stays season cutoff m ms stays)
          ∙ shift_all-skip season weeks (planned season cutoff ms) m ms skip
          ∙ ap (λ l. m ∷ l) ih
          ∙ ap (λ x. x ∷ map (moved season cutoff weeks) ms)
              (sym (moved-stays season cutoff weeks m stays))
    ]

-- The latest of the season's dates.
abbrev pub latest_of : ℕ → List PushbackMatchRow → Option ℕ
latest_of season [] = none
latest_of season (m ∷ ms) =
    let rest = latest_of season ms in
    if m.season_id == season then latest m.match_date rest else rest

abbrev pub in_season : ℕ → PushbackMatchRow → Bool
in_season season m = m.season_id == season

-- The ids of the plan are the planned ones.
pub plan-ids :
    (season cutoff weeks : ℕ) (ms : List PushbackMatchRow)
    → map (λ m. m.id) (partition_matches cutoff weeks (keep_if (in_season season) ms)).shifted
      ≡ planned season cutoff ms
unfolding partition_matches
plan-ids season cutoff weeks [] = refl
plan-ids season cutoff weeks (m ∷ ms) = let ih = plan-ids season cutoff weeks ms in ground arith

-- The end date of the plan is the latest date of the season once it is carried out.
pub plan-end_date :
    (season cutoff weeks : ℕ) (ms : List PushbackMatchRow)
    → (partition_matches cutoff weeks (keep_if (in_season season) ms)).new_end_date
      ≡ latest_of season (map (moved season cutoff weeks) ms)
unfolding partition_matches
plan-end_date season cutoff weeks [] = refl
plan-end_date season cutoff weeks (m ∷ ms) =
    let ih = plan-end_date season cutoff weeks ms in ground arith
