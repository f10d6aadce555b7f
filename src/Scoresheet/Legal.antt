-- ===== src/Scoresheet/Legal.antt =====
-- The scoresheets that `ValidateRounds` lets through: an independent description of a legal sheet.
use league_app.Base.{
  ℕ, suc, ◌≡◌, refl, Bool, true, false, not, ◌&&◌, ◌||◌, List, [], ◌∷◌, ◌++◌, ◌≤◌, subst, ◌==◌,
  if◌then◌else◌, length, exists_in-append, ℤ, pos, negsuc, ltb_ℤ, arith, ◌↔◌, Bool-cases, ==_iff,
  inl, inr, sym, ap, ◌∙◌,
}
use league_app.Scoresheet.Spot.{Float, home, away}
use league_app.Scoresheet.Sheet.{
  Message, is_error, has_errors, add_error, add_warning, score_range, loser_range, both_winners,
  game_incomplete, game, game_of, sheet, no_scores, hc_length_mismatch, when, out_of_range, Score,
  is_ten, game_messages, RoundResult,
}
use league_app.Scoresheet.Rounds.{
  any_score, pairing_messages, messages_from, validate_rounds, RoundConfig, PairingHc,
  ScoresheetResult,
}

-- A game not decided, or won by one side with 10 points against at most 7.
pub data IsLegal : Score → Type 0 where
  open_game : (h a : ℕ) → h ≤ 9 → a ≤ 9 → IsLegal (record { h = pos h; a = pos a })
  home_won : (a : ℕ) → a ≤ 7 → IsLegal (record { h = pos 10; a = pos a })
  away_won : (h : ℕ) → h ≤ 7 → IsLegal (record { h = pos h; a = pos 10 })

abbrev bad : ℤ → ℤ → Bool
bad h a =
    out_of_range h
    || (out_of_range a
        || ((is_ten h && is_ten a)
            || ((is_ten h && ltb_ℤ (pos 7) a) || (is_ten a && ltb_ℤ (pos 7) h))))

has_errors-when : (b : Bool) (m : Message) → has_errors (when b m) ≡ (b && is_error m)
has_errors-when b m = ground arith

ruleset err_rules = (exists_in-append, has_errors-when)

-- The errors of a game, over what its tests find.
errors_found :
    (i n : ℕ) (oh oa th ta la lh un : Bool)
    → has_errors (
        when oh (add_error score_range (game_of i n home))
        ++ (when oa (add_error score_range (game_of i n away))
            ++ (if th && ta
                then add_error both_winners (game i n) ∷ []
                else when (th && la) (add_error loser_range (game_of i n away))
                  ++ (when (ta && lh) (add_error loser_range (game_of i n home))
                      ++ when un (add_warning game_incomplete (game i n))))))
      ≡ (oh || (oa || ((th && ta) || ((th && la) || (ta && lh)))))
errors_found i n oh oa th ta la lh un = ground arith

game_errors : (i n : ℕ) (s : Score) → has_errors (game_messages i n s) ≡ bad s.h s.a
unfolding game_messages
game_errors i n s =
    errors_found i n (out_of_range s.h) (out_of_range s.a) (is_ten s.h) (is_ten s.a)
      (ltb_ℤ (pos 7) s.a) (ltb_ℤ (pos 7) s.h)
      (not (is_ten s.h) && (not (is_ten s.a) && (ltb_ℤ (pos 0) s.h || ltb_ℤ (pos 0) s.a)))

good_of_legal : (s : Score) → IsLegal s → bad s.h s.a ≡ false
good_of_legal s (open_game h a p q) = ground arith
good_of_legal s (home_won a p) = ground arith
good_of_legal s (away_won h p) = ground arith

good-IsLegal : (h a : ℤ) → bad h a ≡ false → IsLegal (record { h = h; a = a })
good-IsLegal (negsuc h) a e = absurd (ground arith)
good-IsLegal (pos h) (negsuc a) e = absurd (ground arith)
good-IsLegal (pos h) (pos a) e = elim (Bool-cases (h == 10)) [
  | inl t ↦
      subst (λ k. IsLegal (record { h = pos k; a = pos a })) (sym ((==_iff h 10).0 t))
        (home_won a (ground arith))
  | inr f ↦ elim (Bool-cases (a == 10)) [
    | inl t ↦
        subst (λ k. IsLegal (record { h = pos h; a = pos k })) (sym ((==_iff a 10).0 t))
          (away_won h (ground arith))
    | inr g ↦ open_game h a (ground arith) (ground arith)
  ]
]

-- Both players' scores of the three games.
abbrev pub PairingIsLegal : RoundResult → Type 0
PairingIsLegal r = IsLegal r.game1 × IsLegal r.game2 × IsLegal r.game3

pub data SheetIsLegal : List RoundResult → Type 0 where
  nil : SheetIsLegal []
  cons :
      {r : RoundResult} {rs : List RoundResult}
      → PairingIsLegal r
      → SheetIsLegal rs
      → SheetIsLegal (r ∷ rs)

or_false : (a b : Bool) → ((a || b) ≡ false) ↔ (a ≡ false) × (b ≡ false)
or_false a b = ground arith

game_iff : (i n : ℕ) (s : Score) → (has_errors (game_messages i n s) ≡ false) ↔ IsLegal s
game_iff i n s = (
  λ e. good-IsLegal s.h s.a (sym (game_errors i n s) ∙ e),
  λ l. game_errors i n s ∙ good_of_legal s l,
)

pairing_iff :
    (i : ℕ) (r : RoundResult) → (has_errors (pairing_messages i r) ≡ false) ↔ PairingIsLegal r
unfolding pairing_messages
pairing_iff i r =
    let e1 =
      exists_in-append is_error (game_messages i 1 r.game1)
        (game_messages i 2 r.game2 ++ game_messages i 3 r.game3) in
    let e2 = exists_in-append is_error (game_messages i 2 r.game2) (game_messages i 3 r.game3) in
    let g1 = game_iff i 1 r.game1 in
    let g2 = game_iff i 2 r.game2 in let g3 = game_iff i 3 r.game3 in ground arith

messages_iff :
    (i : ℕ) (rs : List RoundResult) → (has_errors (messages_from i rs) ≡ false) ↔ SheetIsLegal rs
unfolding messages_from
messages_iff i [] = (λ e. nil, λ l. refl)
messages_iff i (r ∷ rs) =
    let e = exists_in-append is_error (pairing_messages i r) (messages_from (suc i) rs) in
    let p = or_false (has_errors (pairing_messages i r)) (has_errors (messages_from (suc i) rs)) in
    (
      λ h.
          let q = p.0 (sym e ∙ h) in
          cons ((pairing_iff i r).0 q.0) ((messages_iff (suc i) rs).0 q.1),
      elim [ cons l ls ↦ e ∙ p.1 ((pairing_iff i r).1 l, (messages_iff (suc i) rs).1 ls) ],
    )

sheet_errors :
    (float : Float) (same any : Bool) (msgs : List Message) (x y : ScoresheetResult float)
    → x.messages ≡ (if any then [] else add_warning no_scores sheet ∷ []) ++ msgs
    → y.messages ≡ add_error hc_length_mismatch sheet ∷ []
    → has_errors (if same then x else y).messages ≡ (not same || has_errors msgs)
sheet_errors float true true msgs x y hx hy = ap has_errors hx
sheet_errors float true false msgs x y hx hy = ap has_errors hx
sheet_errors float false any msgs x y hx hy = ap has_errors hy

verdict : (m n : ℕ) (e : Bool) → ((not (m == n) || e) ≡ false) ↔ (m ≡ n) × (e ≡ false)
verdict m n e = ground arith

-- A sheet is let through (no message is an error) exactly if there is one pair of handicaps for each
-- pairing and every game is undecided with at most 9 points a side or won with 10 against at most 7.
pub validate_rounds-errors :
    (float : Float) (rounds : List RoundResult) (pairing_hc : List (PairingHc float))
    (cfg : RoundConfig float)
    → (has_errors (validate_rounds float rounds pairing_hc cfg).messages ≡ false)
      ↔ (length pairing_hc ≡ length rounds) × SheetIsLegal rounds
unfolding validate_rounds
validate_rounds-errors float rounds pairing_hc cfg =
    let os =
      sheet_errors float (length pairing_hc == length rounds) (any_score rounds)
        (messages_from 0 rounds) _ _ refl refl in
    let v = verdict (length pairing_hc) (length rounds) (has_errors (messages_from 0 rounds)) in
    let m = messages_iff 0 rounds in
    (λ h. ((v.0 (sym os ∙ h)).0, m.0 (v.0 (sym os ∙ h)).1), λ h. os ∙ v.1 (h.0, m.1 h.1))
