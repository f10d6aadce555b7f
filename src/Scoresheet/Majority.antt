-- ===== src/Scoresheet/Majority.antt =====
-- The round winners of `ValidateRounds`.
use league_app.Base.{
  ℕ, suc, ◌+◌, ◌≡◌, Bool, true, false, ◌&&◌, Option, none, some, List, [], ◌∷◌, ◌==◌, leb, ◌≤◌,
  if◌then◌else◌, is_set, arith, ◌↔◌, refl, subst, sym, ◌||◌, ◌∙◌, length, keep_if,
}
use league_app.Scoresheet.Spot.{Team, home, away}
use league_app.Scoresheet.Rounds.{Outcome, is_win, round_wins, round_has_decided, round_winner}

-- The pairings of a round.
abbrev pub pairings_of : ℕ → List Outcome → ℕ
pairings_of rn [] = 0
pairings_of rn (o ∷ os) = let rest = pairings_of rn os in if o.round == rn then suc rest else rest

won_by_one : (o : Option Team) → (is_win home o && is_win away o) ≡ false
won_by_one none = ground arith
won_by_one (some home) = ground arith
won_by_one (some away) = ground arith

win-is_set : (t : Team) (o : Option Team) → is_win t o ≡ true → is_set o ≡ true
win-is_set t none e = ground arith
win-is_set home (some w) e = ground arith
win-is_set away (some w) e = ground arith

one_more :
    (b h a : Bool) (rh ra n : ℕ)
    → (h && a) ≡ false
    → rh + ra ≤ n
    → (if b && h then suc rh else rh) + (if b && a then suc ra else ra) ≤ (if b then suc n else n)
one_more b h a rh ra n e l = ground arith

wins_split :
    (rn : ℕ) (os : List Outcome) → round_wins home rn os + round_wins away rn os ≤ pairings_of rn os
unfolding round_wins
wins_split rn [] = omega arith
wins_split rn (o ∷ os) =
    one_more (o.round == rn) (is_win home o.winner) (is_win away o.winner) (round_wins home rn os)
      (round_wins away rn os) (pairings_of rn os) (won_by_one o.winner) (wins_split rn os)

decided_step :
    (b w s d : Bool) (n : ℕ)
    → (w ≡ true → s ≡ true)
    → (1 ≤ n → d ≡ true)
    → 1 ≤ (if b && w then suc n else n)
    → ((b && s) || d) ≡ true
decided_step b w s d n ws nd l = ground arith

wins-decided :
    (t : Team) (rn : ℕ) (os : List Outcome)
    → 1 ≤ round_wins t rn os
    → round_has_decided rn os ≡ true
unfolding round_wins round_has_decided
wins-decided t rn [] l = ground arith
wins-decided t rn (o ∷ os) l =
    decided_step (o.round == rn) (is_win t o.winner) (is_set o.winner) (round_has_decided rn os)
      (round_wins t rn os) (win-is_set t o.winner) (wins-decided t rn os) l

majority :
    (d : Bool) (h a n : ℕ) (t : Team)
    → (1 ≤ h → d ≡ true)
    → (1 ≤ a → d ≡ true)
    → h + a ≤ n
    → n ≤ 3
    → ((if d then if leb 2 h then some home else if leb 2 a then some away else none else none)
        ≡ some t)
      ↔ (2 ≤ elim t [ home ↦ h | away ↦ a ])
majority d h a n t hd ad l b = ground arith

wins_of :
    (t : Team) (rn : ℕ) (os : List Outcome)
    → elim t [ home ↦ round_wins home rn os | away ↦ round_wins away rn os ] ≡ round_wins t rn os
wins_of home rn os = refl
wins_of away rn os = refl

-- The winner of a pairing is the team.
abbrev pub names : Team → Option Team → Bool
names home (some home) = true
names away (some away) = true
names _ _ = false

-- The pairings of a round that a team won.
abbrev pub pairings_won : Team → ℕ → List Outcome → ℕ
pairings_won t rn os = length (keep_if (λ o. (o.round == rn) && names t o.winner) os)

names-is_win : (t : Team) (o : Option Team) → is_win t o ≡ names t o
names-is_win home none = refl
names-is_win away none = refl
names-is_win home (some home) = refl
names-is_win home (some away) = refl
names-is_win away (some home) = refl
names-is_win away (some away) = refl

round_wins-pairings_won :
    (t : Team) (rn : ℕ) (os : List Outcome) → round_wins t rn os ≡ pairings_won t rn os
unfolding round_wins
round_wins-pairings_won t rn [] = refl
round_wins-pairings_won t rn (o ∷ os) =
    let ih = round_wins-pairings_won t rn os in let e = names-is_win t o.winner in ground arith

-- In a round of at most three pairings, a team is the round's winner exactly if it is the winner of
-- two or more of them.
pub round_winner-majority :
    (os : List Outcome) (rn : ℕ) (t : Team)
    → pairings_of rn os ≤ 3
    → (round_winner os rn ≡ some t) ↔ (2 ≤ pairings_won t rn os)
unfolding round_winner
round_winner-majority os rn t l =
    let e = wins_of t rn os ∙ round_wins-pairings_won t rn os in
    let m =
      majority (round_has_decided rn os) (round_wins home rn os) (round_wins away rn os)
        (pairings_of rn os) t (wins-decided home rn os) (wins-decided away rn os) (wins_split rn os)
        l in
    (λ h. subst (λ k. 2 ≤ k) e (m.0 h), λ h. m.1 (subst (λ k. 2 ≤ k) (sym e) h))
