-- ===== src/Scoresheet/Resave.antt =====
-- Saving a sheet again keeps the handicaps that it was saved with.
use league_app.Base.{
  ℕ, ◌≡◌, refl, Bool, true, false, not, ◌&&◌, some, List, [], ◌∷◌, length, forall_in, ◌==◌,
  if◌then◌else◌, arith, ap, ◌∙◌,
}
use league_app.Scoresheet.Spot.{Float}
use league_app.Scoresheet.Sheet.{RoundResult}
use league_app.Scoresheet.Rounds.{PairingHc}
use league_app.Scoresheet.Snapshots.{
  PriorSnapshot, matched_by_home, kept_hc, effective_hc, cons_hc, resolve_hc, effective_by_slot,
  snapshot_of, stored,
}

-- Two pairings of one round with one home player.
abbrev same_home : RoundResult → RoundResult → Bool
same_home r q = q.round_number == r.round_number && q.home_player_id == r.home_player_id

-- No home player stands in two pairings of one round.
abbrev pub homes_differ : List RoundResult → Bool
homes_differ [] = true
homes_differ (r ∷ rs) = forall_in (λ q. not (same_home q r)) rs && homes_differ rs

first_matches {ℓ} : {A : Type ℓ} (a b : ℕ) (x y : A) → (if a == a && b == b then x else y) ≡ x
first_matches a b x y = ground arith

rest_matches {ℓ} :
    {A : Type ℓ} (t : Bool) (x y z : A) → t ≡ false → y ≡ z → (if t then x else y) ≡ z
rest_matches true x y z e h = ground arith
rest_matches false x y z e h = h

not_left : (b c : Bool) → (not b && c) ≡ true → b ≡ false
not_left b c e = ground arith

and_left : (b c : Bool) → (b && c) ≡ true → b ≡ true
and_left b c e = ground arith

and_right : (b c : Bool) → (b && c) ≡ true → c ≡ true
and_right b c e = ground arith

same_number {ℓ} : {A : Type ℓ} (n : ℕ) (x y : A) → (if n == n then x else y) ≡ x
same_number n x y = ground arith

module _ (float : Float) where
  open float use {F}

  data Paired (r : RoundResult) (hc : PairingHc float)
      : List RoundResult → List (PairingHc float) → Type 0 where
    here : {rs : List RoundResult} {hcs : List (PairingHc float)} → Paired r hc (r ∷ rs) (hc ∷ hcs)
    there :
        {q : RoundResult} {k : PairingHc float} {rs : List RoundResult}
        {hcs : List (PairingHc float)}
        → Paired r hc rs hcs
        → Paired r hc (q ∷ rs) (k ∷ hcs)

  differs :
      (r q : RoundResult) (hc : PairingHc float) (rs : List RoundResult)
      (hcs : List (PairingHc float))
      → forall_in (λ p. not (same_home p q)) rs ≡ true
      → Paired r hc rs hcs
      → same_home r q ≡ false
  differs r q hc [] hcs e g = elim g [ ]
  differs r q hc (p ∷ rs) [] e g = elim g [ ]
  differs r q hc (p ∷ rs) (k ∷ hcs) e here = not_left (same_home r q) _ e
  differs r q hc (p ∷ rs) (k ∷ hcs) e (there g) =
      differs r q hc rs hcs (and_right (not (same_home p q)) _ e) g

  matched_here :
      (r : RoundResult) (hc : PairingHc float) (rs : List RoundResult)
      (hcs : List (PairingHc float))
      → homes_differ rs ≡ true
      → Paired r hc rs hcs
      → matched_by_home float r (stored float rs hcs) ≡ some (snapshot_of float r hc)
  unfolding matched_by_home stored
  matched_here r hc [] hcs e g = elim g [ ]
  matched_here r hc (q ∷ rs) [] e g = elim g [ ]
  matched_here r hc (q ∷ rs) (k ∷ hcs) e here = first_matches r.round_number r.home_player_id _ _
  matched_here r hc (q ∷ rs) (k ∷ hcs) e (there g) =
      let d = differs r q hc rs hcs (and_left _ (homes_differ rs) e) g in
      let ih = matched_here r hc rs hcs (and_right _ (homes_differ rs) e) g in
      rest_matches (same_home r q) _ _ _ d ih

  abbrev with_away : PairingHc float → F → PairingHc float
  with_away hc z = record { home_hc = hc.home_hc; away_hc = z }

  kept_same :
      (current : ℕ → F) (r : RoundResult) (hc : PairingHc float)
      → kept_hc float current r (snapshot_of float r hc) ≡ hc
  unfolding kept_hc
  kept_same current r hc =
      ap (with_away hc) (same_number r.away_player_id hc.away_hc (current r.away_player_id))

  slots_kept :
      (current : ℕ → F) (priors : List (PriorSnapshot float)) (rs : List RoundResult)
      (hcs : List (PairingHc float))
      → length hcs ≡ length rs
      → ((r : RoundResult) (hc : PairingHc float)
          → Paired r hc rs hcs
          → matched_by_home float r priors ≡ some (snapshot_of float r hc))
      → effective_by_slot float current priors rs ≡ some hcs
  unfolding effective_by_slot effective_hc
  slots_kept current priors [] [] l m = refl
  slots_kept current priors [] (hc ∷ hcs) l m = ground arith
  slots_kept current priors (r ∷ rs) [] l m = ground arith
  slots_kept current priors (r ∷ rs) (hc ∷ hcs) l m =
      let ih = slots_kept current priors rs hcs (ground arith) (λ q k g. m q k (there g)) in
      let e = ap (resolve_hc float current priors r) (m r hc here) in
      let k = ap some (kept_same current r hc) in
      ap (λ o. cons_hc float o (effective_by_slot float current priors rs)) (e ∙ k)
      ∙ ap (cons_hc float (some hc)) ih

  -- If no home player stands in two pairings of one round, then saving the same pairings again, with
  -- the snapshots that a save with the handicaps `hcs` (one pair a pairing) stored, finds exactly those handicaps,
  -- whatever the players' current handicaps are.
  pub effective_by_slot-stored :
      (current : ℕ → F) (rounds : List RoundResult) (hcs : List (PairingHc float))
      → length hcs ≡ length rounds
      → homes_differ rounds ≡ true
      → effective_by_slot float current (stored float rounds hcs) rounds ≡ some hcs
  effective_by_slot-stored current rounds hcs l d =
      slots_kept current (stored float rounds hcs) rounds hcs l
        (λ r hc g. matched_here r hc rounds hcs d g)
