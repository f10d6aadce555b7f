-- ===== src/Scoresheet/EarlyStop.antt =====
-- The early stop of `ValidateRounds`: a pairing decided before all its games are played.
use league_app.Base.{
  ℕ, ◌-◌, ◌*◌, ◌≡◌, Bool, true, false, Option, none, some, ◌==◌, if◌then◌else◌, ℤ, pos, ◌+ℤ◌, ◌≤ℤ◌,
  ltb_ℤ, arith, ltb, ◌≤◌,
}
use league_app.Scoresheet.Spot.{Team, home, away}
use league_app.Scoresheet.Sheet.{
  RoundResult, Tally, tally, Adjustment, add_home, add_away, decide_pairing, tally_winner,
  pairing_winner, tiebreak,
}
use league_app.Scoresheet.Growth.{Grows, IsLater, later_game, tally-played, no_growth_yet}
use league_app.Scoresheet.Leads.{lead_kept, one_lead, shifted_up, shifted_most, no_growth}

-- What the tests of the `switch` find; `h` and `a` are the leads over what remains.
abbrev switch : Bool → Bool → Tally → Option Team
switch h a t =
    if h then some home else if a then some away else if 3 - t.played == 0 then tiebreak t else none

switch_kept :
    (h a h' a' : Bool) (t t' : Tally) (w : Team)
    → (h ≡ true → h' ≡ true)
    → (a ≡ true → a' ≡ true)
    → (h' ≡ true → a' ≡ false)
    → (t.played ≡ t'.played → (h' ≡ h) × (a' ≡ a))
    → t'.played ≤ 3
    → Grows t t'
    → switch h a t ≡ some w
    → switch h' a' t' ≡ some w
switch_kept h a h' a' t t' w hk ak ex eq l g e =
    let p = g.played in
    let q = g.home_games in let r = g.away_games in let u = g.won in let u' = g.won' in ground arith

abbrev spot_of : Option Team → ℤ → Adjustment
spot_of t c = record { to = t; pts = c }

home_shift :
    (o : Option Team) (c : ℤ) (t t' : Tally)
    → Grows t t'
    → (add_home (spot_of o c) t.raw_home ≤ℤ add_home (spot_of o c) t'.raw_home)
      × (add_home (spot_of o c) t'.raw_home
          ≤ℤ (add_home (spot_of o c) t.raw_home +ℤ pos ((t'.played - t.played) * 10)))
home_shift none c t t' g = (g.home_up, g.home_most)
home_shift (some home) c t t' g = (
  shifted_up t.raw_home t'.raw_home c g.home_up,
  shifted_most t.raw_home t'.raw_home c _ g.home_most,
)
home_shift (some away) c t t' g = (g.home_up, g.home_most)

away_shift :
    (o : Option Team) (c : ℤ) (t t' : Tally)
    → Grows t t'
    → (add_away (spot_of o c) t.raw_away ≤ℤ add_away (spot_of o c) t'.raw_away)
      × (add_away (spot_of o c) t'.raw_away
          ≤ℤ (add_away (spot_of o c) t.raw_away +ℤ pos ((t'.played - t.played) * 10)))
away_shift none c t t' g = (g.away_up, g.away_most)
away_shift (some away) c t t' g = (
  shifted_up t.raw_away t'.raw_away c g.away_up,
  shifted_most t.raw_away t'.raw_away c _ g.away_most,
)
away_shift (some home) c t t' g = (g.away_up, g.away_most)

some_branch :
    (p q : ℕ) (o o' : Option Team) (w : Team)
    → p ≤ q
    → (o ≡ some w → o' ≡ some w)
    → (if ltb 0 p then o else none) ≡ some w
    → (if ltb 0 q then o' else none) ≡ some w
some_branch p q o o' w l k e = ground arith

decide_kept :
    (H A H' A' : ℤ) (t t' : Tally) (w : Team)
    → (H ≤ℤ H') × (H' ≤ℤ (H +ℤ pos ((t'.played - t.played) * 10)))
    → (A ≤ℤ A') × (A' ≤ℤ (A +ℤ pos ((t'.played - t.played) * 10)))
    → t'.played ≤ 3
    → Grows t t'
    → decide_pairing t H A (3 - t.played) ≡ some w
    → decide_pairing t' H' A' (3 - t'.played) ≡ some w
unfolding decide_pairing
decide_kept H A H' A' t t' w (hu, hm) (au, am) l g e =
    switch_kept (ltb_ℤ (A +ℤ pos ((3 - t.played) * 10)) H)
      (ltb_ℤ (H +ℤ pos ((3 - t.played) * 10)) A) (ltb_ℤ (A' +ℤ pos ((3 - t'.played) * 10)) H')
      (ltb_ℤ (H' +ℤ pos ((3 - t'.played) * 10)) A') t t' w
      (lead_kept H A H' A' t.played t'.played g.played l hu am)
      (lead_kept A H A' H' t.played t'.played g.played l au hm)
      (one_lead H' A' ((3 - t'.played) * 10))
      (λ q.
        let eh = no_growth H H' t.played t'.played q hu hm in
        let ea = no_growth A A' t.played t'.played q au am in (cc, cc))
      l g e

tally_kept :
    (s : Adjustment) (t t' : Tally) (w : Team)
    → t'.played ≤ 3
    → Grows t t'
    → tally_winner s t ≡ some w
    → tally_winner s t' ≡ some w
unfolding tally_winner
tally_kept s t t' w l g =
    let p = g.played in
    let k =
      decide_kept (add_home s t.raw_home) (add_away s t.raw_away) (add_home s t'.raw_home)
        (add_away s t'.raw_away) t t' w (home_shift s.to s.pts t t' g)
        (away_shift s.to s.pts t t' g) l g in
    some_branch t.played t'.played _ _ w p k

-- If a pairing has a winner before all its games are decided, then it has that winner however the
-- undecided games end, each with 0 to 10 points a side, and whatever spot was given.
pub pairing_winner-final :
    (s : Adjustment) (r r' : RoundResult) (w : Team)
    → IsLater r.game1 r'.game1
    → IsLater r.game2 r'.game2
    → IsLater r.game3 r'.game3
    → pairing_winner s r ≡ some w
    → pairing_winner s r' ≡ some w
unfolding pairing_winner tally
pairing_winner-final s r r' w l1 l2 l3 = tally_kept s (tally r) (tally r') w (tally-played r') (
    later_game _ _ r.game3 r'.game3 l3
      (later_game _ _ r.game2 r'.game2 l2 (later_game _ _ r.game1 r'.game1 l1 no_growth_yet)))
