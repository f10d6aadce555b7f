-- ===== src/Scoresheet/Growth.antt =====
-- A sheet that goes on: the tally of a pairing grows with each decided game.
use league_app.Base.{
  suc, ◌+◌, ◌-◌, ◌*◌, ◌≡◌, refl, Option, none, some, ◌⊎◌, inl, inr, pos, ◌+ℤ◌, ◌≤ℤ◌, subst, sym,
  arith, int_laws, ◌≤◌,
}
use league_app.Scoresheet.Spot.{Team, home, away}
use league_app.Scoresheet.Sheet.{RoundResult, Score, Tally, add_game, no_games, game_winner, tally}

-- The tally t' has all of t and further games, each of 0 to 10 points a side.
pub record Grows (t t' : Tally) : Type 0 where
  pub played : t.played ≤ t'.played
  pub home_up : t.raw_home ≤ℤ t'.raw_home
  pub away_up : t.raw_away ≤ℤ t'.raw_away
  pub home_most : t'.raw_home ≤ℤ (t.raw_home +ℤ pos ((t'.played - t.played) * 10))
  pub away_most : t'.raw_away ≤ℤ (t.raw_away +ℤ pos ((t'.played - t.played) * 10))
  pub home_games : t.home_games ≤ t'.home_games
  pub away_games : t.away_games ≤ t'.away_games
  pub won : t.home_games + t.away_games ≡ t.played
  pub won' : t'.home_games + t'.away_games ≡ t'.played

-- A game of the finished sheet: as it was, or one that was not decided and is now in range.
abbrev pub IsLater : Score → Score → Type 0
IsLater s s' =
    (s' ≡ s)
    ⊎ (game_winner s ≡ none)
      × (pos 0 ≤ℤ s'.h)
      × (s'.h ≤ℤ pos 10)
      × (pos 0 ≤ℤ s'.a)
      × (s'.a ≤ℤ pos 10)

same_game :
    (t t' : Tally) (s : Score) (w : Option Team)
    → Grows t t'
    → Grows (add_game t s w) (add_game t' s w)
same_game t t' s none g = g
same_game t t' s (some home) g = record {
  played = omega (arith, g.played);
  home_up = omega (int_laws, g.home_up);
  away_up = omega (int_laws, g.away_up);
  home_most = omega (int_laws, g.home_most, g.played);
  away_most = omega (int_laws, g.away_most, g.played);
  home_games = omega (arith, g.home_games);
  away_games = g.away_games;
  won = omega (arith, g.won);
  won' = omega (arith, g.won');
}
same_game t t' s (some away) g = record {
  played = omega (arith, g.played);
  home_up = omega (int_laws, g.home_up);
  away_up = omega (int_laws, g.away_up);
  home_most = omega (int_laws, g.home_most, g.played);
  away_most = omega (int_laws, g.away_most, g.played);
  home_games = g.home_games;
  away_games = omega (arith, g.away_games);
  won = omega (arith, g.won);
  won' = omega (arith, g.won');
}

new_game :
    (t t' : Tally) (s : Score) (w : Option Team)
    → pos 0 ≤ℤ s.h
    → s.h ≤ℤ pos 10
    → pos 0 ≤ℤ s.a
    → s.a ≤ℤ pos 10
    → Grows t t'
    → Grows t (add_game t' s w)
new_game t t' s none h1 h2 a1 a2 g = g
new_game t t' s (some home) h1 h2 a1 a2 g = record {
  played = omega (arith, g.played);
  home_up = omega (int_laws, g.home_up);
  away_up = omega (int_laws, g.away_up);
  home_most = omega (int_laws, g.home_most, g.played);
  away_most = omega (int_laws, g.away_most, g.played);
  home_games = omega (arith, g.home_games);
  away_games = g.away_games;
  won = g.won;
  won' = omega (arith, g.won');
}
new_game t t' s (some away) h1 h2 a1 a2 g = record {
  played = omega (arith, g.played);
  home_up = omega (int_laws, g.home_up);
  away_up = omega (int_laws, g.away_up);
  home_most = omega (int_laws, g.home_most, g.played);
  away_most = omega (int_laws, g.away_most, g.played);
  home_games = g.home_games;
  away_games = omega (arith, g.away_games);
  won = g.won;
  won' = omega (arith, g.won');
}

pub later_game :
    (t t' : Tally) (s s' : Score)
    → IsLater s s'
    → Grows t t'
    → Grows (add_game t s (game_winner s)) (add_game t' s' (game_winner s'))
later_game t t' s s' (inl e) g =
    subst (λ u. Grows (add_game t s (game_winner s)) (add_game t' u (game_winner u))) (sym e)
      (same_game t t' s (game_winner s) g)
later_game t t' s s' (inr (u, h1, h2, a1, a2)) g =
    subst (λ w. Grows (add_game t s w) (add_game t' s' (game_winner s'))) (sym u)
      (new_game t t' s' (game_winner s') h1 h2 a1 a2 g)

pub add_game-played :
    (t : Tally) (s : Score) (w : Option Team) → (add_game t s w).played ≤ suc t.played
add_game-played t s none = omega arith
add_game-played t s (some home) = omega arith
add_game-played t s (some away) = omega arith

pub tally-played : (r : RoundResult) → (tally r).played ≤ 3
unfolding tally
tally-played r = omega (
  arith,
  add_game-played no_games r.game1 (game_winner r.game1),
  add_game-played (add_game no_games r.game1 (game_winner r.game1)) r.game2 (game_winner r.game2),
  add_game-played
      (add_game (add_game no_games r.game1 (game_winner r.game1)) r.game2 (game_winner r.game2))
      r.game3 (game_winner r.game3),
)

pub no_growth_yet : Grows no_games no_games
no_growth_yet = record {
  played = omega arith;
  home_up = omega arith;
  away_up = omega arith;
  home_most = omega int_laws;
  away_most = omega int_laws;
  home_games = omega arith;
  away_games = omega arith;
  won = refl;
  won' = refl;
}
