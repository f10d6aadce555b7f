-- ===== src/Scoresheet/Snapshots.antt =====
-- backend/domains/matches/round_service.go, `saveRounds`: the handicaps with which a pairing is
-- saved, its earlier ones where the match had them.
use league_app.Base.{
  ℕ, Bool, ◌&&◌, Option, none, some, List, [], ◌∷◌, length, keep_if, ◌==◌, ltb, if◌then◌else◌,
}
use league_app.Scoresheet.Spot.{Float}
use league_app.Scoresheet.Sheet.{RoundResult}
use league_app.Scoresheet.Rounds.{PairingHc}
use league_app.Scoresheet.Display.{value_or}

module _ (float : Float) where
  open float use {F}

  -- A row of `LoadPriorSnapshots`; the handicaps may be NULL.
  pub record PriorSnapshot : Type 0 where
    pub round_number : ℕ
    pub home_player_id : ℕ
    pub away_player_id : ℕ
    pub home_handicap_used : Option F
    pub away_handicap_used : Option F

  abbrev pub has_home : RoundResult → PriorSnapshot → Bool
  has_home r p = p.round_number == r.round_number && p.home_player_id == r.home_player_id

  abbrev has_away : RoundResult → PriorSnapshot → Bool
  has_away r p = p.round_number == r.round_number && p.away_player_id == r.away_player_id

  -- The first snapshot of the round with the home player (`matchedByHome`).
  unfoldable pub matched_by_home : RoundResult → List PriorSnapshot → Option PriorSnapshot
  matched_by_home r [] = none
  matched_by_home r (p ∷ ps) =
      let rest = matched_by_home r ps in if has_home r p then some p else rest

  -- The away handicap of the only match.
  abbrev only_away : List PriorSnapshot → F → F
  only_away [] current = current
  only_away (p ∷ ps) current = value_or p.away_handicap_used current

  -- With the home player's snapshot `p`.
  unfoldable pub kept_hc : (ℕ → F) → RoundResult → PriorSnapshot → PairingHc float
  kept_hc current r p = record {
    home_hc = value_or p.home_handicap_used (current r.home_player_id);
    away_hc =
        if p.away_player_id == r.away_player_id
        then value_or p.away_handicap_used (current r.away_player_id)
        else current r.away_player_id;
  }

  -- `none` where the code refuses an ambiguous snapshot.
  abbrev pub resolve_hc :
      (ℕ → F) → List PriorSnapshot → RoundResult → Option PriorSnapshot → Option (PairingHc float)
  resolve_hc current priors r (some p) = some (kept_hc current r p)
  resolve_hc current priors r none =
      if ltb 1 (length (keep_if (has_away r) priors))
      then none
      else some (record {
        home_hc = current r.home_player_id;
        away_hc = only_away (keep_if (has_away r) priors) (current r.away_player_id);
      })

  unfoldable pub effective_hc :
      (ℕ → F) → List PriorSnapshot → RoundResult → Option (PairingHc float)
  effective_hc current priors r = resolve_hc current priors r (matched_by_home r priors)

  abbrev pub cons_hc :
      Option (PairingHc float) → Option (List (PairingHc float)) → Option (List (PairingHc float))
  cons_hc (some hc) (some hcs) = some (hc ∷ hcs)
  cons_hc (some hc) none = none
  cons_hc none hcs = none

  -- `effectiveBySlot`
  unfoldable pub effective_by_slot :
      (ℕ → F) → List PriorSnapshot → List RoundResult → Option (List (PairingHc float))
  effective_by_slot current priors [] = some []
  effective_by_slot current priors (r ∷ rs) =
      cons_hc (effective_hc current priors r) (effective_by_slot current priors rs)

  -- What the save stores of a pairing's handicaps.
  abbrev pub snapshot_of : RoundResult → PairingHc float → PriorSnapshot
  snapshot_of r hc = record {
    round_number = r.round_number;
    home_player_id = r.home_player_id;
    away_player_id = r.away_player_id;
    home_handicap_used = some hc.home_hc;
    away_handicap_used = some hc.away_hc;
  }

  unfoldable pub stored : List RoundResult → List (PairingHc float) → List PriorSnapshot
  stored [] hcs = []
  stored (r ∷ rs) [] = []
  stored (r ∷ rs) (hc ∷ hcs) = snapshot_of r hc ∷ stored rs hcs
