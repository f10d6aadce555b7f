-- ===== src/Approval/Actions.antt =====
-- The team actions of the players (team_approval_service.go): what each may do, and that it does
-- nothing else.
use league_app.Base.{ℕ, String, str_eq, ◌≡◌, refl, true, false, some, arith}
use league_app.Effects.{ok, err, Result, M, ◌>>◌, map_err}
use league_app.Effects.Logic.{
  Ends, Either, Ends-require, Ends-fail_if, Ends-map_err, Ends-mono, Either-map,
}
use league_app.Approval.Db.{
  Db, TeamSide, approved, correction_requested, approved_event, withdrawn,
  correction_requested_event, eligible,
}
use league_app.Approval.Guards.{map_team_action_guard}
use league_app.Approval.Store
use league_app.Approval.Store.{Actor, acted_side, actor_event, scored_guard, approved_guard}
use league_app.Approval.Service.{
  SideText, side_text, other_text, valid_side, check_team_action, approve_team_side,
  withdraw_team_approval, request_correction,
}
use league_app.Approval.Promises.{scored_at, approved_by, put_side, spoken, unspoken, spoken_event}
use league_app.Approval.Rules.{Acts, act_rule, check_team_action_rule}

-- An eligible player acted for one side: `did side d` says what that did.
pub record ActedFor (s : Db) (id : ℕ) (text : SideText) (actor : Actor)
    (did : TeamSide → Db → Type 0) (d : Db) : Type 0 where
  pub side : TeamSide
  pub player : ℕ
  pub named : text ≡ side_text side
  pub linked : actor.player_id ≡ some player
  pub is_eligible : eligible id side player s ≡ true
  pub done : did side d

valid_side-eq-some :
    (t : SideText) (side : TeamSide) → valid_side t ≡ some side → t ≡ side_text side
valid_side-eq-some (side_text x) side e = ground arith
valid_side-eq-some other_text side e = ground arith

abbrev Outcome :
    Db → ℕ → SideText → Actor → (TeamSide → Db → Type 0) → Result (Unit {0}) → Db → Type 0
Outcome s id text actor did r d = Either r (λ _. ActedFor s id text actor did d) (λ _. d ≡ s)

-- The part that the three actions share, from the eligibility check on.
act_for_rule :
    {s : Db} (id : ℕ) (text : SideText) (actor : Actor) (did : TeamSide → Db → Type 0)
    (side : TeamSide) (player : ℕ) (act : M Db (Unit {0}))
    → valid_side text ≡ some side
    → actor.player_id ≡ some player
    → Ends s act (λ r d. Either r (λ _. did side d) (λ _. d ≡ s))
    → Ends s
        (check_team_action id side player >> map_err map_team_action_guard act)
        (Outcome s id text actor did)
act_for_rule {s} id text actor did side player act valid linked acts =
    check_team_action_rule (λ _. refl) id side player _
      λ can. Ends-map_err _ act (Ends-mono acts λ r d. pack r d can)
  where
    pack :
        (r : Result (Unit {0})) (d : Db)
        → eligible id side player s ≡ true
        → Either r (λ _. did side d) (λ _. d ≡ s)
        → Either r (λ _. ActedFor s id text actor did d) (λ _. d ≡ s)
    pack (err x) d can h = h
    pack (ok x) d can h = record {
      side = side;
      player = player;
      named = valid_side-eq-some text side valid;
      linked = linked;
      is_eligible = can;
      done = h;
    }

abbrev pub Approves : ℕ → ℕ → Actor → Db → TeamSide → Db → Type 0
Approves id expected actor s side =
    Acts s id (scored_at expected) (λ now. put_side side (spoken approved now actor expected ""))
      (spoken_event id side approved_event expected actor "")

abbrev pub Withdraws : ℕ → ℕ → Actor → Db → TeamSide → Db → Type 0
Withdraws id expected actor s side =
    Acts s id (approved_by expected side) (λ now. put_side side (unspoken now))
      (spoken_event id side withdrawn expected actor "")

abbrev pub Corrects : ℕ → ℕ → String → Actor → Db → TeamSide → Db → Type 0
Corrects id expected note actor s side =
    Acts s id (scored_at expected)
      (λ now. put_side side (spoken correction_requested now actor expected note))
      (spoken_event id side correction_requested_event expected actor note)

pub approve_team_side_rule :
    (s : Db) (id : ℕ) (text : SideText) (expected : ℕ) (actor : Actor)
    → Ends s
        (approve_team_side id text expected actor)
        (Outcome s id text actor (Approves id expected actor s))
unfolding approve_team_side Store.approve_team_side
approve_team_side_rule s id text expected actor =
    Ends-require _ _ _ (λ _. refl)
      λ side valid.
        Ends-require _ _ _ (λ _. refl)
          λ player linked.
            act_for_rule id text actor _ side player _ valid linked (act_rule id _ _ _ _)

pub withdraw_team_approval_rule :
    (s : Db) (id : ℕ) (text : SideText) (expected : ℕ) (actor : Actor)
    → Ends s
        (withdraw_team_approval id text expected actor)
        (Outcome s id text actor (Withdraws id expected actor s))
unfolding withdraw_team_approval Store.withdraw_team_approval
withdraw_team_approval_rule s id text expected actor =
    Ends-require _ _ _ (λ _. refl)
      λ side valid.
        Ends-require _ _ _ (λ _. refl)
          λ player linked.
            act_for_rule id text actor _ side player _ valid linked (act_rule id _ _ _ _)

pub request_correction_rule :
    (trim : String → String) (s : Db) (id : ℕ) (text : SideText) (expected : ℕ) (note : String)
    (actor : Actor)
    → Ends s (request_correction trim id text expected note actor) (
        Outcome s id text actor
          (λ side d. (str_eq (trim note) "" ≡ false) × Corrects id expected note actor s side d))
unfolding request_correction Store.request_correction
request_correction_rule trim s id text expected note actor =
    Ends-require _ _ _ (λ _. refl)
      λ side valid.
        Ends-fail_if _ _ _ (λ _. refl)
          λ given.
            Ends-require _ _ _ (λ _. refl)
              λ player linked.
                act_for_rule id text actor _ side player _ valid linked
                  (Ends-mono (act_rule id _ _ _ _) λ r d. Either-map _ r (λ _ h. (given, h)))
