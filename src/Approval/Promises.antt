-- ===== src/Approval/Promises.antt =====
-- The terms in which the effects of the requests are stated, apart from the code's own helpers.
use league_app.Base.{ℕ, String, Bool, ◌&&◌, none, some, ◌==◌}
use league_app.Approval.Db.{
  Db, MatchRow, Side, SideState, pending, approved, TeamSide, home, away, Event, EventType,
  side_scope, state_eq, side_of, still_editable,
}
use league_app.Approval.Store.{Actor}

-- The row has scores of that revision, and may still be edited.
abbrev pub scored_at : ℕ → Db → MatchRow → Bool
scored_at expected s r = r.score_revision == expected && (r.completed && still_editable s r)

-- The row has that revision, may still be edited, and the side has approved it.
abbrev pub approved_by : ℕ → TeamSide → Db → MatchRow → Bool
approved_by expected side s r =
    r.score_revision == expected && (state_eq (side_of side r).state approved && still_editable s r)

-- The row with another home side, or another away side.
abbrev pub put_side : TeamSide → Side → MatchRow → MatchRow
put_side home s r = record r { home_side = s }
put_side away s r = record r { away_side = s }

-- A side on which the actor has spoken about a revision.
abbrev pub spoken : SideState → ℕ → Actor → ℕ → String → Side
spoken state now actor revision note = record {
  state = state;
  state_at = some now;
  actor_user_id = actor.user_id;
  actor_player_id = actor.player_id;
  actor_name_snapshot = actor.name_snapshot;
  state_score_revision = some revision;
  correction_note = note;
}

-- A side on which nobody has.
abbrev pub unspoken : ℕ → Side
unspoken now = record {
  state = pending;
  state_at = some now;
  actor_user_id = none;
  actor_player_id = none;
  actor_name_snapshot = "";
  state_score_revision = none;
  correction_note = "";
}

abbrev pub spoken_event : ℕ → TeamSide → EventType → ℕ → Actor → String → Event
spoken_event id side type revision actor note = record {
  match_id = id;
  event_scope = side_scope side;
  event_type = type;
  score_revision = revision;
  actor_user_id = actor.user_id;
  actor_player_id = actor.player_id;
  actor_name_snapshot = actor.name_snapshot;
  note = note;
  snapshot = none;
}
