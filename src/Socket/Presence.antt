-- ===== src/Socket/Presence.antt =====
-- gateway/src/ws/presence.ts: the connections of a person in a room or a session, on every replica.
-- Redis keeps a sorted set for each scope and person; here they are one list.
use rmcollab_model.Common.{
  ℕ, ◌+◌, String, Bool, true, false, not, ◌&&◌, ◌||◌, List, ◌∷◌, filter, length, leb, ◌==◌,
  if◌then◌else◌,
}

pub data Scope : Type 0 where
  in_room in_session : String → Scope

abbrev pub scope_eq : Scope → Scope → Bool
scope_eq (in_room a) (in_room b) = a == b
scope_eq (in_session a) (in_session b) = a == b
scope_eq _ _ = false

pub record Present : Type 0 where
  pub scope : Scope
  pub participant_id : String
  pub conn_id : String
  pub until : ℕ

abbrev pub presence_ttl_ms : ℕ
presence_ttl_ms = 90000

-- The entry stands in the sorted set of the scope and the person.
abbrev pub is_set : Scope → String → Present → Bool
is_set scope participant_id e = scope_eq e.scope scope && e.participant_id == participant_id

-- What becomes of a call of Redis: it is answered, carried out with the answer lost, or not carried out.
pub data Reply : Type 0 where
  answered unanswered failed : Reply

abbrev pub is_answered : Reply → Bool
is_answered answered = true
is_answered _ = false

abbrev pub is_done : Reply → Bool
is_done failed = false
is_done _ = true

-- When the calls of a handler are made, and what becomes of them.
pub record Moment : Type 0 where
  pub time : ℕ
  pub reply : Reply

unfoldable pub here : List Present → Scope → String → String → Moment → List Present
here ps scope participant_id conn_id now =
    if is_done now.reply
    then record {
      scope = scope;
      participant_id = participant_id;
      conn_id = conn_id;
      until = now.time + presence_ttl_ms;
    }
      ∷ filter (λ (e : Present). not (is_set scope participant_id e && e.conn_id == conn_id)) ps
    else ps

-- Without the connection, and without the person's that have expired.
abbrev pub remaining : Scope → String → String → ℕ → List Present → List Present
remaining scope participant_id conn_id time ps =
    filter
      (λ (e : Present).
        not (is_set scope participant_id e && (e.conn_id == conn_id || leb e.until time)))
      ps

-- What is left of the sets, and how many of the person's connections remain: none, if Redis does not
-- answer.
unfoldable pub gone : List Present → Scope → String → String → Moment → List Present × ℕ
gone ps scope participant_id conn_id now =
    let rest = remaining scope participant_id conn_id now.time ps in
    (
      if is_done now.reply then rest else ps,
      if is_answered now.reply then length (filter (is_set scope participant_id) rest) else 0,
    )
