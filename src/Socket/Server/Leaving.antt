-- ===== src/Socket/Server/Leaving.antt =====
-- gateway/src/ws/server.ts and gateway/src/ws/presence.ts: when a room is told that a person has left.
use rmcollab_model.Common.{
  ℕ, ◌≡◌, refl, String, Bool, not, ◌&&◌, some, List, [], ◌∷◌, ◌++◌, any, length, filter, eqb, ltb,
  arith, if◌then◌else◌, ◌==◌, Bool-cases, inl, inr,
}
use rmcollab_model.Shared.Events.{participant_left}
use rmcollab_model.Socket.Presence.{
  Moment, Scope, Present, in_room, is_set, is_answered, remaining, gone,
}
use rmcollab_model.Socket.Server.{Hub, to_room}
use rmcollab_model.Socket.Server.Rooms.{tell_left}

-- Another connection of the person that still counts.
abbrev pub is_other : Scope → String → String → ℕ → Present → Bool
is_other scope id conn_id time e =
    is_set scope id e && not (e.conn_id == conn_id) && ltb time e.until

none_left :
    (scope : Scope) (id conn_id : String) (time : ℕ) (ps : List Present)
    → eqb (length (filter (is_set scope id) (remaining scope id conn_id time ps))) 0
      ≡ not (any (is_other scope id conn_id time) ps)
none_left scope id conn_id time [] = refl
none_left scope id conn_id time (e ∷ ps) = ground (arith, none_left scope id conn_id time ps)

gone_lem :
    (scope : Scope) (id conn_id : String) (now : Moment) (ps : List Present)
    → eqb (gone ps scope id conn_id now).1 0
      ≡ not (is_answered now.reply && any (is_other scope id conn_id now.time) ps)
unfolding gone
gone_lem scope id conn_id now ps = elim (Bool-cases (is_answered now.reply)) [
  | inl e ↦ rw (e) (none_left scope id conn_id now.time ps)
  | inr e ↦ rw (e) refl
]

-- On the leaving of one of a person's connections, the room is told that they left exactly if none of
-- their other connections to it, on any replica, still counts, or Redis does not answer.
pub tell_left_exact :
    (now : Moment) (room_id conn_id id : String) (h : Hub)
    → (tell_left now room_id conn_id (some id) h).outputs ≡ (
        if is_answered now.reply && any (is_other (in_room room_id) id conn_id now.time) h.presence
        then h.outputs
        else h.outputs ++ to_room room_id (participant_left room_id id) ∷ [])
unfolding tell_left
tell_left_exact now room_id conn_id id h =
    let last = gone_lem (in_room room_id) id conn_id now h.presence in
    elim (Bool-cases
      (is_answered now.reply && any (is_other (in_room room_id) id conn_id now.time) h.presence)) [
        | inl e ↦ ground (arith, last, e)
        | inr e ↦ ground (arith, last, e)
      ]
