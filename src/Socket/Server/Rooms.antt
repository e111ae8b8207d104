-- ===== src/Socket/Server/Rooms.antt =====
-- gateway/src/ws/server.ts: leaving and entering a room.
use rmcollab_model.Common.{
  ℕ, String, Bool, Option, none, some, List, [], ◌∷◌, ◌++◌, eqb, if◌then◌else◌, ◌==◌, option_is,
}
use Prim.Native.String
use rmcollab_model.Shared.Events.{room_state, participant_joined, participant_left}
use rmcollab_model.Access.Database.{
  RoomRow, ParticipantRow, get_room, get_participant, to_participant,
}
use rmcollab_model.Access.Sessions.{set_participant_room}
use rmcollab_model.Access.Rooms.{
  RoomAccess, open_access, granted, code_required, code_invalid, banned, not_member,
  resolve_room_access, list_room_participants,
}
use rmcollab_model.Access.Changes.{list_recent_chat_messages}
use rmcollab_model.Socket.Registry.{Group, add_member, remove_member}
use rmcollab_model.Socket.Presence.{Moment, in_room, here, gone}
use rmcollab_model.Socket.Server.{
  moment, Connection, Hub, Env, emit, send, fail, to_room, room_subscribed, room_unsubscribed,
  docs_left, docs_dropped,
}

-- The room is told once the person's last connection has left it.
unfoldable pub tell_left : Moment → String → String → Option String → Hub → Hub
unfolding gone
tell_left now room_id conn_id none h = h
tell_left now room_id conn_id (some participant_id) h =
    let g = gone h.presence (in_room room_id) participant_id conn_id now in
    record h {
      presence = g.0;
      outputs =
          if eqb g.1 0
          then h.outputs ++ to_room room_id (participant_left room_id participant_id) ∷ []
          else h.outputs;
    }

-- The socket is taken out of the room's group: the last one gives up the room's channel.
unfoldable pub unlist : String → ℕ → Hub → Hub
unfolding remove_member
unlist room_id socket h =
    let a = remove_member h.rooms room_id socket in
    record h {
      rooms = a.0;
      outputs =
          if a.1
          then h.outputs ++ room_unsubscribed room_id ∷ docs_dropped room_id ∷ []
          else h.outputs;
    }

abbrev pub out_of_room : Connection → Connection
out_of_room c = record c { room_id = none; docs = [] }

unfoldable pub leave_hub : Moment → Option String → Connection → Hub → Hub
unfolding tell_left unlist
leave_hub now none c h = h
leave_hub now (some room_id) c h =
    tell_left now room_id c.conn_id c.participant_id
      (unlist room_id c.socket (emit (docs_left room_id c.conn_id) h))

-- `leaveRoom`
unfoldable pub leave_room : Moment → Hub × Connection → Hub × Connection
unfolding leave_hub
leave_room now (h, c) = (leave_hub now c.room_id c h, out_of_room c)

-- The refusals of `enterRoom`, by what access was resolved to.
unfoldable pub refusal : String → RoomAccess → Option (String × String)
refusal name code_required = some (
  "room_locked",
  String.◌++◌ "\"" (String.◌++◌ name "\" is locked. Enter its room code to join."),
)
refusal name code_invalid =
    some ("room_code_invalid", String.◌++◌ "That code does not match \"" (String.◌++◌ name "\"."))
refusal name banned =
    some
      ("room_banned", String.◌++◌ "You were removed from \"" (String.◌++◌ name "\" by its owner."))
refusal name not_member = some ("not_joined", "You are no longer in this session.")
refusal name open_access = none
refusal name granted = none

-- Out of another room, for one that is entered.
unfoldable pub leave_if : Moment → String → Option String → Hub × Connection → Hub × Connection
unfolding leave_room
leave_if now room_id none hc = hc
leave_if now room_id (some r) hc = if r == room_id then hc else leave_room now hc

unfoldable pub leave_other : Moment → String → Hub × Connection → Hub × Connection
unfolding leave_if
leave_other now room_id (h, c) = leave_if now room_id c.room_id (h, c)

abbrev pub subscribe_room : String → Hub → List Group × Bool → Hub
subscribe_room room_id h (groups, first) = record h {
  rooms = groups;
  outputs = if first then h.outputs ++ room_subscribed room_id ∷ [] else h.outputs;
}

-- Into the room's group, with its state sent and its people told.
unfoldable pub settle : Env → String → String → ParticipantRow → Connection → Hub → Hub
unfolding add_member here list_room_participants list_recent_chat_messages to_participant
settle env room_id participant_id row c h =
    let h' =
      subscribe_room room_id
        (record h {
          presence = here h.presence (in_room room_id) participant_id c.conn_id (moment env);
        })
        (add_member h.rooms room_id c.socket) in
    emit (to_room room_id (participant_joined room_id (to_participant row))) (
      send c
        (room_state room_id (list_room_participants h'.db room_id)
          (list_recent_chat_messages h'.db room_id env.chat_history) (h'.db.media room_id))
        h')

-- The part of `enterRoom` once access is given.
unfoldable pub move_in : Env → String → String → Hub × Connection → Hub × Connection
unfolding set_participant_room get_participant settle
move_in env room_id participant_id (h, c) =
    let h' = record h { db = set_participant_room h.db participant_id (some room_id) } in
    elim (get_participant h'.db participant_id) [
      | none ↦ (fail c "participant_missing" "Your participant record no longer exists." h', c)
      | some row ↦ (settle env room_id participant_id row c h', record c { room_id = some room_id })
    ]

unfoldable pub enter_as :
    Env → RoomRow → String → Option String → Hub × Connection → Hub × Connection
unfolding resolve_room_access refusal leave_other move_in
enter_as env room participant_id code (h, c) =
    let a = resolve_room_access env.settings h.db room.id participant_id code in
    let h' = record h { db = a.0 } in
    elim (refusal room.name a.1) [
      | some (error_code, message) ↦ (fail c error_code message h', c)
      | none ↦ move_in env room.id participant_id (leave_other (moment env) room.id (h', c))
    ]

unfoldable pub enter_given :
    Env → RoomRow → Option String → Option String → Hub × Connection → Hub × Connection
unfolding enter_as
enter_given env room none code (h, c) = (fail c "not_joined" "Join a session first." h, c)
enter_given env room (some participant_id) code hc = enter_as env room participant_id code hc

-- `enterRoom`
unfoldable pub enter_room : Env → String → Option String → Hub × Connection → Hub × Connection
unfolding get_room enter_given
enter_room env room_id code (h, c) = elim (get_room h.db room_id) [
  | none ↦ (fail c "room_not_found" "That room does not exist in this session." h, c)
  | some room ↦
      if option_is c.session_id room.session_id
      then enter_given env room c.participant_id code (h, c)
      else (fail c "room_not_found" "That room does not exist in this session." h, c)
]
