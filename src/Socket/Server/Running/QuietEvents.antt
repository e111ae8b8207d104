-- ===== src/Socket/Server/Running/QuietEvents.antt =====
-- gateway/src/ws/server.ts: what is told of a room or a session, and closing, send to someone who waits.
use rmcollab_model.Socket.Presence.{Moment}
use rmcollab_model.Common.{
  ℕ, ◌≡◌, refl, String, true, false, Option, none, some, List, [], ◌∷◌, all, map, All,
}
use rmcollab_model.Shared.Events.{
  ServerEvent, participant_removed, documents_updated, room_deleted, doc, session_ended,
  admission_decided,
}
use rmcollab_model.Socket.Registry.{members}
use rmcollab_model.Socket.Server.{Connection, Hub, docs_discarded, room_docs_discarded, emit}
use rmcollab_model.Socket.Server.Rooms.{leave_hub}
use rmcollab_model.Socket.Server.Told.{
  each, remove_one, forget_one, end_one, decide_one, heard, to_members, to_session_members,
  on_room_event, on_session_event, discard_rooms, ids_of,
}
use rmcollab_model.Socket.Server.Running.{handle_close, disconnect, withdraw, unlist_session}
use rmcollab_model.Socket.Registry.Members.{has_socket}
use rmcollab_model.Socket.Server.Running.Consistent.{Good, Apart, Sound, each-Sound}
use rmcollab_model.Socket.Server.Running.Acts.{remove_one-Keeps, forget_one-Keeps, decide_one-Keeps}
use rmcollab_model.Socket.Server.Running.Quiet.{
  Listener, Quiet, is_quiet, add-Quiet, if-Quiet, leave-Quiet,
}
use rmcollab_model.Socket.Server.Running.Deaf.{
  Matches, Ends, waits, each-Quiet, remove_one-Quiet, end_one-Quiet, decide_one-Quiet,
  forget_one-Quiet, waits-out, heard-out, waits-deaf, heard-deaf,
}

to_members-Quiet :
    (x : Listener) (r : String) (event : ServerEvent) (h : Hub) (cs : List Connection)
    → All (Good h) cs
    → waits x.socket cs ≡ true
    → Quiet x h
    → Quiet x (to_members r event (h, cs)).0
unfolding to_members has_socket
to_members-Quiet x r event h cs g w q =
    add-Quiet x h.outputs (heard false cs event (members h.rooms r)) q
      (heard-out x false cs event (members h.rooms r) (waits-out x.socket r h cs g w))

to_session-Quiet :
    (x : Listener) (k : String) (event : ServerEvent) (h : Hub) (cs : List Connection)
    → Apart cs
    → waits x.socket cs ≡ true
    → Quiet x h
    → Quiet x (to_session_members k event (h, cs)).0
unfolding to_session_members
to_session-Quiet x k event h cs a w q =
    add-Quiet x h.outputs (heard true cs event (members h.sessions k)) q
      (heard-deaf x true cs event (members h.sessions k) (waits-deaf x.socket cs a w))

pub room_event-Quiet :
    (x : Listener) (now : Moment) (r : String) (event : ServerEvent) (h : Hub)
    (cs : List Connection) (next : ℕ)
    → Sound h cs next
    → All (Matches x) cs
    → waits x.socket (on_room_event now r event (h, cs)).1 ≡ true
    → Quiet x h
    → Quiet x (on_room_event now r event (h, cs)).0
unfolding on_room_event to_members
room_event-Quiet x now r (participant_removed r' id scope by_name) h cs next s m w q =
    let act = remove_one now r' id scope by_name in
    let after = each-Sound act (remove_one-Keeps now r' id scope by_name) next h cs s in
    to_members-Quiet x r (participant_removed r' id scope by_name) (each act h cs).0
      (each act h cs).1 after.0 w
      (each-Quiet x (Matches x) act (remove_one-Quiet x now r' id scope by_name) h cs m q)
room_event-Quiet x now r (documents_updated r' documents) h cs next s m w q =
    let act = forget_one r (ids_of documents) in
    let after = each-Sound act (forget_one-Keeps r (ids_of documents)) next h cs s in
    let h' = emit (docs_discarded r (ids_of documents)) (each act h cs).0 in
    to_members-Quiet x r (documents_updated r' documents) h' (each act h cs).1 after.0 w (
      add-Quiet x (each act h cs).0.outputs (docs_discarded r (ids_of documents) ∷ [])
        (each-Quiet x (Matches x) act (λ h c p q. forget_one-Quiet x r (ids_of documents) h c q) h
          cs m q)
        refl)
room_event-Quiet x now r (room_deleted r' name by_name) h cs next s m w q =
    to_members-Quiet x r (room_deleted r' name by_name) (emit (room_docs_discarded r) h) cs s.0 w
      (add-Quiet x h.outputs (room_docs_discarded r ∷ []) q refl)
room_event-Quiet x now r (doc r' payload doc_id sender) h cs next s m w q =
    add-Quiet x h.outputs (_ ∷ []) q refl
room_event-Quiet x now r event h cs next s m w q = to_members-Quiet x r event h cs s.0 w q

discards :
    (x : Listener) (rooms : List String) → all (is_quiet x) (map room_docs_discarded rooms) ≡ true
discards x [] = refl
discards x (r ∷ rooms) = discards x rooms

pub session_event-Quiet :
    (x : Listener) (now : Moment) (k : String) (event : ServerEvent) (h : Hub)
    (cs : List Connection) (next : ℕ)
    → Sound h cs next
    → All (Matches x) cs
    → All (Ends x k) cs
    → waits x.socket (on_session_event now k event (h, cs)).1 ≡ true
    → Quiet x h
    → Quiet x (on_session_event now k event (h, cs)).0
unfolding on_session_event to_session_members
session_event-Quiet x now k (participant_removed r id scope by_name) h cs next s m ends w q =
    let act = remove_one now r id scope by_name in
    let after = each-Sound act (remove_one-Keeps now r id scope by_name) next h cs s in
    to_session-Quiet x k (participant_removed r id scope by_name) (each act h cs).0
      (each act h cs).1 after.1 w
      (each-Quiet x (Matches x) act (remove_one-Quiet x now r id scope by_name) h cs m q)
session_event-Quiet x now k (session_ended s' by_name rooms) h cs next s m ends w q =
    each-Quiet x (Ends x k) (end_one k (session_ended s' by_name rooms))
      (end_one-Quiet x k s' by_name rooms) (discard_rooms rooms h) cs ends
      (add-Quiet x h.outputs (map room_docs_discarded rooms) q (discards x rooms))
session_event-Quiet x now k (admission_decided s' id admitted by_name) h cs next s m ends w q =
    let event = admission_decided s' id admitted by_name in
    let act = decide_one id admitted event in
    let after = each-Sound act (decide_one-Keeps id admitted event) next h cs s in
    to_session-Quiet x k event (each act h cs).0 (each act h cs).1 after.1 w
      (each-Quiet x (Matches x) act (decide_one-Quiet x id admitted s' by_name) h cs m q)
session_event-Quiet x now k event h cs next s m ends w q = to_session-Quiet x k event h cs s.1 w q

disconnect-Quiet :
    (x : Listener) (now : Moment) (c : Connection) (id k : Option String) (h : Hub)
    → Quiet x h
    → Quiet x (disconnect now c id k h)
unfolding disconnect
disconnect-Quiet x now c none k h q = q
disconnect-Quiet x now c (some id) none h q = q
disconnect-Quiet x now c (some id) (some k) h q = q

withdraw-Quiet :
    (x : Listener) (others : List Connection) (c : Connection) (id k : Option String) (h : Hub)
    → Quiet x h
    → Quiet x (withdraw others c id k h)
unfolding withdraw
withdraw-Quiet x others c none none h q = q
withdraw-Quiet x others c none (some k) h q = q
withdraw-Quiet x others c (some id) none h q = q
withdraw-Quiet x others c (some id) (some k) h q = if-Quiet x _ h.outputs (_ ∷ []) q refl

unlist-Quiet :
    (x : Listener) (o : Option String) (y : ℕ) (h : Hub)
    → Quiet x h
    → Quiet x (unlist_session o y h)
unfolding unlist_session
unlist-Quiet x none y h q = q
unlist-Quiet x (some k) y h q = if-Quiet x _ h.outputs (_ ∷ []) q refl

pub handle_close-Quiet :
    (x : Listener) (now : Moment) (others : List Connection) (c : Connection) (h : Hub)
    → Quiet x h
    → Quiet x (handle_close now others c h)
unfolding handle_close
handle_close-Quiet x now others c h q =
    let h1 = disconnect now c c.participant_id c.session_id h in
    let h2 = withdraw others c c.participant_id c.session_id h1 in
    unlist-Quiet x c.session_id c.socket (leave_hub now c.room_id c h2) (
      leave-Quiet x now c.room_id c h2 (
        withdraw-Quiet x others c c.participant_id c.session_id h1
          (disconnect-Quiet x now c c.participant_id c.session_id h q)))
