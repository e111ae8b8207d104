-- ===== src/Socket/Server/Running/Handled.antt =====
-- gateway/src/ws/server.ts: what the handling of a frame keeps of the registries.
use rmcollab_model.Common.{
  ◌≡◌, refl, ap, ◌∙◌, String, Bool, true, false, not, ◌&&◌, ◌||◌, if◌then◌else◌, arith,
  Option-cases, inl, inr, or_else,
}
use rmcollab_model.Access.Database.{is_given}
use rmcollab_model.Socket.Server.{
  Connection, Hub, Env, ClientEvent, join_session, join_room, chat_message, typing, doc, ask, ping,
}
use rmcollab_model.Socket.Server.Frames.{
  handle_typing, tell_typing, handle_chat_message, handle_doc, handle_ask, within_limits,
  handle_case, handle_event, if_within, main_doc_id, touch_unless, is_ping, is_join, has_joined,
}
use rmcollab_model.Socket.Server.Running.Keeps.{
  Keeps, hub-Keeps, Keeps-trans, in_order, enter_room-Keeps,
}
use rmcollab_model.Socket.Server.Running.Joined.{SamePlace, place-Keeps, handle_join-Keeps}

-- The hub's registries and the socket's place are as before.
abbrev pub SamePlaces : Hub × Connection → Hub × Connection → Type 0
SamePlaces (h, c) (h', c') = (h'.rooms ≡ h.rooms) × (h'.sessions ≡ h.sessions) × SamePlace c c'

places-Keeps : (h h' : Hub) (c c' : Connection) → SamePlaces (h, c) (h', c') → Keeps (h, c) (h', c')
places-Keeps h h' c c' (e, f, p) = place-Keeps h h' c c' e f p

pub within-SamePlaces :
    (env : Env) (event : ClientEvent) (h : Hub) (c : Connection)
    → SamePlaces (h, c) (within_limits env event (h, c)).0
unfolding within_limits
within-SamePlaces env (join_session code name p r) h c =
    (refl, refl, (refl, refl, refl, refl, refl))
within-SamePlaces env (join_room room_id code) h c = ground arith
within-SamePlaces env (chat_message room_id body) h c = ground arith
within-SamePlaces env (typing room_id is_typing) h c = (refl, refl, (refl, refl, refl, refl, refl))
within-SamePlaces env (doc room_id payload doc_id) h c = ground arith
within-SamePlaces env (ask room_id request_id question) h c =
    (refl, refl, (refl, refl, refl, refl, refl))
within-SamePlaces env ping h c = (refl, refl, (refl, refl, refl, refl, refl))

typing-SamePlaces :
    (room_id : String) (is_typing : Bool) (h : Hub) (c : Connection)
    → SamePlaces (h, c) (handle_typing room_id is_typing (h, c))
unfolding handle_typing tell_typing
typing-SamePlaces room_id is_typing h c = ground arith

chat-SamePlaces :
    (env : Env) (room_id body : String) (h : Hub) (c : Connection)
    → SamePlaces (h, c) (handle_chat_message env room_id body (h, c))
unfolding handle_chat_message
chat-SamePlaces env room_id body h c = ground arith

doc-SamePlaces :
    (env : Env) (room_id doc_id payload : String) (h : Hub) (c : Connection)
    → SamePlaces (h, c) (handle_doc env room_id doc_id payload (h, c))
unfolding handle_doc
doc-SamePlaces env room_id doc_id payload h c = ground arith

ask-SamePlaces :
    (room_id request_id question : String) (h : Hub) (c : Connection)
    → SamePlaces (h, c) (handle_ask room_id request_id question (h, c))
unfolding handle_ask
ask-SamePlaces room_id request_id question h c = ground arith

-- Those who wait may only ping or join, and only those who have not joined may join.
abbrev may_handle : ClientEvent → Connection → Bool
may_handle event c =
    not (is_join event && has_joined c) && (not c.pending || is_ping event || is_join event)

case-Keeps :
    (env : Env) (event : ClientEvent) (h : Hub) (c : Connection)
    → may_handle event c ≡ true
    → in_order c ≡ true
    → Keeps (h, c) (handle_case env event (h, c))
unfolding handle_case
case-Keeps env (join_session code name p r) h c may o =
    handle_join-Keeps env code name p r h c
      (elim (Option-cases c.session_id) [ inl e ↦ e | inr (k, e) ↦ ground (arith, e, may) ]) o
case-Keeps env (join_room room_id code) h c may o =
    enter_room-Keeps env room_id code h c (ground (arith, may))
case-Keeps env (chat_message room_id body) h c may o =
    let r = handle_chat_message env room_id body (h, c) in
    places-Keeps h r.0 c r.1 (chat-SamePlaces env room_id body h c)
case-Keeps env (typing room_id is_typing) h c may o =
    let r = handle_typing room_id is_typing (h, c) in
    places-Keeps h r.0 c r.1 (typing-SamePlaces room_id is_typing h c)
case-Keeps env (doc room_id payload doc_id) h c may o =
    let r = handle_doc env room_id (or_else doc_id main_doc_id) payload (h, c) in
    places-Keeps h r.0 c r.1 (doc-SamePlaces env room_id (or_else doc_id main_doc_id) payload h c)
case-Keeps env (ask room_id request_id question) h c may o =
    let r = handle_ask room_id request_id question (h, c) in
    places-Keeps h r.0 c r.1 (ask-SamePlaces room_id request_id question h c)
case-Keeps env ping h c may o = hub-Keeps h _ c refl refl

touch-Keeps : (pings : Bool) (h : Hub) (c : Connection) → Keeps (h, c) (touch_unless pings (h, c))
touch-Keeps true h c = hub-Keeps h h c refl refl
touch-Keeps false h c = hub-Keeps h _ c refl refl

if_within-Keeps :
    (env : Env) (event : ClientEvent) (h : Hub) (c : Connection) (ok : Bool)
    → may_handle event c ≡ true
    → in_order c ≡ true
    → Keeps (h, c) (if_within env event ((h, c), ok))
if_within-Keeps env event h c false may o = hub-Keeps h h c refl refl
if_within-Keeps env event h c true may o = touched (is_ping event)
  where
    touched : (pings : Bool) → Keeps (h, c) (handle_case env event (touch_unless pings (h, c)))
    touched true = case-Keeps env event h c may o
    touched false =
        let h' = (touch_unless false (h, c)).0 in
        Keeps-trans (h, c) (h', c) _ (touch-Keeps false h c) (case-Keeps env event h' c may o)

pub Keeps-if :
    (b : Bool) (x y z : Hub × Connection)
    → (b ≡ true → Keeps x y)
    → (b ≡ false → Keeps x z)
    → Keeps x (if b then y else z)
Keeps-if true x y z f g = f refl
Keeps-if false x y z f g = g refl

in_order_same :
    (c c' : Connection)
    → c'.room_id ≡ c.room_id
    → c'.session_id ≡ c.session_id
    → c'.participant_id ≡ c.participant_id
    → c'.pending ≡ c.pending
    → in_order c' ≡ in_order c
in_order_same c c' r k p q = rw (r, k, p, q) refl

may_same :
    (event : ClientEvent) (c c' : Connection)
    → c'.session_id ≡ c.session_id
    → c'.pending ≡ c.pending
    → may_handle event c' ≡ may_handle event c
may_same event c c' k q =
    ap
      (λ w. not (is_join event && is_given w) && (not c'.pending || is_ping event || is_join event))
      k
    ∙ ap (λ w. not (is_join event && has_joined c) && (not w || is_ping event || is_join event)) q

within-Keeps :
    (env : Env) (event : ClientEvent) (h : Hub) (c : Connection)
    → may_handle event c ≡ true
    → in_order c ≡ true
    → Keeps (h, c) (if_within env event (within_limits env event (h, c)))
within-Keeps env event h c may o =
    let w = within_limits env event (h, c) in
    let c' = w.0.1 in
    let same : SamePlaces (h, c) (w.0.0, c') = within-SamePlaces env event h c in
    let (e, f, (s, r, k, p, q)) = same in
    Keeps-trans (h, c) w.0 _ (places-Keeps h w.0.0 c c' same)
      (if_within-Keeps env event w.0.0 c' w.1 (may_same event c c' k q ∙ may)
        (in_order_same c c' r k p q ∙ o))

pub handle_event-Keeps :
    (env : Env) (event : ClientEvent) (h : Hub) (c : Connection)
    → in_order c ≡ true
    → Keeps (h, c) (handle_event env event (h, c))
unfolding handle_event
handle_event-Keeps env event h c o =
    Keeps-if c.closing (h, c) (h, c) _ (λ e. hub-Keeps h h c refl refl)
      (λ e.
        Keeps-if (is_join event && has_joined c) (h, c) _ _ (λ f. hub-Keeps h _ c refl refl)
          (λ f.
            Keeps-if (c.pending && not (is_ping event) && not (is_join event)) (h, c) _ _
              (λ g. hub-Keeps h _ c refl refl)
              (λ g. within-Keeps env event h c (ground (arith, f, g)) o)))
