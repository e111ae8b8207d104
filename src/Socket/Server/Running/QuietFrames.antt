-- ===== src/Socket/Server/Running/QuietFrames.antt =====
-- gateway/src/ws/server.ts: what the handling of a frame sends to another socket, and to one that waits.
use rmcollab_model.Common.{
  ◌≡◌, refl, ap, ◌∙◌, ◌⊎◌, String, Bool, true, false, not, ◌&&◌, ◌||◌, Option, none, some, [], ◌∷◌,
  eqb, if◌then◌else◌, option_is, arith, inl, inr, or_else,
}
use rmcollab_model.Shared.Domain.{ChatMessage}
use rmcollab_model.Shared.Events.{ServerEvent, error, pong, admission_waiting, admission_requested}
use rmcollab_model.Shared.Events.{session_joined}
use rmcollab_model.Access.Database.{Database}
use rmcollab_model.Access.Changes.{insert_chat_message}
use rmcollab_model.Shared.Events
use rmcollab_model.Socket.Server.{
  Connection, Hub, Env, ClientEvent, emit, fail, to_room, doc_received, asked, closed, touched,
  join_session, join_room, chat_message, typing, doc, ask, ping,
}
use rmcollab_model.Socket.Server.Frames.{
  handle_typing, tell_typing, tell_message, handle_chat_message, handle_doc, handle_ask,
  within_limits, handle_case, handle_event, if_within, touch_unless, is_ping, is_join, has_joined,
  main_doc_id,
}
use rmcollab_model.Socket.Server.Running.Quiet.{
  Listener, Quiet, add-Quiet, send-Quiet, enter_room-Other,
}
use rmcollab_model.Socket.Server.{touched}
use rmcollab_model.Socket.Server.Running.Handled.{within-SamePlaces}
use rmcollab_model.Socket.Server.Running.QuietJoins.{or_true, fail-Quiet, handle_join-Quiet}

typing-Quiet :
    (x : Listener) (r : String) (is_typing : Bool) (h : Hub) (c : Connection)
    → Quiet x h
    → Quiet x (handle_typing r is_typing (h, c)).0
unfolding handle_typing tell_typing
typing-Quiet x r is_typing h c q = told c.participant_id c.display_name
  where
    told :
        (id name : Option String)
        → Quiet x
            (let hc : Hub × Connection =
                if option_is c.room_id r then (tell_typing r is_typing id name h, c) else (h, c) in
              hc).0
    told none none = ground (arith, q)
    told none (some name) = ground (arith, q)
    told (some id) none = ground (arith, q)
    told (some id) (some name) = ground (
      arith,
      q,
      add-Quiet x h.outputs (to_room r (Events.typing r id name is_typing) ∷ []) q refl,
    )

chat-Quiet :
    (x : Listener) (env : Env) (r body : String) (h : Hub) (c : Connection)
    → Quiet x h
    → Quiet x (handle_chat_message env r body (h, c)).0
unfolding handle_chat_message
chat-Quiet x env r body h c q = of_person c.participant_id
  where
    told : (o : Option (Database × ChatMessage)) → Quiet x (tell_message r c h o)
    told none = fail-Quiet x c _ _ h q
    told (some (db, m)) = add-Quiet x h.outputs (to_room r (Events.chat_message r m) ∷ []) q refl

    of_person :
        (o : Option String)
        → Quiet x
            (let hc : Hub × Connection = elim o [
              | none ↦ (fail c "not_joined" "Join a session first." h, c)
              | some id ↦
                  if option_is c.room_id r
                  then (
                    tell_message r c h (insert_chat_message h.db env.fresh env.now r id body),
                    c,
                  )
                  else (fail c "not_in_room" "You are not in that room." h, c)
            ] in
              hc).0
    of_person none = fail-Quiet x c _ _ h q
    of_person (some id) = ground (
      arith,
      told (insert_chat_message h.db env.fresh env.now r id body),
      fail-Quiet x c "not_in_room" "You are not in that room." h q,
    )

doc-Quiet :
    (x : Listener) (env : Env) (r doc_id payload : String) (h : Hub) (c : Connection)
    → Quiet x h
    → Quiet x (handle_doc env r doc_id payload (h, c)).0
unfolding handle_doc
doc-Quiet x env r doc_id payload h c q =
    ground (arith, q, add-Quiet x h.outputs (doc_received r doc_id c.conn_id payload ∷ []) q refl)

ask-Quiet :
    (x : Listener) (r request_id question : String) (h : Hub) (c : Connection)
    → Quiet x h
    → Quiet x (handle_ask r request_id question (h, c)).0
unfolding handle_ask
ask-Quiet x r request_id question h c q = of_person c.participant_id
  where
    of_person :
        (o : Option String)
        → Quiet x
            (let hc : Hub × Connection = elim o [
              | none ↦ (fail c "not_in_room" "Join the room before asking about it." h, c)
              | some id ↦
                  if option_is c.room_id r
                  then (emit (asked c.socket r id request_id question) h, c)
                  else (fail c "not_in_room" "Join the room before asking about it." h, c)
            ] in
              hc).0
    of_person none = fail-Quiet x c _ _ h q
    of_person (some id) = ground (
      arith,
      add-Quiet x h.outputs (asked c.socket r id request_id question ∷ []) q refl,
      fail-Quiet x c "not_in_room" "Join the room before asking about it." h q,
    )

within-Quiet :
    (x : Listener) (env : Env) (event : ClientEvent) (h : Hub) (c : Connection)
    → Quiet x h
    → Quiet x (within_limits env event (h, c)).0.0
unfolding within_limits
within-Quiet x env (join_session code name p r) h c q = q
within-Quiet x env (join_room room_id code) h c q =
    ground
      (arith, fail-Quiet x c "rate_limited" "Too many room switches at once. Wait a moment." h q)
within-Quiet x env (chat_message room_id body) h c q =
    ground
      (arith, fail-Quiet x c "rate_limited" "You're sending messages very fast. Wait a moment." h q)
within-Quiet x env (typing room_id is_typing) h c q = q
within-Quiet x env (doc room_id payload doc_id) h c q =
    ground (arith, add-Quiet x h.outputs (closed c.socket 4008 ∷ []) q refl)
within-Quiet x env (ask room_id request_id question) h c q = q
within-Quiet x env ping h c q = q

touch-Quiet :
    (x : Listener) (pings : Bool) (h : Hub) (c : Connection)
    → Quiet x h
    → Quiet x (touch_unless pings (h, c)).0
touch-Quiet x true h c q = q
touch-Quiet x false h c q = add-Quiet x h.outputs (touched c.session_id ∷ []) q refl

-- The event is no request to enter a room.
abbrev stays : ClientEvent → Bool
stays (join_room room_id code) = false
stays _ = true

case-Quiet :
    (x : Listener) (env : Env) (event : ClientEvent) (h : Hub) (c : Connection)
    → (eqb c.socket x.socket ≡ false)
      ⊎ ((handle_case env event (h, c)).1.pending ≡ true) × (stays event ≡ true)
    → Quiet x h
    → Quiet x (handle_case env event (h, c)).0
unfolding handle_case
case-Quiet x env (join_session code name p r) h c (inl e) q =
    handle_join-Quiet x env code name p r h c (inl e) q
case-Quiet x env (join_session code name p r) h c (inr w) q =
    handle_join-Quiet x env code name p r h c (inr w.0) q
case-Quiet x env (join_room room_id code) h c (inl e) q =
    (enter_room-Other x env room_id code (h, c) (e, q)).1
case-Quiet x env (join_room room_id code) h c (inr w) q = let no = w.1 in cc
case-Quiet x env (chat_message room_id body) h c away q = chat-Quiet x env room_id body h c q
case-Quiet x env (typing room_id is_typing) h c away q = typing-Quiet x room_id is_typing h c q
case-Quiet x env (doc room_id payload doc_id) h c away q =
    doc-Quiet x env room_id (or_else doc_id main_doc_id) payload h c q
case-Quiet x env (ask room_id request_id question) h c away q =
    ask-Quiet x room_id request_id question h c q
case-Quiet x env ping h c away q = send-Quiet x c pong h (or_true (not (eqb c.socket x.socket))) q

if_within-Quiet :
    (x : Listener) (env : Env) (event : ClientEvent) (h : Hub) (c : Connection) (ok : Bool)
    → (eqb c.socket x.socket ≡ false)
      ⊎ ((if_within env event ((h, c), ok)).1.pending ≡ true) × (stays event ≡ true)
    → Quiet x h
    → Quiet x (if_within env event ((h, c), ok)).0
if_within-Quiet x env event h c false away q = q
if_within-Quiet x env event h c true away q = touched_or_not (is_ping event) away
  where
    touched_or_not :
        (pings : Bool)
        → (eqb c.socket x.socket ≡ false)
          ⊎ ((handle_case env event (touch_unless pings (h, c))).1.pending ≡ true)
            × (stays event ≡ true)
        → Quiet x (handle_case env event (touch_unless pings (h, c))).0
    touched_or_not true away = case-Quiet x env event h c away q
    touched_or_not false away =
        case-Quiet x env event (touch_unless false (h, c)).0 c away (touch-Quiet x false h c q)

within-socket :
    (env : Env) (event : ClientEvent) (h : Hub) (c : Connection)
    → (within_limits env event (h, c)).0.1.socket ≡ c.socket
within-socket env event h c = (within-SamePlaces env event h c).2.0

stays_of : (event : ClientEvent) → (is_ping event || is_join event) ≡ true → stays event ≡ true
stays_of (join_session code name p r) h = refl
stays_of (join_room room_id code) h = h
stays_of (chat_message room_id body) h = refl
stays_of (typing room_id is_typing) h = refl
stays_of (doc room_id payload doc_id) h = refl
stays_of (ask room_id request_id question) h = refl
stays_of ping h = refl

-- The socket is another one, or its connection waited and still waits.
abbrev pub AwayOr : Listener → Connection → Connection → Type 0
AwayOr x c c' = (eqb c.socket x.socket ≡ false) ⊎ (c.pending ≡ true) × (c'.pending ≡ true)

guarded :
    (x : Listener) (c : Connection) (b : Bool) (y z : Hub × Connection)
    → Quiet x y.0
    → (b ≡ false → AwayOr x c z.1 → Quiet x z.0)
    → AwayOr x c (if b then y else z).1
    → Quiet x (if b then y else z).0
guarded x c true y z f g away = f
guarded x c false y z f g away = g refl away

limited-Quiet :
    (x : Listener) (env : Env) (event : ClientEvent) (h : Hub) (c : Connection)
    → (c.pending && not (is_ping event) && not (is_join event)) ≡ false
    → AwayOr x c (if_within env event (within_limits env event (h, c))).1
    → Quiet x h
    → Quiet x (if_within env event (within_limits env event (h, c))).0
limited-Quiet x env event h c allowed away q =
    let w = within_limits env event (h, c) in
    let q' = within-Quiet x env event h c q in
    elim away [
      | inl e ↦
          if_within-Quiet x env event w.0.0 w.0.1 w.1
            (inl (ap (λ s. eqb s x.socket) (within-socket env event h c) ∙ e)) q'
      | inr (p, r) ↦
          if_within-Quiet x env event w.0.0 w.0.1 w.1
            (inr (r, stays_of event (ground (arith, allowed, p)))) q'
    ]

-- What handling a frame sends to another socket is nothing, and to its own, if that waited and still
-- waits, only answers.
pub handle_event-Quiet :
    (x : Listener) (env : Env) (event : ClientEvent) (h : Hub) (c : Connection)
    → AwayOr x c (handle_event env event (h, c)).1
    → Quiet x h
    → Quiet x (handle_event env event (h, c)).0
unfolding handle_event
handle_event-Quiet x env event h c away q =
    guarded x c c.closing (h, c) _ q
      (λ e.
        guarded x c (is_join event && has_joined c) (fail c _ _ h, c) _ (fail-Quiet x c _ _ h q)
          (λ f.
            guarded x c (c.pending && not (is_ping event) && not (is_join event)) (fail c _ _ h, c)
              _ (fail-Quiet x c _ _ h q) (λ g away. limited-Quiet x env event h c g away q)))
      away
