-- ===== src/Socket/Server/Running/Keeps.antt =====
-- gateway/src/ws/server.ts: what the handlers of rooms keep of the registries.
use rmcollab_model.Socket.Presence.{Moment}
use rmcollab_model.Common.{
  ℕ, ◌≡◌, refl, ap, ◌∙◌, String, Bool, true, false, not, ◌&&◌, ◌||◌, Option, none, some, eqb, ◌==◌,
  option_is, arith, eq_iff, Bool-cases, Option-cases, inl, inr,
}
use rmcollab_model.Access.Database.{is_given, RoomRow, ParticipantRow, get_room, get_participant}
use rmcollab_model.Access.Sessions.{set_participant_room}
use rmcollab_model.Access.Rooms.{resolve_room_access}
use rmcollab_model.Socket.Server.{moment, Connection, Hub, Env}
use rmcollab_model.Socket.Server.Rooms.{
  leave_hub, leave_room, leave_other, leave_if, enter_given, tell_left, unlist, settle, move_in,
  enter_as, enter_room, refusal,
}
use rmcollab_model.Socket.Registry.Members.{has_socket, has_socket-add, has_socket-remove}

-- In a room only once joined and let in.
abbrev pub in_order : Connection → Bool
in_order c =
    not (is_given c.room_id) || not c.pending && is_given c.session_id && is_given c.participant_id

abbrev pub AgreesOnRoom : Hub → Connection → String → Type 0
AgreesOnRoom h c r = has_socket h.rooms r c.socket ≡ option_is c.room_id r

abbrev pub AgreesOnSession : Hub → Connection → String → Type 0
AgreesOnSession h c k = has_socket h.sessions k c.socket ≡ option_is c.session_id k

-- A handler of one socket leaves the others' places as they are, and keeps the agreement of its own.
unfoldable pub Keeps : Hub × Connection → Hub × Connection → Type 0
Keeps (h, c) (h', c') =
    (c'.socket ≡ c.socket)
    × ((r : String) (x : ℕ)
        → eqb c.socket x ≡ false
        → has_socket h'.rooms r x ≡ has_socket h.rooms r x)
    × ((k : String) (x : ℕ)
        → eqb c.socket x ≡ false
        → has_socket h'.sessions k x ≡ has_socket h.sessions k x)
    × ((r : String) → AgreesOnRoom h c r → AgreesOnRoom h' c' r)
    × ((k : String) → AgreesOnSession h c k → AgreesOnSession h' c' k)
    × (in_order c ≡ true → in_order c' ≡ true)

pub hub-Keeps :
    (h h' : Hub) (c : Connection)
    → h'.rooms ≡ h.rooms
    → h'.sessions ≡ h.sessions
    → Keeps (h, c) (h', c)
unfolding Keeps
hub-Keeps h h' c e f = (
  refl,
  λ r x k. ap (λ g. has_socket g r x) e,
  λ r x k. ap (λ g. has_socket g r x) f,
  λ r a. ap (λ g. has_socket g r c.socket) e ∙ a,
  λ r a. ap (λ g. has_socket g r c.socket) f ∙ a,
  λ o. o,
)

pub Keeps-trans : (x y z : Hub × Connection) → Keeps x y → Keeps y z → Keeps x z
unfolding Keeps
Keeps-trans (h1, c1) (h2, c2) (h3, c3) (s, r, k, ar, ak, o) (s', r', k', ar', ak', o') = (
  s' ∙ s,
  λ q x e. r' q x (ap (λ y. eqb y x) s ∙ e) ∙ r q x e,
  λ q x e. k' q x (ap (λ y. eqb y x) s ∙ e) ∙ k q x e,
  λ q a. ar' q (ar q a),
  λ q a. ak' q (ak q a),
  λ a. o' (o a),
)

pub leave_has :
    (now : Moment) (o : Option String) (h : Hub) (c : Connection) (r : String) (x : ℕ)
    → has_socket (leave_hub now o c h).rooms r x
      ≡ (has_socket h.rooms r x && not (option_is o r && eqb c.socket x))
unfolding leave_hub tell_left unlist
leave_has now none h c r x = ground arith
leave_has now (some q) h c r x = ground (arith, has_socket-remove h.rooms q r c.socket x)

leave_other_has :
    (now : Moment) (h : Hub) (c : Connection) (q r : String) (x : ℕ)
    → has_socket (leave_other now q (h, c)).0.rooms r x ≡ (
        has_socket h.rooms r x
        && not (not (option_is c.room_id q) && option_is c.room_id r && eqb c.socket x))
unfolding leave_other leave_if leave_room
leave_other_has now h c q r x = elim (Option-cases c.room_id) [
  | inl e ↦ rw (e) (ground arith)
  | inr (p, e) ↦ rw (e) (ground (arith, leave_has now (some p) h c r x))
]

settle_has :
    (env : Env) (q p : String) (row : ParticipantRow) (h : Hub) (c : Connection) (r : String)
    (x : ℕ)
    → has_socket (settle env q p row c h).rooms r x
      ≡ (has_socket h.rooms r x || q == r && eqb c.socket x)
unfolding settle
settle_has env q p row h c r x = has_socket-add h.rooms q r c.socket x

pub leave-sessions :
    (now : Moment) (o : Option String) (h : Hub) (c : Connection)
    → (leave_hub now o c h).sessions ≡ h.sessions
unfolding leave_hub tell_left unlist
leave-sessions now o h c = ground arith

settle-sessions :
    (env : Env) (q p : String) (row : ParticipantRow) (h : Hub) (c : Connection)
    → (settle env q p row c h).sessions ≡ h.sessions
unfolding settle
settle-sessions env q p row h c = refl

pub leave-Keeps : (now : Moment) (h : Hub) (c : Connection) → Keeps (h, c) (leave_room now (h, c))
unfolding leave_room Keeps
leave-Keeps now h c = (
  refl,
  λ r x e. ground (arith, leave_has now c.room_id h c r x),
  λ k x e. ap (λ g. has_socket g k x) (leave-sessions now c.room_id h c),
  λ r a. ground (arith, leave_has now c.room_id h c r c.socket),
  λ k a. ap (λ g. has_socket g k c.socket) (leave-sessions now c.room_id h c) ∙ a,
  λ o. ground arith,
)

leave_other-Keeps :
    (now : Moment) (q : String) (h : Hub) (c : Connection) → Keeps (h, c) (leave_other now q (h, c))
unfolding leave_other leave_if
leave_other-Keeps now q h c = of_room c.room_id
  where
    of_room : (o : Option String) → Keeps (h, c) (leave_if now q o (h, c))
    of_room none = hub-Keeps h h c refl refl
    of_room (some r) = elim (Bool-cases (r == q)) [
      | inl e ↦ rw (e) (hub-Keeps h h c refl refl)
      | inr e ↦ rw (e) (leave-Keeps now h c)
    ]

-- The socket stands in no other room.
abbrev only_in : String → Connection → Bool
only_in q c = option_is c.room_id q || not (is_given c.room_id)

leave_other-only :
    (now : Moment) (q : String) (h : Hub) (c : Connection)
    → only_in q (leave_other now q (h, c)).1 ≡ true
unfolding leave_other leave_if leave_room
leave_other-only now q h c = ground arith

-- What a socket has to be, to enter a room.
abbrev pub may_settle : Connection → Bool
may_settle c = not c.pending && is_given c.session_id && is_given c.participant_id

leave_other-may_settle :
    (now : Moment) (q : String) (h : Hub) (c : Connection)
    → may_settle (leave_other now q (h, c)).1 ≡ may_settle c
unfolding leave_other leave_if leave_room
leave_other-may_settle now q h c = ground arith

pub eqb_refl : (n : ℕ) → eqb n n ≡ true
eqb_refl n = ground arith

one_room :
    (o : Option String) (q r : String)
    → (option_is o q || not (is_given o)) ≡ true
    → (option_is o r || q == r) ≡ (q == r)
one_room none q r h = refl
one_room (some x) q r h = ground (arith, eq_iff x q, eq_iff x r, eq_iff q r)

settle-Keeps :
    (env : Env) (q p : String) (row : ParticipantRow) (h : Hub) (c : Connection)
    → only_in q c ≡ true
    → may_settle c ≡ true
    → Keeps (h, c) (settle env q p row c h, record c { room_id = some q })
unfolding Keeps
settle-Keeps env q p row h c alone may = (
  refl,
  λ r x e. ground (arith, settle_has env q p row h c r x),
  λ k x e. ap (λ g. has_socket g k x) (settle-sessions env q p row h c),
  λ r a.
      ground
        (arith, settle_has env q p row h c r c.socket, eqb_refl c.socket, one_room c.room_id q r),
  λ k a. ap (λ g. has_socket g k c.socket) (settle-sessions env q p row h c) ∙ a,
  λ o. ground arith,
)

move_in-Keeps :
    (env : Env) (q p : String) (h : Hub) (c : Connection)
    → only_in q c ≡ true
    → may_settle c ≡ true
    → Keeps (h, c) (move_in env q p (h, c))
unfolding move_in
move_in-Keeps env q p h c alone may =
    let h' = record h { db = set_participant_room h.db p (some q) } in
    elim (Option-cases (get_participant h'.db p)) [
      | inl e ↦ rw (move_in, e) (hub-Keeps h _ c refl refl)
      | inr (row, e) ↦
          rw (move_in, e)
            (Keeps-trans (h, c) (h', c) _ (hub-Keeps h h' c refl refl)
              (settle-Keeps env q p row h' c alone may))
    ]

enter_as-Keeps :
    (env : Env) (room : RoomRow) (p : String) (code : Option String) (h : Hub) (c : Connection)
    → may_settle c ≡ true
    → Keeps (h, c) (enter_as env room p code (h, c))
unfolding enter_as
enter_as-Keeps env room p code h c may =
    let a = resolve_room_access env.settings h.db room.id p code in
    let h1 = record h { db = a.0 } in
    let (h2, c2) = leave_other (moment env) room.id (h1, c) in
    elim (Option-cases (refusal room.name a.1)) [
      | inl e ↦
          rw (enter_as, e)
            (Keeps-trans (h, c) (h2, c2) _
              (Keeps-trans (h, c) (h1, c) (h2, c2) (hub-Keeps h h1 c refl refl)
                (leave_other-Keeps (moment env) room.id h1 c))
              (move_in-Keeps env room.id p h2 c2 (leave_other-only (moment env) room.id h1 c)
                (leave_other-may_settle (moment env) room.id h1 c ∙ may)))
      | inr (m, e) ↦ rw (enter_as, e) (hub-Keeps h _ c refl refl)
    ]

enter_given-Keeps :
    (env : Env) (room : RoomRow) (o : Option String) (code : Option String) (h : Hub)
    (c : Connection)
    → (is_given o ≡ true → may_settle c ≡ true)
    → Keeps (h, c) (enter_given env room o code (h, c))
unfolding enter_given
enter_given-Keeps env room none code h c may = hub-Keeps h _ c refl refl
enter_given-Keeps env room (some p) code h c may = enter_as-Keeps env room p code h c (may refl)

given : (o : Option String) (t : String) → option_is o t ≡ true → is_given o ≡ true
given none t h = h
given (some s) t h = refl

pub enter_room-Keeps :
    (env : Env) (room_id : String) (code : Option String) (h : Hub) (c : Connection)
    → c.pending ≡ false
    → Keeps (h, c) (enter_room env room_id code (h, c))
unfolding enter_room
enter_room-Keeps env room_id code h c let_in = elim (Option-cases (get_room h.db room_id)) [
  | inl e ↦ rw (enter_room, e) (hub-Keeps h _ c refl refl)
  | inr (room, e) ↦ elim (Bool-cases (option_is c.session_id room.session_id)) [
    | inr f ↦ rw (enter_room, e, f) (hub-Keeps h _ c refl refl)
    | inl f ↦
        rw (enter_room, e, f)
          (enter_given-Keeps env room c.participant_id code h c
            (λ k. ground (arith, given c.session_id room.session_id f, k, let_in)))
  ]
]
