-- ===== src/Socket/Server/Running/Deaf.antt =====
-- gateway/src/ws/server.ts: what the events of a room and a session send to someone who waits.
use rmcollab_model.Socket.Presence.{Moment}
use rmcollab_model.Common.{
  ℕ, ◌≡◌, refl, sym, ap, ◌∙◌, String, Bool, true, false, not, ◌&&◌, ◌||◌, List, [], ◌∷◌, all, any,
  eqb, option_is, arith, Bool-cases, inl, inr, All,
}
use rmcollab_model.Shared.Events.{
  ServerEvent, RemovalScope, participant_removed, session_ended, admission_decided,
}
use rmcollab_model.Socket.Server.{Connection, Hub, closed, pinged, terminated, send}
use rmcollab_model.Socket.Server.Rooms.{leave_room}
use rmcollab_model.Socket.Server.Told.{
  each, by_scope, remove_one, forget_one, end_one, decide_one, can_hear, heard,
}
use rmcollab_model.Socket.Server.Running.{is_socket, beat}
use rmcollab_model.Socket.Registry.Members.{has_socket, is_in}
use rmcollab_model.Socket.Server.Running.Consistent.{Good, Apart, has_conn}
use rmcollab_model.Socket.Server.Running.Quiet.{
  Listener, Quiet, is_quiet, add-Quiet, send-Quiet, leave-Quiet,
}

-- A connection of the socket waits to be let in.
abbrev pub waits : ℕ → List Connection → Bool
waits x cs = any (λ c. is_socket x c && c.pending) cs

-- A connection of the listener's socket is theirs.
abbrev pub Matches : Listener → Connection → Type 0
Matches x c = eqb c.socket x.socket ≡ true → c.participant_id ≡ x.participant_id

pub each-Quiet :
    (x : Listener) (P : Connection → Type 0) (act : Hub × Connection → Hub × Connection)
    → ((h : Hub) (c : Connection) → P c → Quiet x h → Quiet x (act (h, c)).0)
    → (h : Hub) (cs : List Connection) → All P cs
    → Quiet x h
    → Quiet x (each act h cs).0
unfolding each
each-Quiet x P act f h [] p q = q
each-Quiet x P act f h (c ∷ cs) (p, ps) q = each-Quiet x P act f (act (h, c)).0 cs ps (f h c p q)

answer :
    (x : Listener) (c : Connection) (id : String)
    → Matches x c
    → option_is c.participant_id id ≡ true
    → (not (eqb c.socket x.socket) || option_is x.participant_id id) ≡ true
answer x c id m e = elim (Bool-cases (eqb c.socket x.socket)) [
  | inl f ↦ let own = ap (λ o. option_is o id) (sym (m f)) ∙ e in ground (arith, own)
  | inr f ↦ ground (arith, f)
]

pub remove_one-Quiet :
    (x : Listener) (now : Moment) (r id : String) (scope : RemovalScope) (by_name : String)
    (h : Hub) (c : Connection)
    → Matches x c
    → Quiet x h
    → Quiet x (remove_one now r id scope by_name (h, c)).0
unfolding remove_one leave_room
remove_one-Quiet x now r id scope by_name h c m q =
    elim (Bool-cases (option_is c.participant_id id)) [
      | inr e ↦ rw (remove_one, e) q
      | inl e ↦ rw (remove_one, e) (told (answer x c id m e) scope)
    ]
  where
    h' : Hub
    h' = send c (participant_removed r id scope by_name) h

    told :
        (not (eqb c.socket x.socket) || option_is x.participant_id id) ≡ true
        → (s : RemovalScope) → Quiet x (by_scope now s r (h', c)).0
    told k RemovalScope.session =
        add-Quiet x h'.outputs (closed c.socket 4001 ∷ [])
          (send-Quiet x c (participant_removed r id scope by_name) h k q) refl
    told k RemovalScope.room =
        let q' = send-Quiet x c (participant_removed r id scope by_name) h k q in
        elim (Bool-cases (option_is c.room_id r)) [
          | inl f ↦ rw (f) (leave-Quiet x now c.room_id c h' q')
          | inr f ↦ rw (f) q'
        ]

-- A connection of the listener's socket is in the session only if its end may be heard.
abbrev pub Ends : Listener → String → Connection → Type 0
Ends x k c = eqb c.socket x.socket ≡ true → option_is c.session_id k ≡ true → x.may_end ≡ true

pub end_one-Quiet :
    (x : Listener) (s k by_name : String) (rooms : List String) (h : Hub) (c : Connection)
    → Ends x s c
    → Quiet x h
    → Quiet x (end_one s (session_ended k by_name rooms) (h, c)).0
unfolding end_one
end_one-Quiet x s k by_name rooms h c m q = elim (Bool-cases (option_is c.session_id s)) [
  | inr e ↦ rw (end_one, e) q
  | inl e ↦
      let h' = send c (session_ended k by_name rooms) h in
      let heard : (not (eqb c.socket x.socket) || x.may_end) ≡ true =
        elim (Bool-cases (eqb c.socket x.socket)) [
          | inl f ↦ ground (arith, m f e)
          | inr f ↦ ground (arith, f)
        ] in
      rw (end_one, e)
        (add-Quiet x h'.outputs (closed c.socket 4003 ∷ [])
          (send-Quiet x c (session_ended k by_name rooms) h heard q) refl)
]

pub decide_one-Quiet :
    (x : Listener) (id : String) (admitted : Bool) (k by_name : String) (h : Hub) (c : Connection)
    → Matches x c
    → Quiet x h
    → Quiet x (decide_one id admitted (admission_decided k id admitted by_name) (h, c)).0
unfolding decide_one
decide_one-Quiet x id admitted k by_name h c m q =
    elim (Bool-cases (option_is c.participant_id id)) [
      | inr e ↦ ground (arith, e, q)
      | inl e ↦
          let h' = send c (admission_decided k id admitted by_name) h in
          let q' =
            send-Quiet x c (admission_decided k id admitted by_name) h (answer x c id m e) q in
          ground (arith, q, q', add-Quiet x h'.outputs (closed c.socket 4002 ∷ []) q' refl)
    ]

pub forget_one-Quiet :
    (x : Listener) (r : String) (kept : List String) (h : Hub) (c : Connection)
    → Quiet x h
    → Quiet x (forget_one r kept (h, c)).0
unfolding forget_one
forget_one-Quiet x r kept h c q = ground (arith, q)

pub beat-Quiet : (x : Listener) (h : Hub) (c : Connection) → Quiet x h → Quiet x (beat (h, c)).0
unfolding beat
beat-Quiet x h c q = ground (
  arith,
  add-Quiet x h.outputs (pinged c.socket ∷ []) q refl,
  add-Quiet x h.outputs (terminated c.socket ∷ []) q refl,
)

-- A connection that waits is in no room.
pub waits-out :
    (x : ℕ) (r : String) (h : Hub) (cs : List Connection)
    → All (Good h) cs
    → waits x cs ≡ true
    → has_socket h.rooms r x ≡ false
waits-out x r h [] g w = cc
waits-out x r h (c ∷ cs) ((gr, gk, o), gs) w = elim (Bool-cases (is_socket x c && c.pending)) [
  | inr e ↦ waits-out x r h cs gs (ground (arith, w, e))
  | inl e ↦
      let same : c.socket ≡ x = ground (arith, e) in
      let room : option_is c.room_id r ≡ false = ground (arith, o, e) in
      ap (has_socket h.rooms r) (sym same) ∙ gr r ∙ room
]

pub heard-out :
    (x : Listener) (skip : Bool) (cs : List Connection) (event : ServerEvent) (sockets : List ℕ)
    → is_in x.socket sockets ≡ false
    → all (is_quiet x) (heard skip cs event sockets) ≡ true
unfolding heard
heard-out x skip cs event [] e = refl
heard-out x skip cs event (s ∷ sockets) e = ground (arith, e, heard-out x skip cs event sockets)

no_conn : (x : ℕ) (cs : List Connection) → has_conn x cs ≡ false → any (can_hear true x) cs ≡ false
no_conn x [] e = refl
no_conn x (c ∷ cs) e = ground (arith, e, no_conn x cs)

pub waits-has_conn : (x : ℕ) (cs : List Connection) → has_conn x cs ≡ false → waits x cs ≡ false
waits-has_conn x [] e = refl
waits-has_conn x (c ∷ cs) e = ground (arith, e, waits-has_conn x cs)

-- Nor does it hear what its session is told.
pub waits-deaf :
    (x : ℕ) (cs : List Connection) → Apart cs → waits x cs ≡ true → any (can_hear true x) cs ≡ false
waits-deaf x [] a w = refl
waits-deaf x (c ∷ cs) (out, a) w = elim (Bool-cases (is_socket x c)) [
  | inl e ↦
      let same : c.socket ≡ x = ground (arith, e) in
      let out' : has_conn x cs ≡ false = ap (λ y. has_conn y cs) (sym same) ∙ out in
      ground (arith, w, e, no_conn x cs out', waits-has_conn x cs out')
  | inr e ↦ ground (arith, w, e, waits-deaf x cs a)
]

pub heard-deaf :
    (x : Listener) (skip : Bool) (cs : List Connection) (event : ServerEvent) (sockets : List ℕ)
    → any (can_hear skip x.socket) cs ≡ false
    → all (is_quiet x) (heard skip cs event sockets) ≡ true
unfolding heard
heard-deaf x skip cs event [] e = refl
heard-deaf x skip cs event (s ∷ sockets) e = elim (Bool-cases (eqb s x.socket)) [
  | inr f ↦ ground (arith, f, heard-deaf x skip cs event sockets e)
  | inl f ↦
      let same : s ≡ x.socket = ground (arith, f) in
      let silent : any (can_hear skip s) cs ≡ false = ap (λ y. any (can_hear skip y) cs) same ∙ e in
      ground (arith, silent, heard-deaf x skip cs event sockets e)
]
