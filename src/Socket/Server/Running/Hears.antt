-- ===== src/Socket/Server/Running/Hears.antt =====
-- gateway/src/ws/server.ts: what someone in the waiting room hears.
use rmcollab_model.Socket.Presence.{Moment}
use rmcollab_model.Common.{
  All, All-find?, any-find?, find?-passes, ℕ, ◌≡◌, refl, sym, ap, ◌∙◌, subst, String, Bool, true,
  false, not, ◌&&◌, some, List, [], ◌∷◌, all, eqb, find?, filter, arith, Bool-cases, Option-cases,
  inl, inr,
}
use rmcollab_model.Access.Database.{Database}
use rmcollab_model.Socket.Server.{moment, Connection, Hub, Env, closed, touched}
use rmcollab_model.Socket.Server.Joining.{complete_join}
use rmcollab_model.Socket.Server.Frames.{handle_event}
use rmcollab_model.Socket.Server.Running.{
  Server, Input, is_socket, put, on_socket, on_state, on_pong, beat, answer_bad, connect, close,
  resume, apply_input, step, run, started, quiet, connects, frame, bad_frame, closes, pongs, beats,
  resumes, room_event, session_event, elsewhere,
}
use rmcollab_model.Socket.Server.Running.Consistent.{Apart, has_conn}
use rmcollab_model.Socket.Server.Running.Steps.{SoundServer, Left}
use rmcollab_model.Socket.Server.Running.Agreed.{run-SoundServer}
use rmcollab_model.Socket.Server.Running.Closing.{find-socket}
use rmcollab_model.Socket.Server.Running.Quiet.{
  Listener, Quiet, is_quiet, add-Quiet, if-Quiet, complete_join-Other,
}
use rmcollab_model.Socket.Server.Running.QuietJoins.{fail-Quiet, complete_join-pending}
use rmcollab_model.Socket.Server.Running.QuietFrames.{handle_event-Quiet, AwayOr}
use rmcollab_model.Socket.Server.Running.Deaf.{waits, waits-has_conn, each-Quiet, beat-Quiet}
use rmcollab_model.Socket.Server.Running.Own.{
  Own, found-Own, Own-Matches, Own-Ends, is_told, listener,
}
use rmcollab_model.Socket.Server.Running.QuietEvents.{
  room_event-Quiet, session_event-Quiet, handle_close-Quiet,
}

waits-found :
    (x : ℕ) (cs : List Connection) (c : Connection)
    → Apart cs
    → find? (is_socket x) cs ≡ some c
    → waits x cs ≡ true
    → c.pending ≡ true
waits-found x [] c a e w = cc
waits-found x (d ∷ cs) c (out, a) e w = elim (Bool-cases (is_socket x d)) [
  | inl f ↦
      let same : d.socket ≡ x = ground (arith, f) in
      let found : d ≡ c = ground (arith, e, f) in
      let none_else = waits-has_conn x cs (ap (λ y. has_conn y cs) (sym same) ∙ out) in
      subst (λ y. y.pending ≡ true) found (ground (arith, w, f, none_else))
  | inr f ↦ waits-found x cs c a (ground (arith, e, f)) (ground (arith, w, f))
]

waits-put :
    (x : ℕ) (c' : Connection) (cs : List Connection)
    → waits x (put x c' cs) ≡ true
    → c'.pending ≡ true
waits-put x c' [] w = cc
waits-put x c' (d ∷ cs) w = elim (Bool-cases (c'.pending)) [
  | inl e ↦ e
  | inr e ↦ waits-put x c' cs (ground (arith, w, e))
]

waits-other :
    (x y : ℕ) (cs : List Connection) → has_conn y cs ≡ false → waits x cs ≡ true → eqb y x ≡ false
waits-other x y cs out w = elim (Bool-cases (eqb y x)) [
  | inr e ↦ e
  | inl e ↦
      let same : y ≡ x = ground (arith, e) in
      let none_waits = waits-has_conn x cs (ap (λ n. has_conn n cs) (sym same) ∙ out) in cc
]

on_socket-Quiet :
    (x : Listener) (y : ℕ) (act : Hub × Connection → Hub × Connection) (s : Server)
    → ((h : Hub) (c : Connection) → AwayOr x c (act (h, c)).1 → Quiet x h → Quiet x (act (h, c)).0)
    → Apart s.conns
    → waits x.socket s.conns ≡ true
    → waits x.socket (on_socket y act s).conns ≡ true
    → Quiet x s.hub
    → Quiet x (on_socket y act s).hub
unfolding on_socket
on_socket-Quiet x y act s f a w w' q = elim (Option-cases (find? (is_socket y) s.conns)) [
  | inl e ↦ rw (on_socket, e) q
  | inr (c, e) ↦
      let hc = act (s.hub, c) in
      let socket = find-socket y s.conns c e in
      let after : waits x.socket (put y hc.1 s.conns) ≡ true = rw (on_socket, e) at w' in
      rw (on_socket, e)
        (f s.hub c
          (elim (Bool-cases (eqb y x.socket)) [
            | inr k ↦ inl (ap (λ n. eqb n x.socket) socket ∙ k)
            | inl k ↦
                let same : y ≡ x.socket = ground (arith, k) in
                inr (
                  waits-found x.socket s.conns c a
                      (ap (λ n. find? (is_socket n) s.conns) (sym same) ∙ e) w,
                  waits-put x.socket hc.1 s.conns
                      (ap (λ n. waits x.socket (put n hc.1 s.conns)) (sym same) ∙ after),
                )
          ])
          q)
]

on_state-Quiet :
    (x : Listener) (y : ℕ) (act : Hub × Connection → Hub × Connection) (s : Server)
    → ((h : Hub) (c : Connection) → AwayOr x c (act (h, c)).1 → Quiet x h → Quiet x (act (h, c)).0)
    → SoundServer s
    → waits x.socket s.conns ≡ true
    → waits x.socket (on_state y act s).conns ≡ true
    → Quiet x s.hub
    → Quiet x (on_state y act s).hub
unfolding on_state
on_state-Quiet x y act s f (sound, gone) w w' q =
    elim (Option-cases (find? (is_socket y) s.conns)) [
      | inr (c, e) ↦
          rw (on_state, e) (on_socket-Quiet x y act s f sound.1 w (rw (on_state, e) at w') q)
      | inl e ↦ elim (Option-cases (find? (is_socket y) s.left)) [
        | inl g ↦ rw (on_state, e, g) q
        | inr (c, g) ↦
            let was : Left s.next s.conns c =
              All-find? (is_socket y) (Left s.next s.conns) s.left c gone g in
            rw (on_state, e, g) (f s.hub c (inl (waits-other x.socket c.socket s.conns was.2 w)) q)
      ]
    ]

join-Quiet :
    (x : Listener) (env : Env) (k : String) (h : Hub) (c : Connection)
    → AwayOr x c (complete_join env k (h, c)).1
    → Quiet x h
    → Quiet x (complete_join env k (h, c)).0
join-Quiet x env k h c (inl e) q = (complete_join-Other x env k (h, c) (e, q)).1
join-Quiet x env k h c (inr (p, r)) q = let no = complete_join-pending env k h c in cc

pong-Quiet :
    (x : Listener) (now : Moment) (h : Hub) (c : Connection)
    → Quiet x h
    → Quiet x (on_pong now (h, c)).0
unfolding on_pong
pong-Quiet x now h c q =
    if-Quiet x (not c.pending && not c.closing) h.outputs (touched c.session_id ∷ []) q refl

bad-Quiet :
    (x : Listener) (is_json : Bool) (h : Hub) (c : Connection)
    → Quiet x h
    → Quiet x (answer_bad is_json (h, c)).0
unfolding answer_bad
bad-Quiet x true h c q = fail-Quiet x c _ _ h q
bad-Quiet x false h c q = fail-Quiet x c _ _ h q

connect-Quiet :
    (x : Listener) (env : Env) (address : String) (s : Server)
    → Quiet x s.hub
    → Quiet x (connect env address s).hub
unfolding connect
connect-Quiet x env address s q =
    ground (arith, q, add-Quiet x s.hub.outputs (closed s.next 1013 ∷ []) q refl)

close-Quiet :
    (x : Listener) (now : Moment) (y : ℕ) (s : Server) → Quiet x s.hub → Quiet x (close now y s).hub
unfolding close
close-Quiet x now y s q = elim (Option-cases (find? (is_socket y) s.conns)) [
  | inl e ↦ rw (close, e) q
  | inr (c, e) ↦
      rw (close, e) (handle_close-Quiet x now (filter (λ o. not (is_socket y o)) s.conns) c s.hub q)
]

resume-Quiet :
    (x : Listener) (env : Env) (joins : List (ℕ × String)) (s : Server)
    → SoundServer s
    → waits x.socket s.conns ≡ true
    → waits x.socket (resume env joins s).conns ≡ true
    → Quiet x s.hub
    → Quiet x (resume env joins s).hub
unfolding resume
resume-Quiet x env [] s a w w' q = q
resume-Quiet x env ((y, k) ∷ rest) s a w w' q =
    on_state-Quiet x y (complete_join env k) (record s { resuming = rest }) (join-Quiet x env k) a w
      w' q

apply-Quiet :
    (x : Listener) (c : Connection) (env : Env) (s : Server) (input : Input)
    → SoundServer s
    → All (Own x c) s.conns
    → c.participant_id ≡ x.participant_id
    → x.may_end ≡ is_told c.session_id input
    → waits x.socket s.conns ≡ true
    → waits x.socket (apply_input env s input).conns ≡ true
    → Quiet x s.hub
    → Quiet x (apply_input env s input).hub
unfolding apply_input
apply-Quiet x c env s (connects address) sound o p e w w' q = connect-Quiet x env address s q
apply-Quiet x c env s (frame y event) sound o p e w w' q =
    on_state-Quiet x y (handle_event env event) s (handle_event-Quiet x env event) sound w w' q
apply-Quiet x c env s (bad_frame y is_json) sound o p e w w' q =
    on_socket-Quiet x y (answer_bad is_json) s (λ h c a q. bad-Quiet x is_json h c q) sound.0.1 w w'
      q
apply-Quiet x c env s (closes y) sound o p e w w' q = close-Quiet x (moment env) y s q
apply-Quiet x c env s (pongs y) sound o p e w w' q =
    on_socket-Quiet x y (on_pong (moment env)) s (λ h c a q. pong-Quiet x (moment env) h c q)
      sound.0.1 w w' q
apply-Quiet x c env s beats sound o p e w w' q =
    each-Quiet x (Own x c) beat (λ h c p q. beat-Quiet x h c q) s.hub s.conns o q
apply-Quiet x c env s resumes sound o p e w w' q = resume-Quiet x env s.resuming s sound w w' q
apply-Quiet x c env s (room_event r event) sound o p e w w' q =
    room_event-Quiet x (moment env) r event s.hub s.conns s.next sound.0
      (Own-Matches x c s.conns p o) w' q
apply-Quiet x c env s (session_event k event) sound o p e w w' q =
    session_event-Quiet x (moment env) k event s.hub s.conns s.next sound.0
      (Own-Matches x c s.conns p o) (Own-Ends x k c s.conns e o) w' q
apply-Quiet x c env s (elsewhere db documents presence misses) sound o p e w w' q = q

found-waits :
    (x : ℕ) (cs : List Connection) (c : Connection)
    → find? (is_socket x) cs ≡ some c
    → c.pending ≡ true
    → waits x cs ≡ true
found-waits x cs c e p =
    any-find? (is_socket x) (λ d. is_socket x d && d.pending) cs c e
      (let h = find?-passes (is_socket x) cs c e in ground (arith, h, p))

-- After whatever run, a socket whose connection waits to be let in, and still waits after the next
-- input, is sent nothing on that input but errors, pongs, that it waits, decisions on its own person's
-- admission, its own person's removal, and, where the input is an event of its own session, the end of
-- a session.
pub waiting_hears_answers :
    (db : Database) (inputs : List (Env × Input)) (env : Env) (input : Input) (socket : ℕ)
    (c : Connection)
    → find? (is_socket socket) (run (started db) inputs).conns ≡ some c
    → c.pending ≡ true
    → waits socket (step env (run (started db) inputs) input).conns ≡ true
    → all
        (is_quiet (listener socket c input))
        (step env (run (started db) inputs) input).hub.outputs
      ≡ true
unfolding step
waiting_hears_answers db inputs env input socket c e p w' =
    let s = run (started db) inputs in
    let sound = run-SoundServer db inputs in
    apply-Quiet (listener socket c input) c env (quiet s) input sound
      (found-Own (listener socket c input) s.conns c sound.0.1 e) refl refl
      (found-waits socket s.conns c e p) w' refl
