-- ===== src/Socket/Server/Running/Agreed.antt =====
-- gateway/src/ws/server.ts: the registries and the connections, over the inputs of a replica.
use rmcollab_model.Common.{
  ℕ, suc, ◌≡◌, refl, ◌∙◌, String, true, false, List, [], ◌∷◌, ◌++◌, ltb, find?, arith, Bool-cases,
  Option-cases, inl, inr, All, All-append, any-append,
}
use rmcollab_model.Access.Database.{Database}
use rmcollab_model.Socket.Server.{moment, Connection, Hub, Env}
use rmcollab_model.Socket.Server.Joining.{complete_join}
use rmcollab_model.Socket.Server.Running.{
  Server, Input, is_socket, put, on_socket, on_state, on_pong, beat, answer_bad, connect, resume,
  apply_input, step, run, started, new_connection, connects, frame, bad_frame, closes, pongs, beats,
  resumes, room_event, session_event, elsewhere,
}
use rmcollab_model.Socket.Registry.Members.{has_socket}
use rmcollab_model.Socket.Server.Running.Keeps.{Keeps, in_order}
use rmcollab_model.Socket.Server.Running.Joined.{complete_join-Keeps}
use rmcollab_model.Socket.Server.Running.Handled.{handle_event-Keeps}
use rmcollab_model.Socket.Server.Frames.{handle_event}
use rmcollab_model.Socket.Server.Told.{each, on_room_event, on_session_event}
use rmcollab_model.Socket.Server.Running.Acts.{beat-Keeps, pong-Keeps, bad-Keeps}
use rmcollab_model.Socket.Server.Running.Consistent.{
  Good, Sound, Apart, Known, has_conn, IsBefore, each-Sound, each-has_conn,
}
use rmcollab_model.Common.{All-find?, any-find?, subst}
use rmcollab_model.Socket.Server.Running.Keeps.{eqb_refl}
use rmcollab_model.Socket.Server.Running.Steps.{
  SoundServer, Left, room_event-Sound, session_event-Sound, put-Sound, left-Sound, put-Left,
  put-has_conn, room_event-has_conn, session_event-has_conn,
}
use rmcollab_model.Socket.Server.Running.{quiet, open_of}
use rmcollab_model.Socket.Server.Running.Closing.{find-socket, close-Sound}

module _ (act : Hub × Connection → Hub × Connection)
    (keeps : (h : Hub) (c : Connection) → in_order c ≡ true → Keeps (h, c) (act (h, c))) where
  put-Lefts :
      (n : ℕ) (h : Hub) (c : Connection) (cs ls : List Connection)
      → in_order c ≡ true
      → All (Left n cs) ls
      → All (Left n (put c.socket (act (h, c)).1 cs)) ls
  put-Lefts n h c cs [] i g = tt
  put-Lefts n h c cs (d ∷ ls) i ((o, b, out), g) =
      let hc = act (h, c) in
      (
        (o, b, put-has_conn h hc.0 c hc.1 (keeps h c i) d.socket cs ∙ out),
        put-Lefts n h c cs ls i g,
      )

  on_socket-Sound : (socket : ℕ) (s : Server) → SoundServer s → SoundServer (on_socket socket act s)
  unfolding on_socket
  on_socket-Sound socket s (sound, gone) = elim (Option-cases (find? (is_socket socket) s.conns)) [
    | inl e ↦ rw (on_socket, e) (sound, gone)
    | inr (c, e) ↦
        let hc = act (s.hub, c) in
        let good : Good s.hub c = All-find? (is_socket socket) (Good s.hub) s.conns c sound.0 e in
        let same = find-socket socket s.conns c e in
        let here =
          any-find? (is_socket socket) (is_socket c.socket) s.conns c e (eqb_refl c.socket) in
        let put' =
          put-Sound s.hub hc.0 c hc.1 (keeps s.hub c good.2) s.conns s.next here good sound in
        rw (on_socket, e)
          (subst
            (λ x.
              Sound hc.0 (put x hc.1 s.conns) s.next
              × All (Left s.next (put x hc.1 s.conns)) s.left)
            same (put', put-Lefts s.next s.hub c s.conns s.left good.2 gone))
  ]

  on_state-Sound : (socket : ℕ) (s : Server) → SoundServer s → SoundServer (on_state socket act s)
  unfolding on_state
  on_state-Sound socket s (sound, gone) = elim (Option-cases (find? (is_socket socket) s.conns)) [
    | inr (c, e) ↦ rw (on_state, e) (on_socket-Sound socket s (sound, gone))
    | inl e ↦ elim (Option-cases (find? (is_socket socket) s.left)) [
      | inl f ↦ rw (on_state, e, f) (sound, gone)
      | inr (c, f) ↦
          let hc = act (s.hub, c) in
          let was : Left s.next s.conns c =
            All-find? (is_socket socket) (Left s.next s.conns) s.left c gone f in
          let k = keeps s.hub c was.0 in
          rw (on_state, e, f)
            (
              left-Sound s.hub hc.0 c hc.1 k s.conns s.next was.1 was.2 sound,
              subst (λ x. All (Left s.next s.conns) (put x hc.1 s.left))
                  (find-socket socket s.left c f)
                  (put-Left s.hub hc.0 c hc.1 k s.next s.conns s.left was gone),
            )
    ]
  ]

IsBefore-suc : (n : ℕ) (cs : List Connection) → All (IsBefore n) cs → All (IsBefore (suc n)) cs
IsBefore-suc n [] b = tt
IsBefore-suc n (c ∷ cs) (b, bs) = (ground (arith, b), IsBefore-suc n cs bs)

Apart-append :
    (n : Connection) (cs : List Connection)
    → All (IsBefore n.socket) cs
    → Apart cs
    → Apart (cs ++ n ∷ [])
Apart-append n [] b a = (refl, tt)
Apart-append n (c ∷ cs) (b, bs) (out, a) =
    (any-append (is_socket c.socket) cs (n ∷ []) ∙ ground (arith, b, out), Apart-append n cs bs a)

Left-suc :
    (n : Connection) (cs ls : List Connection)
    → All (Left n.socket cs) ls
    → All (Left (suc n.socket) (cs ++ n ∷ [])) ls
Left-suc n cs [] g = tt
Left-suc n cs (d ∷ ls) ((o, b, out), g) = (
  (o, ground (arith, b), any-append (is_socket d.socket) cs (n ∷ []) ∙ ground (arith, b, out)),
  Left-suc n cs ls g,
)

Left-refused : (n : ℕ) (cs ls : List Connection) → All (Left n cs) ls → All (Left (suc n) cs) ls
Left-refused n cs [] g = tt
Left-refused n cs (d ∷ ls) ((o, b, out), g) = ((o, ground (arith, b), out), Left-refused n cs ls g)

connect-Sound :
    (env : Env) (address : String) (s : Server)
    → SoundServer s
    → SoundServer (connect env address s)
unfolding connect
connect-Sound env address s ((gs, apart, (kr, ks), b), gone) =
    elim (Bool-cases (ltb env.connections_per_address (suc (open_of address s.per_address)))) [
      | inl e ↦
          rw (connect, e)
            (
              (gs, apart, known, IsBefore-suc s.next s.conns b),
              Left-refused s.next s.conns s.left gone,
            )
      | inr e ↦
          let n = new_connection env address s.next in
          let new : ltb s.next s.next ≡ false = ground arith in
          rw (connect, e)
            (
              (
                All-append (Good s.hub) s.conns (n ∷ []) gs
                    ((λ r. kr r s.next new, λ k. ks k s.next new, refl), tt),
                Apart-append n s.conns b apart,
                known,
                All-append (IsBefore (suc s.next)) s.conns (n ∷ []) (IsBefore-suc s.next s.conns b)
                    (ground arith, tt),
              ),
              Left-suc n s.conns s.left gone,
            )
    ]
  where
    known : Known s.hub (suc s.next)
    known = (λ r x f. kr r x (ground (arith, f)), λ k x f. ks k x (ground (arith, f)))

resume-Sound :
    (env : Env) (joins : List (ℕ × String)) (s : Server)
    → SoundServer s
    → SoundServer (resume env joins s)
unfolding resume
resume-Sound env [] s sound = sound
resume-Sound env ((socket, session_id) ∷ rest) s sound =
    on_state-Sound (complete_join env session_id) (λ h c o. complete_join-Keeps env session_id h c)
      socket (record s { resuming = rest }) sound

same-Left :
    (n : ℕ) (cs cs' ls : List Connection)
    → ((x : ℕ) → has_conn x cs' ≡ has_conn x cs)
    → All (Left n cs) ls
    → All (Left n cs') ls
same-Left n cs cs' [] f g = tt
same-Left n cs cs' (d ∷ ls) f ((o, b, out), g) =
    ((o, b, f d.socket ∙ out), same-Left n cs cs' ls f g)

apply-Sound :
    (env : Env) (s : Server) (input : Input) → SoundServer s → SoundServer (apply_input env s input)
unfolding apply_input
apply-Sound env s (connects address) sound = connect-Sound env address s sound
apply-Sound env s (frame socket event) sound =
    on_state-Sound (handle_event env event) (λ h c o. handle_event-Keeps env event h c o) socket s
      sound
apply-Sound env s (bad_frame socket is_json) sound =
    on_socket-Sound (answer_bad is_json) (λ h c o. bad-Keeps is_json h c) socket s sound
apply-Sound env s (closes socket) sound = close-Sound (moment env) socket s sound
apply-Sound env s (pongs socket) sound =
    on_socket-Sound (on_pong (moment env)) (λ h c o. pong-Keeps (moment env) h c) socket s sound
apply-Sound env s beats (sound, gone) = (
  each-Sound beat beat-Keeps s.next s.hub s.conns sound,
  same-Left s.next s.conns (each beat s.hub s.conns).1 s.left
      (λ x. each-has_conn beat beat-Keeps x s.hub s.conns) gone,
)
apply-Sound env s resumes sound = resume-Sound env s.resuming s sound
apply-Sound env s (room_event room_id event) (sound, gone) = (
  room_event-Sound (moment env) room_id event s.hub s.conns s.next sound,
  same-Left s.next s.conns (on_room_event (moment env) room_id event (s.hub, s.conns)).1 s.left
      (λ x. room_event-has_conn (moment env) room_id event s.hub s.conns x) gone,
)
apply-Sound env s (session_event session_id event) (sound, gone) = (
  session_event-Sound (moment env) session_id event s.hub s.conns s.next sound,
  same-Left s.next s.conns (on_session_event (moment env) session_id event (s.hub, s.conns)).1
      s.left (λ x. session_event-has_conn (moment env) session_id event s.hub s.conns x) gone,
)
apply-Sound env s (elsewhere db documents presence misses) sound = sound

pub step-Sound :
    (env : Env) (s : Server) (input : Input) → SoundServer s → SoundServer (step env s input)
unfolding step
step-Sound env s input sound = apply-Sound env (quiet s) input sound

-- Whatever a replica that has just started is given to do, where each handler runs to its end before
-- the next input, each of its open connections stands in the groups of its own room and session and
-- in no other, each has a number of its own, and one is in a room only once it has joined a session
-- and does not wait. A socket that has closed, whose frames may still put it into groups, has another
-- number than every open connection, and no group holds a number that was not yet given.
pub run-SoundServer :
    (db : Database) (inputs : List (Env × Input)) → SoundServer (run (started db) inputs)
unfolding run has_socket
run-SoundServer db inputs =
    from inputs (started db) ((tt, tt, (λ r x e. refl, λ k x e. refl), tt), tt)
  where
    from : (inputs : List (Env × Input)) (s : Server) → SoundServer s → SoundServer (run s inputs)
    from [] s sound = sound
    from ((env, input) ∷ inputs) s sound =
        from inputs (step env s input) (step-Sound env s input sound)
