-- ===== src/Socket/Server/Running/Steps.antt =====
-- gateway/src/ws/server.ts: every input keeps the agreement of the registries with the connections.
use rmcollab_model.Socket.Presence.{Moment}
use rmcollab_model.Common.{
  ℕ, ◌≡◌, refl, ap, ◌∙◌, String, true, false, List, [], ◌∷◌, eqb, ltb, if◌then◌else◌, arith,
  Bool-cases, inl, inr, All,
}
use rmcollab_model.Shared.Events.{
  ServerEvent, participant_removed, documents_updated, session_ended, admission_decided,
}
use rmcollab_model.Socket.Server.{Connection, Hub}
use rmcollab_model.Socket.Server.Told.{
  each, remove_one, forget_one, end_one, decide_one, to_members, to_session_members, on_room_event,
  on_session_event, discard_rooms, ids_of,
}
use rmcollab_model.Socket.Server.Running.{Server, is_socket, put}
use rmcollab_model.Socket.Registry.Members.{has_socket}
use rmcollab_model.Socket.Server.Running.Keeps.{Keeps, in_order}
use rmcollab_model.Socket.Registry.{Group}
use rmcollab_model.Socket.Server.Running.Acts.{
  remove_one-Keeps, forget_one-Keeps, end_one-Keeps, decide_one-Keeps,
}
use rmcollab_model.Socket.Server.Running.Consistent.{
  Good, Sound, Apart, Spared-All, Keeps-in_order, has_conn, IsBefore, each-Sound, each-has_conn,
  Spared-Good, Keeps-Good, Keeps-Spared, Keeps-socket, eqb_sym, unused,
}

-- What is sent and published changes no group.
pub hub-Sound :
    (h h' : Hub) (cs : List Connection) (next : ℕ)
    → h'.rooms ≡ h.rooms
    → h'.sessions ≡ h.sessions
    → Sound h cs next
    → Sound h' cs next
hub-Sound h h' cs next e f (g, apart, (kr, ks), b) =
    (good cs g, apart, (λ r x o. same e r x ∙ kr r x o, λ r x o. same f r x ∙ ks r x o), b)
  where
    same :
        {gs gs' : List Group}
        → gs' ≡ gs
        → (r : String) (x : ℕ) → has_socket gs' r x ≡ has_socket gs r x
    same e r x = ap (λ y. has_socket y r x) e

    good : (ds : List Connection) → All (Good h) ds → All (Good h') ds
    good [] g = tt
    good (d ∷ ds) (g, gs) =
        (Spared-Good h h' d (λ r. same e r d.socket, λ r. same f r d.socket) g, good ds gs)

-- The state of a socket that has closed.
abbrev pub Left : ℕ → List Connection → Connection → Type 0
Left next cs c = (in_order c ≡ true) × IsBefore next c × (has_conn c.socket cs ≡ false)

abbrev pub SoundServer : Server → Type 0
SoundServer s = Sound s.hub s.conns s.next × All (Left s.next s.conns) s.left

pub room_event-Sound :
    (now : Moment) (room_id : String) (event : ServerEvent) (h : Hub) (cs : List Connection)
    (next : ℕ)
    → Sound h cs next
    → Sound
        (on_room_event now room_id event (h, cs)).0
        (on_room_event now room_id event (h, cs)).1
        next
unfolding on_room_event to_members
room_event-Sound now room_id (participant_removed r id scope by_name) h cs next s =
    let act = remove_one now r id scope by_name in
    hub-Sound (each act h cs).0
      (on_room_event now room_id (participant_removed r id scope by_name) (h, cs)).0
      (each act h cs).1 next refl refl
      (each-Sound act (remove_one-Keeps now r id scope by_name) next h cs s)
room_event-Sound now room_id (documents_updated r documents) h cs next s =
    let act = forget_one room_id (ids_of documents) in
    hub-Sound (each act h cs).0
      (on_room_event now room_id (documents_updated r documents) (h, cs)).0 (each act h cs).1 next
      refl refl (each-Sound act (forget_one-Keeps room_id (ids_of documents)) next h cs s)
room_event-Sound now room_id event h cs next s =
    hub-Sound h (on_room_event now room_id event (h, cs)).0 cs next refl refl s

pub session_event-Sound :
    (now : Moment) (session_id : String) (event : ServerEvent) (h : Hub) (cs : List Connection)
    (next : ℕ)
    → Sound h cs next
    → Sound
        (on_session_event now session_id event (h, cs)).0
        (on_session_event now session_id event (h, cs)).1
        next
unfolding on_session_event to_session_members
session_event-Sound now session_id (participant_removed r id scope by_name) h cs next s =
    let act = remove_one now r id scope by_name in
    hub-Sound (each act h cs).0
      (on_session_event now session_id (participant_removed r id scope by_name) (h, cs)).0
      (each act h cs).1 next refl refl
      (each-Sound act (remove_one-Keeps now r id scope by_name) next h cs s)
session_event-Sound now session_id (session_ended k by_name room_ids) h cs next s =
    let h' = discard_rooms room_ids h in
    each-Sound (end_one session_id (session_ended k by_name room_ids))
      (end_one-Keeps session_id (session_ended k by_name room_ids)) next h' cs
      (hub-Sound h h' cs next refl refl s)
session_event-Sound now session_id (admission_decided k id admitted by_name) h cs next s =
    let event = admission_decided k id admitted by_name in
    let act = decide_one id admitted event in
    hub-Sound (each act h cs).0
      (on_session_event now session_id (admission_decided k id admitted by_name) (h, cs)).0
      (each act h cs).1 next refl refl
      (each-Sound act (decide_one-Keeps id admitted event) next h cs s)
session_event-Sound now session_id event h cs next s =
    hub-Sound h (on_session_event now session_id event (h, cs)).0 cs next refl refl s

pub room_event-has_conn :
    (now : Moment) (room_id : String) (event : ServerEvent) (h : Hub) (cs : List Connection) (x : ℕ)
    → has_conn x (on_room_event now room_id event (h, cs)).1 ≡ has_conn x cs
unfolding on_room_event to_members
room_event-has_conn now room_id (participant_removed r id scope by_name) h cs x =
    each-has_conn (remove_one now r id scope by_name) (remove_one-Keeps now r id scope by_name) x h
      cs
room_event-has_conn now room_id (documents_updated r documents) h cs x =
    each-has_conn (forget_one room_id (ids_of documents))
      (forget_one-Keeps room_id (ids_of documents)) x h cs
room_event-has_conn now room_id event h cs x = refl

pub session_event-has_conn :
    (now : Moment) (session_id : String) (event : ServerEvent) (h : Hub) (cs : List Connection)
    (x : ℕ)
    → has_conn x (on_session_event now session_id event (h, cs)).1 ≡ has_conn x cs
unfolding on_session_event to_session_members
session_event-has_conn now session_id (participant_removed r id scope by_name) h cs x =
    each-has_conn (remove_one now r id scope by_name) (remove_one-Keeps now r id scope by_name) x h
      cs
session_event-has_conn now session_id (session_ended k by_name room_ids) h cs x =
    each-has_conn (end_one session_id (session_ended k by_name room_ids))
      (end_one-Keeps session_id (session_ended k by_name room_ids)) x (discard_rooms room_ids h) cs
session_event-has_conn now session_id (admission_decided k id admitted by_name) h cs x =
    let event = admission_decided k id admitted by_name in
    each-has_conn (decide_one id admitted event) (decide_one-Keeps id admitted event) x h cs
session_event-has_conn now session_id event h cs x = refl

-- What is put in the place of a connection, by a handler of it.
module _ (h h' : Hub) (c c' : Connection) (k : Keeps (h, c) (h', c')) where
  pub put-has_conn :
      (x : ℕ) (cs : List Connection) → has_conn x (put c.socket c' cs) ≡ has_conn x cs
  put-has_conn x [] = refl
  put-has_conn x (d ∷ cs) = ground (arith, put-has_conn x cs, Keeps-socket h h' c c' k)

  put-Good :
      (cs : List Connection) → Good h c → All (Good h) cs → All (Good h') (put c.socket c' cs)
  put-Good [] g gs = tt
  put-Good (d ∷ cs) g (gd, gs) = (one, put-Good cs g gs)
    where
      one : Good h' (if is_socket c.socket d then c' else d)
      one = elim (Bool-cases (is_socket c.socket d)) [
        | inl e ↦ rw (e) (Keeps-Good h h' c c' k g)
        | inr e ↦ rw (e) (
            Spared-Good h h' d (Keeps-Spared h h' c c' d.socket k (eqb_sym c.socket d.socket ∙ e))
              gd)
      ]

  put-Apart : (cs : List Connection) → Apart cs → Apart (put c.socket c' cs)
  put-Apart [] a = tt
  put-Apart (d ∷ cs) (out, a) = (
    put-has_conn (if is_socket c.socket d then c' else d).socket cs
        ∙ ap (λ x. has_conn x cs) same
        ∙ out,
    put-Apart cs a,
  )
    where
      same : (if is_socket c.socket d then c' else d).socket ≡ d.socket
      same = ground (arith, Keeps-socket h h' c c' k)

  put-IsBefore :
      (n : ℕ) (cs : List Connection) → All (IsBefore n) cs → All (IsBefore n) (put c.socket c' cs)
  put-IsBefore n [] b = tt
  put-IsBefore n (d ∷ cs) (b, bs) =
      (ground (arith, b, Keeps-socket h h' c c' k), put-IsBefore n cs bs)

  -- The same, of a socket that has closed
  pub left-Sound :
      (cs : List Connection) (next : ℕ)
      → IsBefore next c
      → has_conn c.socket cs ≡ false
      → Sound h cs next
      → Sound h' cs next
  left-Sound cs next bc out (gs, a, (kr, ks), b) = (
    Spared-All h h' c.socket cs (λ y e. Keeps-Spared h h' c c' y k e) out gs,
    a,
    (
      λ r x e. (Keeps-Spared h h' c c' x k (ground (arith, bc, e))).0 r ∙ kr r x e,
      λ r x e. (Keeps-Spared h h' c c' x k (ground (arith, bc, e))).1 r ∙ ks r x e,
    ),
    b,
  )

  pub put-Left :
      (next : ℕ) (cs ls : List Connection)
      → Left next cs c
      → All (Left next cs) ls
      → All (Left next cs) (put c.socket c' ls)
  put-Left next cs [] g gs = tt
  put-Left next cs (d ∷ ls) (o, b, out) (gd, gs) = (one, put-Left next cs ls (o, b, out) gs)
    where
      same : c'.socket ≡ c.socket
      same = Keeps-socket h h' c c' k

      one : Left next cs (if is_socket c.socket d then c' else d)
      one = elim (Bool-cases (is_socket c.socket d)) [
        | inl e ↦ rw (e) (
          Keeps-in_order h h' c c' k o,
          ap (λ x. ltb x next) same ∙ b,
          ap (λ x. has_conn x cs) same ∙ out,
        )
        | inr e ↦ rw (e) gd
      ]

  pub put-Sound :
      (cs : List Connection) (next : ℕ)
      → has_conn c.socket cs ≡ true
      → Good h c
      → Sound h cs next
      → Sound h' (put c.socket c' cs) next
  put-Sound cs next here g (gs, a, (kr, ks), b) = (
    put-Good cs g gs,
    put-Apart cs a,
    (
      λ r x e. (Keeps-Spared h h' c c' x k (other x (unused x next cs b e))).0 r ∙ kr r x e,
      λ r x e. (Keeps-Spared h h' c c' x k (other x (unused x next cs b e))).1 r ∙ ks r x e,
    ),
    put-IsBefore next cs b,
  )
    where
      other : (x : ℕ) → has_conn x cs ≡ false → eqb c.socket x ≡ false
      other x out = elim (Bool-cases (eqb c.socket x)) [
        | inl e ↦ let same : c.socket ≡ x = ground (arith, e) in cc
        | inr e ↦ e
      ]
