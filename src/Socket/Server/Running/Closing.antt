-- ===== src/Socket/Server/Running/Closing.antt =====
-- gateway/src/ws/server.ts: closing a socket keeps the agreement of the registries with the connections.
use rmcollab_model.Socket.Presence.{Moment}
use rmcollab_model.Common.{
  ℕ, ◌≡◌, refl, ap, ◌∙◌, String, false, not, ◌&&◌, Option, none, some, List, [], ◌∷◌, eqb, find?,
  filter, option_is, arith, Bool-cases, Option-cases, inl, inr, All, find?-passes,
}
use rmcollab_model.Socket.Server.{Connection, Hub}
use rmcollab_model.Socket.Server.Running.{
  Server, is_socket, close, handle_close, disconnect, withdraw, unlist_session,
}
use rmcollab_model.Socket.Registry.Members.{has_socket}
use rmcollab_model.Socket.Server.Rooms.{leave_hub}
use rmcollab_model.Socket.Server.Running.Consistent.{
  Good, Sound, Spared, Apart, has_conn, IsBefore, Spared-Good, eqb_sym,
}
use rmcollab_model.Common.{All-find?, All-filter, subst}
use rmcollab_model.Socket.Server.Running.Keeps.{leave_has, leave-sessions}
use rmcollab_model.Socket.Registry.Members.{has_socket-remove}
use rmcollab_model.Socket.Server.Running.Steps.{SoundServer, Left}

pub find-socket :
    (x : ℕ) (cs : List Connection) (c : Connection) → find? (is_socket x) cs ≡ some c → c.socket ≡ x
find-socket x cs c e = let h = find?-passes (is_socket x) cs c e in ground (arith, h)

disconnect-groups :
    (now : Moment) (c : Connection) (id session_id : Option String) (h : Hub)
    → ((disconnect now c id session_id h).rooms ≡ h.rooms)
      × ((disconnect now c id session_id h).sessions ≡ h.sessions)
unfolding disconnect
disconnect-groups now c none session_id h = (refl, refl)
disconnect-groups now c (some id) none h = (refl, refl)
disconnect-groups now c (some id) (some k) h = (refl, refl)

withdraw-groups :
    (others : List Connection) (c : Connection) (id session_id : Option String) (h : Hub)
    → ((withdraw others c id session_id h).rooms ≡ h.rooms)
      × ((withdraw others c id session_id h).sessions ≡ h.sessions)
unfolding withdraw
withdraw-groups others c none none h = (refl, refl)
withdraw-groups others c none (some k) h = (refl, refl)
withdraw-groups others c (some id) none h = (refl, refl)
withdraw-groups others c (some id) (some k) h = (refl, refl)

unlist-rooms : (o : Option String) (x : ℕ) (h : Hub) → (unlist_session o x h).rooms ≡ h.rooms
unfolding unlist_session
unlist-rooms none x h = refl
unlist-rooms (some k) x h = refl

unlist-sessions :
    (o : Option String) (y : ℕ) (h : Hub) (k : String) (x : ℕ)
    → has_socket (unlist_session o y h).sessions k x
      ≡ (has_socket h.sessions k x && not (option_is o k && eqb y x))
unfolding unlist_session
unlist-sessions none y h k x = ground arith
unlist-sessions (some q) y h k x = has_socket-remove h.sessions q k y x

-- The hub before the socket leaves its room and its session's group.
abbrev before_leaving : Moment → List Connection → Connection → Hub → Hub
before_leaving now others c h =
    withdraw others c c.participant_id c.session_id
      (disconnect now c c.participant_id c.session_id h)

before-groups :
    (now : Moment) (others : List Connection) (c : Connection) (h : Hub)
    → ((before_leaving now others c h).rooms ≡ h.rooms)
      × ((before_leaving now others c h).sessions ≡ h.sessions)
before-groups now others c h =
    let (a, b) = disconnect-groups now c c.participant_id c.session_id h in
    let (a', b') =
      withdraw-groups others c c.participant_id c.session_id
        (disconnect now c c.participant_id c.session_id h) in
    (a' ∙ a, b' ∙ b)

close-rooms :
    (now : Moment) (others : List Connection) (c : Connection) (h : Hub) (r : String) (x : ℕ)
    → has_socket (handle_close now others c h).rooms r x
      ≡ (has_socket h.rooms r x && not (option_is c.room_id r && eqb c.socket x))
unfolding handle_close
close-rooms now others c h r x =
    let h1 = before_leaving now others c h in
    ap (λ g. has_socket g r x) (unlist-rooms c.session_id c.socket (leave_hub now c.room_id c h1))
    ∙ leave_has now c.room_id h1 c r x
    ∙ ap (λ g. has_socket g r x && not (option_is c.room_id r && eqb c.socket x))
        (before-groups now others c h).0

close-sessions :
    (now : Moment) (others : List Connection) (c : Connection) (h : Hub) (k : String) (x : ℕ)
    → has_socket (handle_close now others c h).sessions k x
      ≡ (has_socket h.sessions k x && not (option_is c.session_id k && eqb c.socket x))
unfolding handle_close
close-sessions now others c h k x =
    let h1 = before_leaving now others c h in
    unlist-sessions c.session_id c.socket (leave_hub now c.room_id c h1) k x
    ∙ ap (λ g. has_socket g k x && not (option_is c.session_id k && eqb c.socket x))
        (leave-sessions now c.room_id h1 c ∙ (before-groups now others c h).1)

-- The connections other than the one that closes
module _ (h h' : Hub) (y : ℕ) (spared : (x : ℕ) → eqb y x ≡ false → Spared h h' x) where
  others-has_conn :
      (x : ℕ) (cs : List Connection)
      → has_conn x (filter (λ o. not (is_socket y o)) cs) ≡ (has_conn x cs && not (eqb y x))
  others-has_conn x [] = refl
  others-has_conn x (c ∷ cs) = ground (arith, others-has_conn x cs)

  others-Good :
      (cs : List Connection)
      → All (Good h) cs
      → All (Good h') (filter (λ o. not (is_socket y o)) cs)
  others-Good [] g = tt
  others-Good (c ∷ cs) (g, gs) = elim (Bool-cases (is_socket y c)) [
    | inl e ↦ rw (e) (others-Good cs gs)
    | inr e ↦
        rw (e) (Spared-Good h h' c (spared c.socket (eqb_sym y c.socket ∙ e)) g, others-Good cs gs)
  ]

  others-Apart : (cs : List Connection) → Apart cs → Apart (filter (λ o. not (is_socket y o)) cs)
  others-Apart [] a = tt
  others-Apart (c ∷ cs) (out, a) = elim (Bool-cases (is_socket y c)) [
    | inl e ↦ rw (e) (others-Apart cs a)
    | inr e ↦
        rw (e)
          (others-has_conn c.socket cs ∙ ap (λ b. b && not (eqb y c.socket)) out, others-Apart cs a)
  ]

closed-Sound :
    (now : Moment) (h : Hub) (c : Connection) (cs : List Connection) (next : ℕ)
    → Good h c
    → Sound h cs next
    → Sound
        (handle_close now (filter (λ o. not (is_socket c.socket o)) cs) c h)
        (filter (λ o. not (is_socket c.socket o)) cs)
        next
closed-Sound now h c cs next (gr, gk, o) (gs, apart, (kr, ks), b) = (
  others-Good h h' c.socket spared cs gs,
  others-Apart h h' c.socket spared cs apart,
  (
    λ r x e. ground (arith, close-rooms now others c h r x, kr r x e),
    λ k x e. ground (arith, close-sessions now others c h k x, ks k x e),
  ),
  All-filter (IsBefore next) (λ o. not (is_socket c.socket o)) cs b,
)
  where
    others : List Connection
    others = filter (λ o. not (is_socket c.socket o)) cs

    h' : Hub
    h' = handle_close now others c h

    spared : (x : ℕ) → eqb c.socket x ≡ false → Spared h h' x
    spared x e = (
      λ r. ground (arith, close-rooms now others c h r x, e),
      λ k. ground (arith, close-sessions now others c h k x, e),
    )

none_left :
    (x : ℕ) (cs : List Connection) → has_conn x (filter (λ o. not (is_socket x o)) cs) ≡ false
none_left x [] = refl
none_left x (c ∷ cs) = ground (arith, none_left x cs)

has_conn-others :
    (x y : ℕ) (cs : List Connection)
    → has_conn x cs ≡ false
    → has_conn x (filter (λ o. not (is_socket y o)) cs) ≡ false
has_conn-others x y [] e = refl
has_conn-others x y (c ∷ cs) e = ground (arith, has_conn-others x y cs (ground (arith, e)), e)

others-Left :
    (next y : ℕ) (cs ls : List Connection)
    → All (Left next cs) ls
    → All (Left next (filter (λ o. not (is_socket y o)) cs)) ls
others-Left next y cs [] g = tt
others-Left next y cs (d ∷ ls) ((o, b, out), g) =
    ((o, b, has_conn-others d.socket y cs out), others-Left next y cs ls g)

pub close-Sound :
    (now : Moment) (socket : ℕ) (s : Server) → SoundServer s → SoundServer (close now socket s)
unfolding close
close-Sound now socket s (sound, gone) = elim (Option-cases (find? (is_socket socket) s.conns)) [
  | inl e ↦ rw (close, e) (sound, gone)
  | inr (c, e) ↦
      let good : Good s.hub c = All-find? (is_socket socket) (Good s.hub) s.conns c sound.0 e in
      let before = All-find? (is_socket socket) (IsBefore s.next) s.conns c sound.3 e in
      let others = λ (x : ℕ). filter (λ o. not (is_socket x o)) s.conns in
      let same = find-socket socket s.conns c e in
      rw (close, e)
        (
          subst (λ x. Sound (handle_close now (others x) c s.hub) (others x) s.next) same
              (closed-Sound now s.hub c s.conns s.next good sound),
          (
            (refl, before, ap (λ x. has_conn x (others socket)) same ∙ none_left socket s.conns),
            others-Left s.next socket s.conns s.left gone,
          ),
        )
]
