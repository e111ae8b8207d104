-- ===== src/Socket/Server/Running/Consistent.antt =====
-- gateway/src/ws/server.ts: what the registries and the connections have to do with each other.
use rmcollab_model.Common.{
  ℕ, ◌≡◌, refl, ap, ◌∙◌, String, Bool, true, false, List, [], ◌∷◌, any, eqb, ltb, arith, All,
}
use rmcollab_model.Socket.Server.{Connection, Hub}
use rmcollab_model.Socket.Server.Told.{each}
use rmcollab_model.Socket.Server.Running.{is_socket}
use rmcollab_model.Socket.Registry.Members.{has_socket}
use rmcollab_model.Socket.Server.Running.Keeps.{Keeps, in_order, AgreesOnRoom, AgreesOnSession}

-- The connection stands in the group of its room and of its session, and in no other.
abbrev pub Good : Hub → Connection → Type 0
Good h c =
    ((r : String) → AgreesOnRoom h c r)
    × ((k : String) → AgreesOnSession h c k)
    × (in_order c ≡ true)

-- A number has the same places in two hubs' groups.
abbrev pub Spared : Hub → Hub → ℕ → Type 0
Spared h h' x =
    ((r : String) → has_socket h'.rooms r x ≡ has_socket h.rooms r x)
    × ((k : String) → has_socket h'.sessions k x ≡ has_socket h.sessions k x)

abbrev pub has_conn : ℕ → List Connection → Bool
has_conn x cs = any (is_socket x) cs

-- The connections have sockets of their own.
abbrev pub Apart : List Connection → Type 0
Apart [] = Unit
Apart (c ∷ cs) = (has_conn c.socket cs ≡ false) × Apart cs

-- Whoever stands in a group has had their number given to them.
abbrev pub Known : Hub → ℕ → Type 0
Known h next =
    ((r : String) (x : ℕ) → ltb x next ≡ false → has_socket h.rooms r x ≡ false)
    × ((k : String) (x : ℕ) → ltb x next ≡ false → has_socket h.sessions k x ≡ false)

abbrev pub IsBefore : ℕ → Connection → Type 0
IsBefore n c = ltb c.socket n ≡ true

abbrev pub Sound : Hub → List Connection → ℕ → Type 0
Sound h cs next = All (Good h) cs × Apart cs × Known h next × All (IsBefore next) cs

pub unused :
    (x next : ℕ) (cs : List Connection)
    → All (IsBefore next) cs
    → ltb x next ≡ false
    → has_conn x cs ≡ false
unused x next [] b e = refl
unused x next (c ∷ cs) (b, bs) e = ground (arith, b, e, unused x next cs bs e)

pub eqb_sym : (m n : ℕ) → eqb m n ≡ eqb n m
eqb_sym m n = ground arith

pub Spared-Good : (h h' : Hub) (d : Connection) → Spared h h' d.socket → Good h d → Good h' d
Spared-Good h h' d (e, f) (a, b, o) = (λ r. e r ∙ a r, λ k. f k ∙ b k, o)

pub Keeps-Good : (h h' : Hub) (c c' : Connection) → Keeps (h, c) (h', c') → Good h c → Good h' c'
unfolding Keeps
Keeps-Good h h' c c' (s, r, k, ar, ak, o) (a, b, i) = (λ q. ar q (a q), λ q. ak q (b q), o i)

pub Keeps-Spared :
    (h h' : Hub) (c c' : Connection) (x : ℕ)
    → Keeps (h, c) (h', c')
    → eqb c.socket x ≡ false
    → Spared h h' x
unfolding Keeps
Keeps-Spared h h' c c' x (s, r, k, _, _, _) e = (λ q. r q x e, λ q. k q x e)

pub Keeps-socket : (h h' : Hub) (c c' : Connection) → Keeps (h, c) (h', c') → c'.socket ≡ c.socket
unfolding Keeps
Keeps-socket h h' c c' (s, _, _, _, _, _) = s

pub Keeps-in_order :
    (h h' : Hub) (c c' : Connection)
    → Keeps (h, c) (h', c')
    → in_order c ≡ true
    → in_order c' ≡ true
unfolding Keeps
Keeps-in_order h h' c c' (s, r, k, ar, ak, o) = o

pub Spared-All :
    (h h' : Hub) (x : ℕ) (cs : List Connection)
    → ((y : ℕ) → eqb x y ≡ false → Spared h h' y)
    → has_conn x cs ≡ false
    → All (Good h) cs
    → All (Good h') cs
Spared-All h h' x [] f e g = tt
Spared-All h h' x (c ∷ cs) f e (g, gs) = (
  Spared-Good h h' c (f c.socket (ground (arith, e, eqb_sym c.socket x))) g,
  Spared-All h h' x cs f (ground (arith, e)) gs,
)

module _ (act : Hub × Connection → Hub × Connection)
    (keeps : (h : Hub) (c : Connection) → Keeps (h, c) (act (h, c))) where
  pub each-has_conn :
      (x : ℕ) (h : Hub) (cs : List Connection) → has_conn x (each act h cs).1 ≡ has_conn x cs
  unfolding each
  each-has_conn x h [] = refl
  each-has_conn x h (c ∷ cs) =
      let hc = act (h, c) in
      rw (Keeps-socket h hc.0 c hc.1 (keeps h c), each-has_conn x hc.0 cs) refl

  each-Spared :
      (x : ℕ) (h : Hub) (cs : List Connection)
      → has_conn x cs ≡ false
      → Spared h (each act h cs).0 x
  unfolding each
  each-Spared x h [] e = (λ r. refl, λ k. refl)
  each-Spared x h (c ∷ cs) e =
      let hc = act (h, c) in
      let (a, b) = Keeps-Spared h hc.0 c hc.1 x (keeps h c) (ground (arith, e)) in
      let (a', b') = each-Spared x hc.0 cs (ground (arith, e)) in (λ r. a' r ∙ a r, λ k. b' k ∙ b k)

  each-Good :
      (h : Hub) (cs : List Connection)
      → Apart cs
      → All (Good h) cs
      → All (Good (each act h cs).0) (each act h cs).1
  unfolding each
  each-Good h [] apart g = tt
  each-Good h (c ∷ cs) (out, apart) (g, gs) =
      let hc = act (h, c) in
      let same = Keeps-socket h hc.0 c hc.1 (keeps h c) in
      (
        Spared-Good hc.0 (each act hc.0 cs).0 hc.1
            (each-Spared hc.1.socket hc.0 cs (ap (λ x. has_conn x cs) same ∙ out))
            (Keeps-Good h hc.0 c hc.1 (keeps h c) g),
        each-Good hc.0 cs apart (
            Spared-All h hc.0 c.socket cs (λ y e. Keeps-Spared h hc.0 c hc.1 y (keeps h c) e) out
              gs),
      )

  each-Apart : (h : Hub) (cs : List Connection) → Apart cs → Apart (each act h cs).1
  unfolding each
  each-Apart h [] apart = tt
  each-Apart h (c ∷ cs) (out, apart) =
      let hc = act (h, c) in
      let same = Keeps-socket h hc.0 c hc.1 (keeps h c) in
      (
        each-has_conn hc.1.socket hc.0 cs ∙ ap (λ x. has_conn x cs) same ∙ out,
        each-Apart hc.0 cs apart,
      )

  each-IsBefore :
      (n : ℕ) (h : Hub) (cs : List Connection)
      → All (IsBefore n) cs
      → All (IsBefore n) (each act h cs).1
  unfolding each
  each-IsBefore n h [] b = tt
  each-IsBefore n h (c ∷ cs) (b, bs) =
      let hc = act (h, c) in
      (ap (λ x. ltb x n) (Keeps-socket h hc.0 c hc.1 (keeps h c)) ∙ b, each-IsBefore n hc.0 cs bs)

  -- What each connection's handler keeps, all of them keep.
  pub each-Sound :
      (next : ℕ) (h : Hub) (cs : List Connection)
      → Sound h cs next
      → Sound (each act h cs).0 (each act h cs).1 next
  each-Sound next h cs (g, apart, (kr, ks), b) = (
    each-Good h cs apart g,
    each-Apart h cs apart,
    (
      λ r x e. (each-Spared x h cs (unused x next cs b e)).0 r ∙ kr r x e,
      λ r x e. (each-Spared x h cs (unused x next cs b e)).1 r ∙ ks r x e,
    ),
    each-IsBefore next h cs b,
  )
