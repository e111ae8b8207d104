-- ===== src/Socket/Server/Running/Own.antt =====
-- gateway/src/ws/server.ts: the one connection of a socket that waits to be let in.
use rmcollab_model.Common.{
  ℕ, ◌≡◌, sym, ap, ◌∙◌, String, Bool, true, false, Option, some, List, [], ◌∷◌, eqb, find?,
  option_is, arith, Bool-cases, inl, inr, All,
}
use rmcollab_model.Socket.Server.{Connection}
use rmcollab_model.Socket.Server.Running.{Input, is_socket, session_event}
use rmcollab_model.Socket.Server.Running.Consistent.{Apart, has_conn}
use rmcollab_model.Socket.Server.Running.Quiet.{Listener}
use rmcollab_model.Socket.Server.Running.Deaf.{Matches, Ends}

-- The connections of the listener's socket are one.
abbrev pub Own : Listener → Connection → Connection → Type 0
Own x c d = eqb d.socket x.socket ≡ true → d ≡ c

pub found-Own :
    (x : Listener) (cs : List Connection) (c : Connection)
    → Apart cs
    → find? (is_socket x.socket) cs ≡ some c
    → All (Own x c) cs
found-Own x [] c a e = tt
found-Own x (d ∷ cs) c (out, a) e = elim (Bool-cases (is_socket x.socket d)) [
  | inl f ↦
      let same : d.socket ≡ x.socket = ground (arith, f) in
      let found : d ≡ c = ground (arith, e, f) in
      (λ g. found, no_others cs (ap (λ n. has_conn n cs) (sym same) ∙ out))
  | inr f ↦ (λ g. (let no = g in cc), found-Own x cs c a (ground (arith, e, f)))
]
  where
    no_others : (ds : List Connection) → has_conn x.socket ds ≡ false → All (Own x c) ds
    no_others [] e = tt
    no_others (d ∷ ds) e = (
      λ g. (let no : eqb d.socket x.socket ≡ false = ground (arith, e) in cc),
      no_others ds (ground (arith, e)),
    )

pub Own-Matches :
    (x : Listener) (c : Connection) (cs : List Connection)
    → c.participant_id ≡ x.participant_id
    → All (Own x c) cs
    → All (Matches x) cs
Own-Matches x c [] e o = tt
Own-Matches x c (d ∷ cs) e (o, os) =
    (λ g. ap (λ y. y.participant_id) (o g) ∙ e, Own-Matches x c cs e os)

pub Own-Ends :
    (x : Listener) (k : String) (c : Connection) (cs : List Connection)
    → x.may_end ≡ option_is c.session_id k
    → All (Own x c) cs
    → All (Ends x k) cs
Own-Ends x k c [] e o = tt
Own-Ends x k c (d ∷ cs) e (o, os) =
    (λ g f. e ∙ ap (λ y. option_is y.session_id k) (sym (o g)) ∙ f, Own-Ends x k c cs e os)

-- The input is an event of the session.
abbrev pub is_told : Option String → Input → Bool
is_told session_id (session_event k event) = option_is session_id k
is_told session_id _ = false

-- Who hears the answers to a connection that waits.
abbrev pub listener : ℕ → Connection → Input → Listener
listener socket c input = record {
  socket = socket;
  participant_id = c.participant_id;
  may_end = is_told c.session_id input;
}
