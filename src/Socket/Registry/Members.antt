-- ===== src/Socket/Registry/Members.antt =====
-- gateway/src/ws/registry.ts: which sockets stand in a group.
use rmcollab_model.Common.{
  ℕ, ◌≡◌, refl, ap, String, Bool, true, false, not, ◌&&◌, ◌||◌, List, [], ◌∷◌, any, eqb, ◌==◌,
  arith, eq_iff, any-append,
}
use rmcollab_model.Socket.Registry.{
  Group, members, add_socket, delete_socket, has_key, add_member, remove_member,
}
use rmcollab_model.Socket.Registry.Subscribed.{members-set_group, members-delete_group}

abbrev pub is_in : ℕ → List ℕ → Bool
is_in s sockets = any (λ x. eqb x s) sockets

-- The socket stands in the key's group.
unfoldable pub has_socket : List Group → String → ℕ → Bool
unfolding members
has_socket groups key s = is_in s (members groups key)

is_in-add :
    (sockets : List ℕ) (s x : ℕ) → is_in x (add_socket sockets s) ≡ (is_in x sockets || eqb s x)
is_in-add sockets s x = ground (arith, any-append (λ y. eqb y x) sockets (s ∷ []), same sockets)
  where
    same : (sockets : List ℕ) → is_in s sockets ≡ true → eqb s x ≡ true → is_in x sockets ≡ true
    same [] h e = cc
    same (y ∷ sockets) h e = ground (arith, same sockets)

is_in-delete :
    (sockets : List ℕ) (s x : ℕ)
    → is_in x (delete_socket sockets s) ≡ (is_in x sockets && not (eqb s x))
is_in-delete [] s x = refl
is_in-delete (y ∷ sockets) s x = ground (arith, is_in-delete sockets s x)

pub has_socket-add :
    (gs : List Group) (key k : String) (s x : ℕ)
    → has_socket (add_member gs key s).0 k x ≡ (has_socket gs k x || key == k && eqb s x)
unfolding has_socket add_member
has_socket-add gs key k s x = ground (
  arith,
  ap (is_in x) (members-set_group gs key k (add_socket (members gs key) s)),
  is_in-add (members gs key) s x,
  eq_iff key k,
)

no_key : (gs : List Group) (key : String) → has_key gs key ≡ false → members gs key ≡ []
unfolding members
no_key [] key h = refl
no_key (g ∷ gs) key h = ground (arith, no_key gs key)

pub has_socket-remove :
    (gs : List Group) (key k : String) (s x : ℕ)
    → has_socket (remove_member gs key s).0 k x ≡ (has_socket gs k x && not (key == k && eqb s x))
unfolding has_socket remove_member
has_socket-remove gs key k s x = ground (
  arith,
  ap (is_in x) (members-set_group gs key k (delete_socket (members gs key) s)),
  ap (is_in x) (members-delete_group gs key k),
  is_in-delete (members gs key) s x,
  no_key gs key,
  eq_iff key k,
)
