-- ===== src/Socket/Registry.antt =====
-- gateway/src/ws/registry.ts: the sockets of one replica, in groups by key. The map is a list of
-- groups in the order that their keys were added; a socket is named by a number.
pub mod Subscribed
pub mod Members
pub mod Refines
mod Tests
use rmcollab_model.Common.{
  ℕ, String, Bool, true, false, not, List, [], ◌∷◌, ◌++◌, eqb, if◌then◌else◌, ◌==◌, filter, any,
  length, map,
}

pub record Group : Type 0 where
  pub key : String
  pub sockets : List ℕ

abbrev pub is_empty {ℓ} : {A : Type ℓ} → List A → Bool
is_empty [] = true
is_empty (x ∷ xs) = false

abbrev pub has_key : List Group → String → Bool
has_key groups key = any (λ (g : Group). g.key == key) groups

-- `members`, of a missing key none
unfoldable pub members : List Group → String → List ℕ
members [] key = []
members (g ∷ gs) key = if g.key == key then g.sockets else members gs key

unfoldable pub keys : List Group → List String
keys groups = map (λ (g : Group). g.key) groups

unfoldable pub size : List Group → String → ℕ
unfolding members
size groups key = length (members groups key)

-- `set` of the map
unfoldable pub set_group : List Group → String → List ℕ → List Group
set_group [] key sockets = record { key = key; sockets = sockets } ∷ []
set_group (g ∷ gs) key sockets =
    if g.key == key
    then record { key = g.key; sockets = sockets } ∷ gs
    else g ∷ set_group gs key sockets

-- `delete` of the map
abbrev pub delete_group : List Group → String → List Group
delete_group groups key = filter (λ (g : Group). not (g.key == key)) groups

abbrev pub add_socket : List ℕ → ℕ → List ℕ
add_socket sockets socket =
    if any (λ s. eqb s socket) sockets then sockets else sockets ++ socket ∷ []

abbrev pub delete_socket : List ℕ → ℕ → List ℕ
delete_socket sockets socket = filter (λ s. not (eqb s socket)) sockets

-- `add`
unfoldable pub add_member : List Group → String → ℕ → List Group × Bool
unfolding members set_group
add_member groups key socket =
    let group = members groups key in
    (set_group groups key (add_socket group socket), is_empty group)

-- `remove`
unfoldable pub remove_member : List Group → String → ℕ → List Group × Bool
unfolding members set_group
remove_member groups key socket =
    let left = delete_socket (members groups key) socket in
    if has_key groups key
    then (if is_empty left
        then (delete_group groups key, true)
        else (set_group groups key left, false))
    else (groups, false)
