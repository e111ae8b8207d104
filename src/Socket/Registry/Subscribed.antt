-- ===== src/Socket/Registry/Subscribed.antt =====
-- gateway/src/ws/registry.ts: what the answers of `add` and `remove` are for. The server subscribes to
-- a key's channel on a first member and gives it up on the last one's leaving.
use rmcollab_model.Common.{
  ℕ, ◌≡◌, refl, String, Bool, true, false, ◌&&◌, not, List, [], ◌∷◌, if◌then◌else◌, ◌==◌, eq_iff,
  arith,
}
use rmcollab_model.Socket.Registry.{
  Group, is_empty, members, set_group, delete_group, add_socket, delete_socket, add_member,
  remove_member,
}

pub members-set_group :
    (gs : List Group) (key k : String) (sockets : List ℕ)
    → members (set_group gs key sockets) k ≡ (if key == k then sockets else members gs k)
unfolding members set_group
members-set_group [] key k sockets = refl
members-set_group (g ∷ gs) key k sockets =
    ground
      (arith, members-set_group gs key k sockets, eq_iff g.key key, eq_iff key k, eq_iff g.key k)

pub members-delete_group :
    (gs : List Group) (key k : String)
    → members (delete_group gs key) k ≡ (if key == k then [] else members gs k)
unfolding members
members-delete_group [] key k = ground arith
members-delete_group (g ∷ gs) key k =
    ground (arith, members-delete_group gs key k, eq_iff g.key key, eq_iff key k, eq_iff g.key k)

add_socket-some : (sockets : List ℕ) (socket : ℕ) → is_empty (add_socket sockets socket) ≡ false
add_socket-some [] socket = refl
add_socket-some (s ∷ sockets) socket = ground arith

-- A socket that joins or leaves the group of a key.
pub data Change : Type 0 where
  joined : (key : String) → (socket : ℕ) → Change
  left : (key : String) → (socket : ℕ) → Change

-- The groups, and whether the replica is subscribed to the channel of one key.
pub record Replica : Type 0 where
  pub groups : List Group
  pub subscribed : Bool

unfoldable pub change : String → Replica → Change → Replica
change k r (joined key socket) =
    let a = add_member r.groups key socket in
    record { groups = a.0; subscribed = if key == k && a.1 then true else r.subscribed }
change k r (left key socket) =
    let a = remove_member r.groups key socket in
    record { groups = a.0; subscribed = if key == k && a.1 then false else r.subscribed }

unfoldable pub changes : String → Replica → List Change → Replica
changes k r [] = r
changes k r (c ∷ cs) = changes k (change k r c) cs

-- The replica listens exactly while the key has members.
abbrev pub Listens : String → Replica → Type 0
Listens k r = r.subscribed ≡ not (is_empty (members r.groups k))

change-Listens : (k : String) (r : Replica) (c : Change) → Listens k r → Listens k (change k r c)
unfolding change add_member remove_member
change-Listens k r (joined key socket) h = ground (
  arith,
  members-set_group r.groups key k (add_socket (members r.groups key) socket),
  add_socket-some (members r.groups key) socket,
  eq_iff key k,
)
change-Listens k r (left key socket) h = ground (
  arith,
  members-set_group r.groups key k (delete_socket (members r.groups key) socket),
  members-delete_group r.groups key k,
  eq_iff key k,
)

-- A replica that starts with no socket and no subscription, subscribes to a key's channel whenever
-- `add` answers that a member is the first, and gives it up whenever `remove` answers that a member
-- was the last, is subscribed exactly while the key has members.
pub changes-Listens :
    (k : String) (cs : List Change)
    → (changes k (record { groups = []; subscribed = false }) cs).subscribed
      ≡ not
          (is_empty (members (changes k (record { groups = []; subscribed = false }) cs).groups k))
unfolding members changes
changes-Listens k cs = from cs (record { groups = []; subscribed = false }) refl
  where
    from : (cs : List Change) (r : Replica) → Listens k r → Listens k (changes k r cs)
    from [] r h = h
    from (c ∷ cs) r h = from cs (change k r c) (change-Listens k r c h)
