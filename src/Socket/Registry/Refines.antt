-- ===== src/Socket/Registry/Refines.antt =====
-- gateway/src/ws/registry.ts: the groups of sockets implement a relation between keys and sockets.
use rmcollab_model.Common.{
  ℕ, ◌≡◌, refl, ap, ◌∙◌, String, Bool, false, not, ◌&&◌, ◌||◌, List, [], ◌∷◌, eqb, ◌==◌,
}
use rmcollab_model.Socket.Registry.{Group, add_member, remove_member}
use rmcollab_model.Socket.Registry.Subscribed.{Change, joined, left}
use rmcollab_model.Socket.Registry.Members.{has_socket, has_socket-add, has_socket-remove}

-- Which sockets stand at which keys: that of the change is put in, or taken out.
abbrev pub relate : (String → ℕ → Bool) → Change → String → ℕ → Bool
relate rel (joined key socket) k x = rel k x || key == k && eqb socket x
relate rel (left key socket) k x = rel k x && not (key == k && eqb socket x)

abbrev pub relate_all : (String → ℕ → Bool) → List Change → String → ℕ → Bool
relate_all rel [] = rel
relate_all rel (c ∷ cs) = relate_all (relate rel c) cs

abbrev pub after : List Group → Change → List Group
after groups (joined key socket) = (add_member groups key socket).0
after groups (left key socket) = (remove_member groups key socket).0

abbrev pub after_all : List Group → List Change → List Group
after_all groups [] = groups
after_all groups (c ∷ cs) = after_all (after groups c) cs

one_change :
    (groups : List Group) (c : Change) (rel : String → ℕ → Bool)
    → ((k : String) (x : ℕ) → has_socket groups k x ≡ rel k x)
    → (k : String) (x : ℕ) → has_socket (after groups c) k x ≡ relate rel c k x
one_change groups (joined key socket) rel same k x =
    has_socket-add groups key k socket x ∙ ap (λ b. b || key == k && eqb socket x) (same k x)
one_change groups (left key socket) rel same k x =
    has_socket-remove groups key k socket x
    ∙ ap (λ b. b && not (key == k && eqb socket x)) (same k x)

-- From no groups, whatever joins and leaves, a socket stands in the group of a key exactly if the
-- relation that starts empty, and has each pair put in or taken out in turn, holds of the two.
pub groups_refine :
    (cs : List Change) (k : String) (x : ℕ)
    → has_socket (after_all [] cs) k x ≡ relate_all (λ key socket. false) cs k x
unfolding has_socket
groups_refine cs = from cs [] (λ key socket. false) (λ k x. refl)
  where
    from :
        (cs : List Change) (groups : List Group) (rel : String → ℕ → Bool)
        → ((k : String) (x : ℕ) → has_socket groups k x ≡ rel k x)
        → (k : String) (x : ℕ) → has_socket (after_all groups cs) k x ≡ relate_all rel cs k x
    from [] groups rel same k x = same k x
    from (c ∷ cs) groups rel same k x =
        from cs (after groups c) (relate rel c) (one_change groups c rel same) k x
