-- ===== src/Socket/Registry/Tests.antt =====
-- Two sockets of one room.
use rmcollab_model.Socket.Registry.Members.{has_socket}
use rmcollab_model.Socket.Registry.Refines.{after_all, groups_refine}
use rmcollab_model.Common.{◌≡◌, refl, true, false, not, List, [], ◌∷◌}
use rmcollab_model.Socket.Registry.{members, set_group, add_member, remove_member, is_empty}
use rmcollab_model.Socket.Registry.Subscribed.{
  Change, joined, left, change, changes, changes-Listens,
}

abbrev visits : List Change
visits = joined "r" 1 ∷ joined "r" 2 ∷ joined "q" 3 ∷ left "r" 1 ∷ []

still_subscribed :
    (changes "r" (record { groups = []; subscribed = false }) visits).subscribed ≡ true
unfolding changes change add_member remove_member members set_group
still_subscribed = refl

changes-Listens_example :
    (changes "r" (record { groups = []; subscribed = false }) visits).subscribed
    ≡ not (
        is_empty
          (members (changes "r" (record { groups = []; subscribed = false }) visits).groups "r"))
changes-Listens_example = changes-Listens "r" visits

groups_refine_example :
    has_socket (after_all [] (joined "r" 1 ∷ joined "s" 1 ∷ joined "r" 2 ∷ left "r" 1 ∷ [])) "r" 1
    ≡ false
groups_refine_example =
    groups_refine (joined "r" 1 ∷ joined "s" 1 ∷ joined "r" 2 ∷ left "r" 1 ∷ []) "r" 1
