-- ===== src/Access/Moderation/Tests.antt =====
-- The requests of gateway/src/http/routes on small tables.
use rmcollab_model.Common.{◌≡◌, refl, true, some, [], ◌∷◌}
use rmcollab_model.Access.Database.{get_room, get_participant}
use rmcollab_model.Access.Example.{settings, tables}
use rmcollab_model.Access.Rooms.{
  is_current_participant, is_banned, lets_in, resolve_room_access, granted, code_invalid,
}
use rmcollab_model.Access.Changes.{rotate_session_code}
use rmcollab_model.Access.Moderation.{remove_person, delete_room_request}
use rmcollab_model.Access.Moderation.KeptOut.{resolve_room_access_exact}
use rmcollab_model.Access.Moderation.Owners.{
  remove, answer_to, ChangesNothing, unowned-ChangesNothing,
}

resolve_room_access_exact_example :
    lets_in (resolve_room_access settings tables "vault" "eve" (some "KEY")).1 ≡ true
unfolding get_room is_current_participant is_banned
resolve_room_access_exact_example =
    resolve_room_access_exact settings tables "vault" "eve" (some "KEY")

unowned-ChangesNothing_example :
    ChangesNothing tables (answer_to settings tables "eve" (remove ("NEW123" ∷ []) "main" "ben"))
unowned-ChangesNothing_example =
    unowned-ChangesNothing settings tables "eve" (remove ("NEW123" ∷ []) "main" "ben") refl

wrong_code : (resolve_room_access settings tables "vault" "eve" (some "KEI")).1 ≡ code_invalid
unfolding resolve_room_access
wrong_code = refl

right_code : (resolve_room_access settings tables "vault" "eve" (some "KEY")).1 ≡ granted
unfolding resolve_room_access
right_code = refl

owner_removes :
    (remove_person settings tables ("NEW123" ∷ []) "main" (some "ann") "ben").status ≡ 200
unfolding remove_person get_room get_participant rotate_session_code
owner_removes = refl

-- Ben was removed from the session, and deletes his room all the same.
removed_owner_deletes :
    (delete_room_request
      (remove_person settings tables ("NEW123" ∷ []) "main" (some "ann") "ben").db
      "corner"
      "ben").status
    ≡ 204
unfolding remove_person delete_room_request get_room get_participant rotate_session_code
removed_owner_deletes = refl
