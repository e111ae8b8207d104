-- ===== src/Access/History/Tests.antt =====
-- gateway/src/db/repositories.ts: changes of small tables.
use rmcollab_model.Common.{◌≡◌, refl, false, some, List, [], ◌∷◌}
use rmcollab_model.Access.Database.{get_room}
use rmcollab_model.Access.Example.{settings, tables, room_row}
use rmcollab_model.Access.Rooms.{lets_in, resolve_room_access, ban_from_room, remove_from_session}
use rmcollab_model.Access.History.{Change, joined, waits, tries, apply_change, history}
use rmcollab_model.Access.History.StaysOut.{removed_stays_out}
use rmcollab_model.Access.History.Banned.{banned_stays_out}

abbrev comes_back : List Change
comes_back =
    joined "new" 9 (some "eve") "lecture" "Eve"
    ∷ waits "eve" false
    ∷ tries "vault" "eve" (some "KEY")
    ∷ []

removed_stays_out_example :
    lets_in
      (resolve_room_access settings
        (history settings (remove_from_session tables "eve") comes_back)
        "vault"
        "eve"
        (some "KEY")).1
    ≡ false
unfolding history apply_change remove_from_session get_room resolve_room_access
removed_stays_out_example =
    removed_stays_out settings tables "eve" comes_back "vault"
      (room_row "vault" false (some "KEY") "ann") (some "KEY") (refl, (tt, (tt, tt))) refl

banned_stays_out_example :
    lets_in
      (resolve_room_access settings
        (history settings (ban_from_room tables "vault" "eve") comes_back)
        "vault"
        "eve"
        (some "KEY")).1
    ≡ false
unfolding history apply_change ban_from_room get_room resolve_room_access
banned_stays_out_example =
    banned_stays_out settings tables "vault" "eve" comes_back
      (room_row "vault" false (some "KEY") "ann") (some "KEY") (tt, (tt, (tt, tt))) refl
