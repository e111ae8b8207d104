-- ===== src/Socket/Server/Entering.antt =====
-- gateway/src/ws/server.ts: which rooms a socket gets into.
use rmcollab_model.Socket.Presence.{Moment}
use rmcollab_model.Common.{
  subst, ◌≡◌, refl, sym, ap, ◌∙◌, String, Bool, true, false, not, ◌&&◌, ◌||◌, Option, none, some,
  List, [], ◌∷◌, any, find?, ◌==◌, option_is, arith, eq_iff, str_refl, Bool-cases, Option-cases,
  inl, inr, any-map, any_mono, find?-passes,
}
use rmcollab_model.Access.Database.{
  Database, RoomRow, ParticipantRow, is_given, is_current, participant_is, get_room,
  get_participant, room_is,
}
use rmcollab_model.Access.Sessions.{set_participant_room}
use rmcollab_model.Access.Rooms.{
  RoomAccess, open_access, granted, code_required, code_invalid, banned, not_member, lets_in,
  resolve_room_access, is_current_participant,
}
use rmcollab_model.Access.History.StaysOut.{same_people}
use rmcollab_model.Access.Moderation.KeptOut.{may_enter, resolve_room_access_exact}
use rmcollab_model.Socket.Server.{moment, Connection, Hub, Env}
use rmcollab_model.Socket.Server.Rooms.{
  refusal, leave_hub, tell_left, unlist, leave_if, leave_other, leave_room, move_in, enter_as,
  enter_given, enter_room,
}

-- The room is one of the connection's session, and its person may enter it.
abbrev admits_person : Env → Hub → RoomRow → Option String → Option String → Bool
admits_person env h room none code = false
admits_person env h room (some p) code = may_enter env.settings h.db room.id (some room) p code

abbrev pub admits : Env → Hub → Connection → Option RoomRow → Option String → Bool
admits env h c none code = false
admits env h c (some room) code =
    option_is c.session_id room.session_id && admits_person env h room c.participant_id code

given-find? :
    (p : ParticipantRow → Bool) (ps : List ParticipantRow) → is_given (find? p ps) ≡ any p ps
given-find? p [] = refl
given-find? p (x ∷ ps) = ground (arith, given-find? p ps)

row_stays :
    (db : Database) (id : String) (o : Option String)
    → is_current_participant db id ≡ true
    → is_given (get_participant (set_participant_room db id o) id) ≡ true
unfolding is_current_participant get_participant set_participant_room
row_stays db id o h =
    given-find? (participant_is id) _
    ∙ any-map (participant_is id) _ db.participants
    ∙ any_mono _ _ db.participants (λ (p : ParticipantRow) k. ground (arith, k)) h

refused_iff : (name : String) (a : RoomAccess) → is_given (refusal name a) ≡ not (lets_in a)
unfolding refusal
refused_iff name open_access = refl
refused_iff name granted = refl
refused_iff name code_required = refl
refused_iff name code_invalid = refl
refused_iff name banned = refl
refused_iff name not_member = refl

leave_other-db :
    (now : Moment) (q : String) (h : Hub) (c : Connection) → (leave_other now q (h, c)).0.db ≡ h.db
unfolding leave_other leave_if leave_room leave_hub tell_left unlist
leave_other-db now q h c = ground arith

move_in-room :
    (env : Env) (q p : String) (h : Hub) (c : Connection)
    → is_current_participant h.db p ≡ true
    → (move_in env q p (h, c)).1.room_id ≡ some q
unfolding move_in
move_in-room env q p h c current =
    elim (Option-cases (get_participant (set_participant_room h.db p (some q)) p)) [
      | inl e ↦ let stays = row_stays h.db p (some q) current in ground (arith, e, stays)
      | inr (row, e) ↦ rw (move_in, e) refl
    ]

out : (a : RoomAccess) → not (lets_in a) ≡ true → lets_in a ≡ false
out a h = ground (arith, h)

inside : (a : RoomAccess) → not (lets_in a) ≡ false → lets_in a ≡ true
inside a h = ground (arith, h)

or_no : (in_room may : Bool) → may ≡ false → in_room ≡ (in_room || may)
or_no in_room may h = ground (arith, h)

or_yes : (in_room may : Bool) (q : String) → may ≡ true → (q == q) ≡ (in_room || may)
or_yes in_room may q h = ground (arith, h, str_refl q)

first_of : (a b c : Bool) → (a && b && c) ≡ true → a ≡ true
first_of a b c h = ground (arith, h)

same_current :
    (env : Env) (h : Hub) (room_id p : String) (code : Option String)
    → is_current_participant (resolve_room_access env.settings h.db room_id p code).0 p
      ≡ is_current_participant h.db p
unfolding is_current_participant
same_current env h room_id p code =
    ap (λ ps. any (λ (x : ParticipantRow). x.id == p && is_current x) ps)
      (same_people env.settings h.db room_id p code)

enter_as-exact :
    (env : Env) (room : RoomRow) (p : String) (code : Option String) (h : Hub) (c : Connection)
    → get_room h.db room.id ≡ some room
    → option_is (enter_as env room p code (h, c)).1.room_id room.id
      ≡ (option_is c.room_id room.id || may_enter env.settings h.db room.id (some room) p code)
unfolding enter_as
enter_as-exact env room p code h c found =
    let a = resolve_room_access env.settings h.db room.id p code in
    let h1 = record h { db = a.0 } in
    let exact : lets_in a.1 ≡ may_enter env.settings h.db room.id (some room) p code =
      resolve_room_access_exact env.settings h.db room.id p code
      ∙ ap (λ r. may_enter env.settings h.db room.id r p code) found in
    let refused = refused_iff room.name a.1 in
    elim (Option-cases (refusal room.name a.1)) [
      | inr (m, e) ↦
          let no : may_enter env.settings h.db room.id (some room) p code ≡ false =
            sym exact ∙ out a.1 (sym refused ∙ ap is_given e) in
          rw (enter_as, e) (or_no (option_is c.room_id room.id) _ no)
      | inl e ↦
          let yes : may_enter env.settings h.db room.id (some room) p code ≡ true =
            sym exact ∙ inside a.1 (sym refused ∙ ap is_given e) in
          let hc = leave_other (moment env) room.id (h1, c) in
          let current : is_current_participant hc.0.db p ≡ true =
            ap (λ db. is_current_participant db p) (leave_other-db (moment env) room.id h1 c)
            ∙ same_current env h room.id p code
            ∙ first_of (is_current_participant h.db p) _ _ yes in
          rw (enter_as, e)
            (rw (move_in-room env room.id p hc.0 hc.1 current)
              (or_yes (option_is c.room_id room.id) _ room.id yes))
    ]

room-id :
    (db : Database) (room_id : String) (room : RoomRow)
    → get_room db room_id ≡ some room
    → room.id ≡ room_id
unfolding get_room
room-id db room_id room e =
    (eq_iff room.id room_id).0 (find?-passes (room_is room_id) db.rooms room e)

enter_given-exact :
    (env : Env) (room : RoomRow) (o code : Option String) (h : Hub) (c : Connection)
    → get_room h.db room.id ≡ some room
    → option_is (enter_given env room o code (h, c)).1.room_id room.id
      ≡ (option_is c.room_id room.id || admits_person env h room o code)
unfolding enter_given
enter_given-exact env room none code h c found = or_no (option_is c.room_id room.id) false refl
enter_given-exact env room (some p) code h c found = enter_as-exact env room p code h c found

-- A request to enter a room leaves the socket in it exactly if it was there already, or the room is one
-- of its session and its person may enter it.
pub enter_room-exact :
    (env : Env) (room_id : String) (code : Option String) (h : Hub) (c : Connection)
    → option_is (enter_room env room_id code (h, c)).1.room_id room_id
      ≡ (option_is c.room_id room_id || admits env h c (get_room h.db room_id) code)
unfolding enter_room
enter_room-exact env room_id code h c = elim (Option-cases (get_room h.db room_id)) [
  | inl e ↦ rw (enter_room, e) (or_no (option_is c.room_id room_id) false refl)
  | inr (room, e) ↦ elim (Bool-cases (option_is c.session_id room.session_id)) [
    | inr f ↦ rw (enter_room, e, f) (or_no (option_is c.room_id room_id) false refl)
    | inl f ↦
        let same = room-id h.db room_id room e in
        let found = ap (get_room h.db) same ∙ e in
        rw (enter_room, e, f)
          (subst
            (λ q.
              option_is (enter_given env room c.participant_id code (h, c)).1.room_id q
              ≡ (option_is c.room_id q || admits_person env h room c.participant_id code))
            same (enter_given-exact env room c.participant_id code h c found))
  ]
]
