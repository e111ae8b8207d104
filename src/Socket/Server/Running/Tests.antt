-- ===== src/Socket/Server/Running/Tests.antt =====
-- gateway/src/ws/server.ts on small tables: Eve joins a session, goes to a locked room, and leaves.
use rmcollab_model.Socket.Presence.{in_room, here, answered}
use rmcollab_model.Socket.Server.{Hub, moment}
use rmcollab_model.Socket.Server.Rooms.{tell_left}
use rmcollab_model.Socket.Server.Leaving.{tell_left_exact}
use rmcollab_model.Common.{ℕ, ◌≡◌, refl, String, true, none, some, List, [], ◌∷◌, map}
use rmcollab_model.Common.{all}
use rmcollab_model.Access.Database.{Database}
use rmcollab_model.Access.Example.{settings, tables, lecture}
use rmcollab_model.Socket.Server.Running.Quiet.{is_quiet}
use rmcollab_model.Socket.Server.Running.Hears.{waiting_hears_answers}
use rmcollab_model.Socket.Server.Running.Own.{listener}
use rmcollab_model.Socket.Server.{Connection, Env, join_session, join_room, chat_message}
use rmcollab_model.Common.{option_is}
use rmcollab_model.Access.Database.{get_room}
use rmcollab_model.Access.Rooms.{is_current_participant, is_banned}
use rmcollab_model.Socket.Bucket.{socket_limits}
use rmcollab_model.Socket.Server.Rooms.{enter_room}
use rmcollab_model.Socket.Server.Entering.{enter_room-exact}
use rmcollab_model.Socket.Registry.Members.{has_socket}
use rmcollab_model.Socket.Server.Running.{
  new_connection, Input, connects, frame, closes, started, run, step,
}
use rmcollab_model.Socket.Server.Running.Steps.{SoundServer}
use rmcollab_model.Socket.Server.Running.Agreed.{run-SoundServer}

abbrev at : ℕ → String → Env
at now fresh = record {
  settings = settings;
  is_made_id = λ s. true;
  text_length = λ s. 5;
  code_misses = 20;
  chat_history = 100;
  connections_per_address = 100;
  now = now;
  reply = answered;
  fresh = fresh;
}

abbrev visit : List (Env × Input)
visit =
    (at 10 "c1", connects "1.2.3.4")
    ∷ (at 20 "p1", frame 0 (join_session "ABC123" "Eve" (some "eve") none))
    ∷ (at 30 "x", frame 0 (join_room "vault" (some "KEY")))
    ∷ (at 40 "m1", frame 0 (chat_message "vault" "hello"))
    ∷ []

run-SoundServer_example : SoundServer (run (started tables) visit)
run-SoundServer_example = run-SoundServer tables visit

-- A join that is handled once its socket has closed puts the socket into the session's group.
abbrev late : List (Env × Input)
late =
    (at 10 "c1", connects "1.2.3.4")
    ∷ (at 20 "x", closes 0)
    ∷ (at 30 "p1", frame 0 (join_session "ABC123" "Eve" (some "eve") none))
    ∷ []

late_joins : has_socket (run (started tables) late).hub.sessions "lecture" 0 ≡ true
unfolding run socket_limits has_socket
late_joins = refl

-- Eve's socket is in the locked room once she brings its code.
in_vault :
    map (λ (c : Connection). c.room_id) (run (started tables) visit).conns ≡ some "vault" ∷ []
unfolding run socket_limits
in_vault = refl

abbrev eve : Connection
eve = record (new_connection (at 10 "c1") "1.2.3.4" 0) {
  participant_id = some "eve";
  session_id = some "lecture";
}

enter_room-exact_example :
    option_is
      (enter_room (at 30 "x") "vault" (some "KEY") ((started tables).hub, eve)).1.room_id
      "vault"
    ≡ true
unfolding get_room is_current_participant is_banned
enter_room-exact_example =
    enter_room-exact (at 30 "x") "vault" (some "KEY") (started tables).hub eve

-- The session's waiting room is on.
abbrev guarded : Database
guarded = record tables { sessions = record lecture { waiting_room = true } ∷ [] }

-- Somebody new joins, and waits.
abbrev arrival : List (Env × Input)
arrival =
    (at 10 "c1", connects "1.2.3.4")
    ∷ (at 20 "p1", frame 0 (join_session "ABC123" "Fay" none none))
    ∷ []

-- The connection of Fay, once she waits
abbrev fay : Connection
fay = record (new_connection (at 10 "c1") "1.2.3.4" 0) {
  participant_id = some "p1";
  session_id = some "lecture";
  display_name = some "Fay";
  pending = true;
}

waiting_hears_answers_example :
    all
      (is_quiet (listener 0 fay (frame 0 (join_room "main" none))))
      (step
        (at 30 "x")
        (run (started guarded) arrival)
        (frame 0 (join_room "main" none))).hub.outputs
    ≡ true
unfolding run step socket_limits
waiting_hears_answers_example =
    waiting_hears_answers guarded arrival (at 30 "x") (frame 0 (join_room "main" none)) 0 fay refl
      refl refl

-- Eve has the room open in a second tab.
abbrev two_tabs : Hub
two_tabs = record (started tables).hub {
  presence =
      here (here [] (in_room "main") "eve" "tab 1" (moment (at 10 "x"))) (in_room "main") "eve"
        "tab 2" (moment (at 20 "x"));
}

tell_left_exact_example :
    (tell_left (moment (at 30 "x")) "main" "tab 1" (some "eve") two_tabs).outputs ≡ []
unfolding here
tell_left_exact_example = tell_left_exact (moment (at 30 "x")) "main" "tab 1" "eve" two_tabs
