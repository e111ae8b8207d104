-- ===== src/Access/Example.antt =====
-- gateway/src/db/schema.sql: small tables to try the code on. A session with a main room, a locked
-- breakout and one that Ben owns; Ann owns the session.
use rmcollab_model.Common.{String, Bool, true, false, Option, none, some, [], ◌∷◌}
use rmcollab_model.Access.Database.{Database, Settings, SessionRow, RoomRow, ParticipantRow}

abbrev pub settings : Settings
settings = record {
  trim = λ s. s;
  upper = λ s. s;
  letters_and_digits = λ s. s;
  ttl_days = 7;
  keep_days = 90;
}

abbrev pub lecture : SessionRow
lecture = record {
  id = "lecture";
  code = "ABC123";
  name = none;
  created_at = 1;
  waiting_room = false;
  kept = false;
}

abbrev pub room_row : String → Bool → Option String → String → RoomRow
room_row id is_main access_code owner = record {
  id = id;
  session_id = "lecture";
  name = id;
  is_main = is_main;
  access_code = access_code;
  created_by = some owner;
  created_at = 2;
}

abbrev pub person : String → ParticipantRow
person id = record {
  id = id;
  session_id = "lecture";
  display_name = id;
  current_room_id = none;
  connected = false;
  joined_at = 3;
  removed = false;
  waiting = false;
}

abbrev pub tables : Database
tables = record {
  sessions = lecture ∷ [];
  rooms =
      room_row "main" true none "ann"
      ∷ room_row "vault" false (some "KEY") "ann"
      ∷ room_row "corner" false none "ben"
      ∷ [];
  participants = person "ann" ∷ person "ben" ∷ person "eve" ∷ [];
  members = [];
  bans = [];
  retired_codes = [];
  chat = [];
  media = λ r. [];
}
