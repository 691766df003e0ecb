-- ===== src/Tests/Rooms.antt =====
-- The rooms of server/main.py, at work on two clients.
use netcourier.Prelude.{
  is_some, ◌≡◌, refl, true, false, none, some, List, [], ◌∷◌, elem, nat_eq, string_eq,
}
use netcourier.Dict.{get, put}
use netcourier.Server.Rooms.Defs.{
  Client, Server, RoomRow, Effect, valid, handle_auth_backend, handle_join_room, enter_room,
  finish_join, get_room_members, ◌>>=◌, broadcast_system_event, leave_room_logic, add, usernames,
  members_of,
}
use netcourier.Server.Rooms.Kicks.{handle_room_kick_user-gone, finish_join-kicked}
use netcourier.Server.Rooms.Handlers.{
  is_room_owner, find_client, handle_room_kick_user, cleanup_client,
}
use netcourier.Server.Rooms.Consistency.{Consistent}
use netcourier.Server.Rooms.Steps.{auths, joins, perform, perform-Ends}
use netcourier.Server.Rooms.Delivery.{handle_auth_backend_twice}

abbrev pub ada : Client
ada = record { user_id = 1; username = "ada"; current_room = none }

abbrev pub ada_inside : Client
ada_inside = record ada { current_room = some "lobby" }

abbrev lobby_row : RoomRow
lobby_row = record { room_id = 7; created_by = 1 }

abbrev pub idle : Server
idle = record { clients = []; rooms = []; room_table = ("lobby", lobby_row) ∷ [] }

abbrev pub ada_waits : Server
ada_waits = record idle { clients = (10, ada) ∷ [] }

abbrev pub ada_joined : Server
ada_joined = record idle { clients = (10, ada_inside) ∷ []; rooms = ("lobby", 10 ∷ []) ∷ [] }

pub idle-Consistent : Consistent idle
unfolding get
idle-Consistent = record {
  agree = λ c r. refl;
  occupied = record { at_room = λ r m e. absurd (cc e) };
}

ada_waits-Consistent : Consistent ada_waits
unfolding perform handle_auth_backend put get
ada_waits-Consistent =
    perform-Ends (auths 10 (some (valid 1 "ada"))) idle (λ r. refl) idle-Consistent

pub ada_joined-Consistent : Consistent ada_joined
unfolding perform handle_join_room enter_room get put leave_room_logic add get_room_members
    usernames members_of broadcast_system_event
ada_joined-Consistent = perform-Ends (joins 10 (some "lobby")) ada_waits tt ada_waits-Consistent

abbrev bob : Client
bob = record { user_id = 2; username = "bob"; current_room = none }

abbrev bob_waits : Server
bob_waits = record ada_joined { clients = (10, ada_inside) ∷ (11, bob) ∷ [] }

abbrev both_joined : Server
both_joined = record idle {
  clients = (10, ada_inside) ∷ (11, record bob { current_room = some "lobby" }) ∷ [];
  rooms = ("lobby", 10 ∷ 11 ∷ []) ∷ [];
}

bob_waits-Consistent : Consistent bob_waits
unfolding perform handle_auth_backend put get
bob_waits-Consistent =
    perform-Ends (auths 11 (some (valid 2 "bob"))) ada_joined (λ r. refl) ada_joined-Consistent

both_joined-Consistent : Consistent both_joined
unfolding perform handle_join_room enter_room get put leave_room_logic add get_room_members
    usernames members_of broadcast_system_event
both_joined-Consistent = perform-Ends (joins 11 (some "lobby")) bob_waits tt bob_waits-Consistent

handle_room_kick_user-gone_example :
    (s' : Server) × (effects : List Effect) × (handle_room_kick_user true 10 "bob" both_joined
      ≡ some (s', effects))
    × (get s'.clients 11 ≡ none)
    × (elem 11 (members_of s' "lobby") ≡ false)
unfolding get is_room_owner find_client
handle_room_kick_user-gone_example =
    handle_room_kick_user-gone true 10 11 "bob" "lobby" "lobby" ada_inside both_joined
      both_joined-Consistent refl refl refl refl

-- ada kicks bob while he joins another room.
finish_join-kicked_example :
    (is_some (handle_join_room 11 (some "hall") both_joined) ≡ true)
    × (s' : Server) × (effects : List Effect) × (handle_room_kick_user true 10 "bob" both_joined
        ≡ some (s', effects))
    × (finish_join 11 (bob) "hall" s' ≡ none)
unfolding get is_room_owner find_client
finish_join-kicked_example =
    finish_join-kicked true 10 11 "bob" "lobby" "hall" ada_inside bob both_joined
      both_joined-Consistent refl refl refl refl

handle_auth_backend_twice_example :
    (s' : Server) × ((handle_auth_backend 10 (some (valid 1 "ada")) ada_joined >>= λ r.
    cleanup_client 10 r.0)
      ≡ some (s', []))
    × (get_room_members s' "lobby" ≡ none)
unfolding get
handle_auth_backend_twice_example =
    handle_auth_backend_twice 10 1 "ada" "lobby" ada_joined ada_joined-Consistent refl
