-- ===== src/Gateway/Dispatch/Queries.antt =====
-- The lists that LIST_ONLINE_USERS and LIST_ROOMS of gateway/main.py answer with.
use netcourier.Prelude.{
  ℕ, ◌+◌, Bool, false, String, Option, none, some, List, [], ◌∷◌, ◌&&◌, if◌then◌else◌, ◌==◌,
  string_eq,
}
use netcourier.Dict.{Dict}
use netcourier.Gateway.LoadBalancer.Order.{server_lt}
use netcourier.Gateway.Presence.{Presence, is_online}
use netcourier.Gateway.RoomDirectory.{Room}
use netcourier.Gateway.Messages.{OnlineUser, ListedRoom}

-- ORDER BY username ASC
unfoldable pub insert_online : OnlineUser → List OnlineUser → List OnlineUser
insert_online user [] = user ∷ []
insert_online user (u ∷ users) =
    let rest = insert_online user users in
    if server_lt user.username u.username then user ∷ u ∷ users else u ∷ rest

unfoldable pub online_users : ℕ → Dict ℕ Presence → List OnlineUser
unfolding insert_online is_online
online_users now [] = []
online_users now ((user_id, row) ∷ table) =
    let rest = online_users now table in
    let user : OnlineUser = record {
      username = row.username;
      status = row.status;
      active_room = row.active_room;
    } in
    if is_online now row then insert_online user rest else rest

unfoldable pub get_online_users : (db_up : Bool) → ℕ → Dict ℕ Presence → List OnlineUser
unfolding online_users
get_online_users db_up now table = if db_up then online_users now table else []

abbrev pub is_in : String → Option String → Bool
is_in name none = false
is_in name (some room) = name == room

-- COUNT(up.user_id)
unfoldable pub count_members : ℕ → String → Dict ℕ Presence → ℕ
unfolding is_online
count_members now name [] = 0
count_members now name ((user_id, row) ∷ table) =
    let rest = count_members now name table in
    if is_in name row.active_room && is_online now row then 1 + rest else rest

unfoldable pub list_each : ℕ → Dict ℕ Presence → Dict String Room → List ListedRoom
unfolding count_members
list_each now table [] = []
list_each now table ((name, room) ∷ rooms) =
    let rest = list_each now table rooms in
    (record {
      name = name;
      description = room.description;
      owner_id = room.created_by;
      members = count_members now name table;
    })
    ∷ rest

unfoldable pub get_room_list :
    (db_up : Bool) → ℕ → Dict ℕ Presence → Dict String Room → List ListedRoom
unfolding list_each
get_room_list db_up now table rooms = if db_up then list_each now table rooms else []
