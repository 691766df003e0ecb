-- ===== src/Server/Posts/Defs.antt =====
-- Reactions and the deletion of files, of server/main.py. A row that SQL finds in no stated order is
-- found in the order of the table.
use netcourier.Prelude.{
  ℕ, Bool, true, false, not, ◌&&◌, ◌||◌, String, Option, none, some, List, [], ◌∷◌, ◌++◌, map, ◌==◌,
  nat_eq, string_eq, if◌then◌else◌, Text, codes, decimal,
}
use netcourier.Server.Posts.Like.{like_inside}
use netcourier.Dict.{Dict, get, put}
use netcourier.Server.Rooms.Defs.{
  Client, Server, Effect, sends, error, missing_field, permission_denied, internal_error,
  file_deleted, room_reaction_broadcast, room_delete_file_broadcast, delete_file_ok,
  broadcast_to_room, broadcast_system_event,
}
use netcourier.Server.Rooms.Handlers.{is_room_owner}
use netcourier.Server.Transfers.Defs.{FileRow, deleted}

pub data Kind : Type 0 where
  text file system : Kind

pub record Message : Type 0 where
  pub message_id : ℕ
  pub room_id : ℕ
  pub message_type : Kind
  pub sender_username : String
  pub content : Text
  pub created_at : ℕ
  pub is_deleted : Bool

pub record Reaction : Type 0 where
  pub message_id : ℕ
  pub user_id : ℕ
  pub username : String
  pub emoji : String

pub record Posts : Type 0 where
  pub messages : List Message
  pub reactions : List Reaction

-- The columns that are unique together.
abbrev pub is_by : (message_id user_id : ℕ) → String → Reaction → Bool
is_by message_id user_id emoji r =
    r.message_id == message_id && r.user_id == user_id && r.emoji == emoji

unfoldable pub reacted : (message_id user_id : ℕ) → String → List Reaction → Bool
reacted message_id user_id emoji [] = false
reacted message_id user_id emoji (r ∷ rs) =
    is_by message_id user_id emoji r || reacted message_id user_id emoji rs

abbrev pub has_message : ℕ → List Message → Bool
has_message message_id [] = false
has_message message_id (m ∷ ms) = m.message_id == message_id || has_message message_id ms

-- INSERT: a row that is there, and a message that is not, are an IntegrityError, which is passed over.
unfoldable pub insert_reaction : List Message → Reaction → List Reaction → List Reaction
unfolding reacted
insert_reaction ms r rs =
    if has_message r.message_id ms && not (reacted r.message_id r.user_id r.emoji rs)
    then rs ++ r ∷ []
    else rs

-- DELETE ... WHERE message_id = ? AND user_id = ? AND emoji = ?
unfoldable pub delete_reaction : (message_id user_id : ℕ) → String → List Reaction → List Reaction
delete_reaction message_id user_id emoji [] = []
delete_reaction message_id user_id emoji (r ∷ rs) =
    let rest = delete_reaction message_id user_id emoji rs in
    if is_by message_id user_id emoji r then rest else r ∷ rest

-- The names under one emoji, and `GROUP BY emoji` of the reactions to a message. (The code joins the
-- names with commas and splits them again; no name has a comma.)
unfoldable pub add_to_group :
    String → String → List (String × List String) → List (String × List String)
add_to_group emoji username [] = (emoji, username ∷ []) ∷ []
add_to_group emoji username ((e, names) ∷ groups) =
    let rest = add_to_group emoji username groups in
    if e == emoji then (e, names ++ username ∷ []) ∷ groups else (e, names) ∷ rest

unfoldable pub group_reactions :
    ℕ → List (String × List String) → List Reaction → List (String × List String)
unfolding add_to_group
group_reactions message_id groups [] = groups
group_reactions message_id groups (r ∷ rs) =
    group_reactions message_id
      (if r.message_id == message_id then add_to_group r.emoji r.username groups else groups) rs

-- What `int(message_id)` comes to, for a field that is not empty.
pub data Number : Type 0 where
  number : ℕ → Number
  not_a_number : Number

-- With a table that is there; `adds` is `action == "add"`.
unfoldable pub react :
    (adds : Bool) → ℕ → String → Client → String → Server → Posts → Posts × List Effect
unfolding insert_reaction delete_reaction group_reactions
react adds message_id emoji info room s posts =
    let r : Reaction = record {
      message_id = message_id;
      user_id = info.user_id;
      username = info.username;
      emoji = emoji;
    } in
    let rs =
      if adds
      then insert_reaction posts.messages r posts.reactions
      else delete_reaction message_id info.user_id emoji posts.reactions in
    (
      record posts { reactions = rs },
      broadcast_to_room s room (
          room_reaction_broadcast message_id room emoji adds info.username
            (group_reactions message_id [] rs)),
    )

-- A missing id, emoji or room is answered MISSING_FIELD.
unfoldable pub handle_room_message_reaction :
    (db_up : Bool)
    → ℕ
    → Option Number
    → Option String
    → (adds : Bool) → Client
    → Server
    → Posts
    → Posts × List Effect
unfolding react
handle_room_message_reaction db_up conn (some message_id) (some emoji) adds info s posts =
    elim info.current_room [
      | none ↦ (posts, sends conn (error missing_field) ∷ [])
      | some room ↦ elim message_id [
        | not_a_number ↦ (posts, sends conn (error internal_error) ∷ [])
        | number n ↦
            if db_up
            then react adds n emoji info room s posts
            else (posts, sends conn (error internal_error) ∷ [])
      ]
    ]
handle_room_message_reaction db_up conn _ _ adds info s posts =
    (posts, sends conn (error missing_field) ∷ [])

-- `"file_id": {file_id}`
unfoldable pub file_pattern : ℕ → Text
unfolding decimal
file_pattern file_id = codes "\"file_id\": " ++ decimal file_id

abbrev pub is_file : Kind → Bool
is_file file = true
is_file _ = false

unfoldable pub is_card : ℕ → Message → Bool
unfolding file_pattern like_inside
is_card file_id m = is_file m.message_type && like_inside (file_pattern file_id) m.content

abbrev pub hide : ℕ → Message → Message
hide file_id m = if is_card file_id m then record m { is_deleted = true } else m

-- The first card that is not deleted.
unfoldable pub find_card : ℕ → List Message → Option ℕ
unfolding is_card
find_card file_id [] = none
find_card file_id (m ∷ ms) =
    let rest = find_card file_id ms in
    if is_card file_id m && not m.is_deleted then some m.message_id else rest

unfoldable pub delete_file_row : ℕ → Dict ℕ FileRow → Dict ℕ FileRow
delete_file_row file_id files = elim (get files file_id) [
  | none ↦ files
  | some row ↦ put files file_id (record row { status = deleted })
]

-- The packet to the room for the card, where there is one.
unfoldable pub card_broadcast : Server → String → ℕ → Option ℕ → List Effect
card_broadcast s room file_id none = []
card_broadcast s room file_id (some message_id) =
    broadcast_to_room s room (room_delete_file_broadcast room message_id file_id)

-- Where the members of the room cannot be listed the rows are deleted, and the answer is
-- INTERNAL_ERROR.
unfoldable pub delete_file :
    ℕ → ℕ → String → Server → Dict ℕ FileRow → Posts → Dict ℕ FileRow × Posts × List Effect
unfolding find_card delete_file_row card_broadcast is_card
delete_file conn file_id room s files posts =
    let card = find_card file_id posts.messages in
    let files' = delete_file_row file_id files in
    let posts' = record posts { messages = map (hide file_id) posts.messages } in
    elim (broadcast_system_event s room file_deleted []) [
      | none ↦ (files', posts', sends conn (error internal_error) ∷ [])
      | some event ↦ (
        files',
        posts',
        event ++ (card_broadcast s room file_id card ++ sends conn (delete_file_ok file_id) ∷ []),
      )
    ]

-- `_is_room_owner` is false for a client in no room.
unfoldable pub handle_room_delete_file :
    (db_up : Bool)
    → ℕ
    → ℕ
    → Client
    → Server
    → Dict ℕ FileRow
    → Posts
    → Dict ℕ FileRow × Posts × List Effect
unfolding delete_file is_room_owner
handle_room_delete_file db_up conn file_id info s files posts =
    if is_room_owner db_up info.user_id info.current_room s
    then elim info.current_room [
      | none ↦ (files, posts, [])
      | some room ↦ delete_file conn file_id room s files posts
    ]
    else (files, posts, sends conn (error permission_denied) ∷ [])
