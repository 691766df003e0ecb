-- ===== src/Gateway/Dispatch/Defs.antt =====
-- The handlers of gateway/main.py, on the whole state of the gateway.
use netcourier.Prelude.{ℕ, ◌+◌, ◌-◌, String, Option, none, some, [], ◌∷◌, if◌then◌else◌, string_eq}
use netcourier.Dict.{Dict, get}
use netcourier.RateLimiter.{is_allowed}
use netcourier.Gateway.Accounts.{Account, Bytes, Registered, register_user, authenticate}
use netcourier.Gateway.RoomDirectory.{Answer, Location, located, create_room, join_room}
use netcourier.Gateway.Sessions.{
  Session, Sessions, User, login, cleanup_session, touch, Seen, expired,
}
use netcourier.Gateway.Dispatch.State.{
  Lifetime, ahead, ago, Gateway, System, Call, Request, Handled, register, log_in, log_out, ping,
  list_online_users, list_rooms, private_message_send, pm_history_request, create_room_request,
  join_room_request,
}
use netcourier.Gateway.Dispatch.Queries.{get_online_users, get_room_list}
use netcourier.Gateway.Messages.{
  Code, Packet, error, register_ok, login_ok, logout_ok, pong, online_users_response,
  room_list_response, room_assigned, room_location, invalid_credentials, expired_token,
  rate_limit_exceeded, handle_private_message_send, handle_pm_history_request,
}

-- `error_code`
abbrev pub code_of : Answer → Code
code_of Answer.room_already_exists = Code.room_already_exists
code_of Answer.backend_down = Code.backend_down
code_of Answer.room_not_found = Code.room_not_found
code_of _ = Code.internal_error

abbrev pub registered_packet : Option String → Registered → Packet
registered_packet username Registered.registered = register_ok username
registered_packet username Registered.missing_field = error Code.missing_field
registered_packet username Registered.username_taken = error Code.username_taken
registered_packet username Registered.internal_error = error Code.internal_error

-- A time in front of the zero of the clock is that zero, which is over as well.
abbrev pub expiry : ℕ → Option Lifetime → Option ℕ
expiry now none = none
expiry now (some (ahead seconds)) = some (now + seconds)
expiry now (some (ago seconds)) = some (now - seconds)

module _ (system : System) (call : Call) where
  unfoldable pub handle_register :
      Option String → Bytes → Option String → Option String → Gateway → Handled
  handle_register username password display_name current_token g =
      let (users', answer) =
        register_user system.pbkdf2 call.db_up call.now call.row_id call.salt username password
          display_name g.users in
      (
        current_token,
        record g { users = users' },
        (call.conn, registered_packet username answer) ∷ [],
      )

  abbrev pub logged_in :
      Option Bytes
      → Option Lifetime
      → Option String
      → Dict String Account
      → Option User
      → Gateway
      → Handled
  logged_in password expires_in current_token users' none g =
      (current_token, record g { users = users' }, (call.conn, error invalid_credentials) ∷ [])
  logged_in password expires_in current_token users' (some user) g = (
    some call.uuid,
    record g {
      users = users';
      sessions =
          login call.db_up call.now call.conn call.uuid user (expiry call.now expires_in)
            g.sessions;
    },
    (call.conn, login_ok call.uuid user.user_id user.username user.display_name) ∷ [],
  )

  unfoldable pub handle_login :
      Option String → Option Bytes → Option Lifetime → Option String → Gateway → Handled
  handle_login username password expires_in current_token g =
      let (users', user) =
        authenticate system.pbkdf2 call.db_up call.now username password g.users in
      logged_in password expires_in current_token users' user g

  -- `current_token` is forgotten whatever the answer is.
  unfoldable pub handle_logout : Option String → Gateway → Handled
  handle_logout none g = (none, g, (call.conn, error Code.invalid_token) ∷ [])
  handle_logout (some token) g = elim (get g.sessions.active_sessions token) [
    | none ↦ (none, g, (call.conn, error Code.invalid_token) ∷ [])
    | some s ↦ (
      none,
      record g { sessions = cleanup_session call.db_up call.now token g.sessions },
      (call.conn, logout_ok) ∷ [],
    )
  ]

  abbrev pub located_packet : Answer → (Location → Packet) → Packet
  located_packet (located data') packet = packet data'
  located_packet answer packet = error (code_of answer)

  unfoldable pub handle_create_room : String → String → ℕ → Option String → Gateway → Handled
  handle_create_room room_name description user_id current_token g =
      let (directory', answer) =
        create_room call.db_up g.registry call.row_id room_name description user_id g.directory in
      (
        current_token,
        record g { directory = directory' },
        (
          call.conn,
          located_packet answer
              (λ l. room_assigned l.room_id l.room_name l.server_id l.host l.port),
        )
            ∷ [],
      )

  unfoldable pub handle_join_room : String → Option String → Gateway → Handled
  handle_join_room room_name current_token g = (
    current_token,
    g,
    (
      call.conn,
      located_packet (join_room call.db_up g.registry room_name g.directory)
          (λ l. room_location l.room_id l.room_name l.server_id l.host l.port),
    )
        ∷ [],
  )

  unfoldable pub send_allowed :
      Option String → Option String → ℕ → String → Option String → Gateway → Handled
  send_allowed recipient content user_id username current_token g =
      let (limiter', allowed) = is_allowed call.now user_id g.pm_limiter in
      let (rows', packets) =
        handle_private_message_send call.db_up call.now call.conn user_id username recipient content
          g.users g.sessions g.private_messages in
      if allowed
      then (current_token, record g { pm_limiter = limiter'; private_messages = rows' }, packets)
      else (current_token, g, (call.conn, error rate_limit_exceeded) ∷ [])

  -- What a logged-in user may ask for.
  unfoldable pub serve : ℕ → String → Request → Option String → Gateway → Handled
  unfolding send_allowed get_online_users get_room_list handle_create_room handle_join_room
  serve user_id username list_online_users current_token g = (
    current_token,
    g,
    (call.conn, online_users_response (get_online_users call.db_up call.now g.sessions.presence))
        ∷ [],
  )
  serve user_id username list_rooms current_token g = (
    current_token,
    g,
    (
      call.conn,
      room_list_response (get_room_list call.db_up call.now g.sessions.presence g.directory.rooms),
    )
        ∷ [],
  )
  serve user_id username (private_message_send recipient content) current_token g =
      send_allowed recipient content user_id username current_token g
  serve user_id username (pm_history_request other) current_token g = (
    current_token,
    g,
    handle_pm_history_request system.latest call.db_up call.conn user_id other g.users
        g.private_messages,
  )
  serve user_id username (create_room_request room_name description) current_token g =
      handle_create_room room_name description user_id current_token g
  serve user_id username (join_room_request room_name) current_token g =
      handle_join_room room_name current_token g
  serve user_id username _ current_token g = (current_token, g, [])

  unfoldable pub serve_session : Option Session → Request → Option String → Gateway → Handled
  unfolding serve
  serve_session none request current_token g =
      (current_token, g, (call.conn, error Code.invalid_token) ∷ [])
  serve_session (some s) request current_token g =
      serve s.user_id s.username request current_token g

  abbrev pub session_of : Option String → Gateway → Option Session
  session_of none g = none
  session_of (some token) g = get g.sessions.active_sessions token

  -- The branches on the type of the packet.
  unfoldable pub answer : Option String → Request → Option String → Gateway → Handled
  unfolding handle_register handle_login handle_logout serve_session
  answer token (register username password display_name) current_token g =
      handle_register username password display_name current_token g
  answer token (log_in username password expires_in) current_token g =
      handle_login username password expires_in current_token g
  answer token log_out current_token g = handle_logout token g
  answer token ping current_token g = (current_token, g, (call.conn, pong) ∷ [])
  answer token request current_token g = serve_session (session_of token g) request current_token g

  abbrev pub answer_seen :
      Seen × Sessions → Option String → Request → Option String → Gateway → Handled
  answer_seen (expired, sessions') token request current_token g =
      (none, record g { sessions = sessions' }, (call.conn, error expired_token) ∷ [])
  answer_seen (_, sessions') token request current_token g =
      answer token request current_token (record g { sessions = sessions' })

  -- The body of the loop of `_handle_client`: a packet with its token.
  unfoldable pub handle_packet : Option String → Request → Option String → Gateway → Handled
  unfolding answer
  handle_packet none request current_token g = answer none request current_token g
  handle_packet (some token) request current_token g =
      answer_seen (touch call.db_up call.now token g.sessions) (some token) request current_token g

-- The `finally` of `_handle_client`.
unfoldable pub close_connection : Call → Option String → Gateway → Gateway
close_connection call none g = g
close_connection call (some token) g = record g {
  sessions = cleanup_session call.db_up call.now token g.sessions;
}
