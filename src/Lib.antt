-- ===== src/Lib.antt =====
-- NetCourier: a chat and file transfer system of three kinds of processes. The gateway
-- (src/netcourier/gateway) knows the users' sessions, the process servers and the presence of the
-- users; the process servers (src/netcourier/server) hold the rooms and the files; the web API
-- (src/netcourier/web/api) speaks to both for a browser. They exchange packets of a JSON header
-- and a binary payload over TCP (src/netcourier/common/protocol.py).
--
-- Which file models what:
--   Protocol        common/protocol.py: send_packet, receive_packet, _recv_all
--   RateLimiter     the class of that name in gateway/main.py and server/main.py
--   Gateway/Backends       gateway/backend_service.py: register_backend, update_heartbeat,
--                          get_alive_backends, _check_timeouts
--   Gateway/LoadBalancer   gateway/load_balancer.py: select_backend
--   Gateway/Presence       gateway/presence_service.py: update_presence
--   Gateway/Sessions       gateway/main.py: _handle_login, _cleanup_session, _prune_stale_sessions,
--                          VALIDATE_TOKEN, USER_ROOM_STATUS_UPDATE and the expiry of a session
--   Gateway/RoomDirectory  gateway/room_directory.py: create_room, join_room
--   Gateway/Accounts       gateway/auth_service.py: hash_password, verify_password, register_user,
--                          authenticate
--   Gateway/Messages       gateway/pm_service.py, and the two handlers of gateway/main.py that call it
--   Gateway/Dispatch       gateway/main.py: _handle_client with its handlers, get_online_users,
--                          get_room_list
--   Server/Rooms           server/main.py: AUTH_BACKEND, JOIN_ROOM, LEAVE_ROOM, the kick, chat,
--                          typing, the member list, _cleanup_client
--   Server/Transfers       server/main.py: sanitize_filename, uploads, downloads, resumed transfers,
--                          the flushing of the cache and the timeouts
--   Server/Posts           server/main.py: ROOM_MESSAGE_REACTION and ROOM_DELETE_FILE
--   Server/Dispatch        server/main.py: _handle_client, and what it leaves in room_messages
--   Client/Connections     client/gateway_connection.py and client/room_connection.py
--   Web/Chunks, Web/Events web/api/routes.py (the cutting of uploads) and web/api/session.py
--   Web/Downloads          web/api/routes.py: the streaming of a download
--   Web/Http               web/api/http_server.py: handle_client, up to the routing of a request
--   Prelude, Dict          shared names, tests and lemmas; Python's dict
--   Tests                  the theorems at concrete inputs
--
-- State is a record that each operation takes and returns. A socket, a user and a row are numbers,
-- a dict is an association list in insertion order, a set of sockets a list without repetition.
-- Each connection has a thread of its own; here a handler is one step, from its first statement to
-- its last, also where it takes the lock late or twice. Apart are the two halves of
-- _check_timeouts (Gateway/Backends) and the part of _handle_join_room from its lock on
-- (Server/Rooms); other interleavings inside a handler are not modelled. A database call has an
-- argument that says whether sqlite carries it out: when it raises, the code logs and goes on, or
-- answers INTERNAL_ERROR. The clock, fresh tokens and row ids are arguments. A KeyError or
-- TypeError that ends a handler is `none` in Server/Rooms and Server/Dispatch. Packets that a
-- handler sends are values: effects in Server/Rooms, replies and chunks in Server/Transfers.
-- Sending is not modelled as failing, except that the code's loops go on past a failed send.
--
-- Python's json module is the parameter `Json` of Protocol, with the round trip of dumps and loads
-- as its law; hashlib's sha256 is a parameter of the end of an upload. The loop of _recv_all is on
-- fuel, the number of bytes that are asked for and one more, which is enough since each round
-- takes at least one byte. Numbers are unbounded, as Python's; the header length is 32 bits wide,
-- and a longer header is an error, as struct.pack's.
--
-- hashlib's pbkdf2 and sqlite's ORDER BY with a LIMIT are parameters of the accounts and of the
-- histories of private messages and of rooms. In Gateway/Dispatch and Server/Dispatch a record
-- `Call` holds what the outside gives while one packet is handled: the time, whether sqlite works,
-- the socket and the new ids. A file that is deleted is looked for as SQL's LIKE does, on lists of
-- code points.
--
-- Not modelled: payloads that are no object, or whose fields have other types than the protocol's
-- (a text as the filesize of UPLOAD_INIT is; a number as a username is not); fractions of a second;
-- a failing lookup of a room's id (_get_room_id), which leaves the loop of a connection; the routes
-- of the web API that only turn a request of HTTP into a packet, and the HTTP server from
-- route_request on; logging, configuration and process start-up; the buffer of an open file
-- handle, which _handle_upload_finish closes before it reads the file; the wait of a poll for
-- events.
pub mod Prelude
pub mod Dict
pub mod Protocol
pub mod RateLimiter
pub mod Client
pub mod Gateway
pub mod Server
pub mod Web
pub mod Tests
