-- ===== src/Gateway/Dispatch/Runs.antt =====
-- Each packet of a client moves the sessions of gateway/main.py by the steps of Gateway/Sessions/Steps.
use mathlib.Core.Path.{subst}
use mathlib.Core.Option.{none-ne-some}
use netcourier.Prelude.{
  ℕ, ◌≡◌, refl, sym, ◌∙◌, Bool, String, Option, none, some, string_eq, Option-cases, Bool-cases,
  inl, inr, ◌==◌, eq_iff,
}
use netcourier.Dict.{Dict, get}
use netcourier.Gateway.Sessions.{
  Session, Sessions, User, is_expired, touch, see, Seen, unknown, expired, current,
}
use netcourier.RateLimiter.{is_allowed}
use netcourier.Gateway.Accounts.{Account, Bytes, authenticate}
use netcourier.Gateway.Sessions.Ownership.{OneEach, holder, holder-put, holder-cleanup_session}
use netcourier.Gateway.Sessions.Steps.{logs_in, sends, leaves, Reach, here, next, Reach-OneEach}
use netcourier.Gateway.Dispatch.State.{
  Lifetime, Gateway, System, Call, Request, register, log_in, log_out, ping, list_online_users,
  list_rooms, private_message_send, pm_history_request, create_room_request, join_room_request,
  unhandled, Handled,
}
use netcourier.Gateway.Dispatch.Defs.{
  session_of, serve_session, serve, answer, answer_seen, handle_packet, handle_logout, handle_login,
  handle_register, logged_in, expiry, send_allowed, handle_create_room, handle_join_room,
  close_connection,
}

-- A token that nobody holds is held by nobody when a packet has been seen.
touch-fresh :
    (db_up : Bool) (now : ℕ) (token t : String) (g : Sessions)
    → holder g t ≡ none
    → holder (touch db_up now token g).1 t ≡ none
unfolding touch see holder
touch-fresh db_up now token t g fresh = elim (Option-cases (get g.active_sessions token)) [
  | inl e ↦ rw (touch, e) fresh
  | inr (s, e) ↦ elim (Bool-cases (is_expired now s.expires_at)) [
    | inl over ↦
        rw (touch, e)
          (rw over (
            holder-cleanup_session db_up now token t g ∙ elim (Bool-cases (token == t)) [
              | inl same ↦ rw same refl
              | inr other ↦ rw other fresh
            ]))
    | inr live ↦ elim (Bool-cases (token == t)) [
      | inl same ↦
          let held : holder g t ≡ some s.username =
            rw (sym ((eq_iff token t).0 same)) (rw e refl) in
          absurd (none-ne-some s.username (sym fresh ∙ held))
      | inr other ↦ rw (touch, e) (rw live (rw holder-put (rw other fresh)))
    ]
  ]
]

Reach-trans : {g h k : Sessions} → Reach g h → Reach h k → Reach g k
Reach-trans r here = r
Reach-trans r (next q s) = next (Reach-trans r q) s

module _ (system : System) (call : Call) where
  -- The sessions are left as they are.
  abbrev Quiet : Gateway → Handled → Type 0
  Quiet g handled = handled.1.sessions ≡ g.sessions

  send_allowed-Quiet :
      (recipient content : Option String) (user_id : ℕ) (username : String)
      (current_token : Option String) (g : Gateway)
      → Quiet g (send_allowed system call recipient content user_id username current_token g)
  unfolding send_allowed
  send_allowed-Quiet recipient content user_id username current_token g =
      elim (Bool-cases (is_allowed call.now user_id g.pm_limiter).1) [
        | inl allowed ↦ rw (send_allowed, allowed) refl
        | inr not_yet ↦ rw (send_allowed, not_yet) refl
      ]

  serve-Quiet :
      (user_id : ℕ) (username : String) (request : Request) (current_token : Option String)
      (g : Gateway)
      → Quiet g (serve system call user_id username request current_token g)
  unfolding serve handle_create_room handle_join_room
  serve-Quiet user_id username (register _ _ _) current_token g = refl
  serve-Quiet user_id username (log_in _ _ _) current_token g = refl
  serve-Quiet user_id username log_out current_token g = refl
  serve-Quiet user_id username ping current_token g = refl
  serve-Quiet user_id username list_online_users current_token g = refl
  serve-Quiet user_id username list_rooms current_token g = refl
  serve-Quiet user_id username (private_message_send recipient content) current_token g =
      send_allowed-Quiet recipient content user_id username current_token g
  serve-Quiet user_id username (pm_history_request _) current_token g = refl
  serve-Quiet user_id username (create_room_request _ _) current_token g = refl
  serve-Quiet user_id username (join_room_request _) current_token g = refl
  serve-Quiet user_id username unhandled current_token g = refl

  serve_session-Quiet :
      (o : Option Session) (request : Request) (current_token : Option String) (g : Gateway)
      → Quiet g (serve_session system call o request current_token g)
  unfolding serve_session
  serve_session-Quiet none request current_token g = refl
  serve_session-Quiet (some s) request current_token g =
      serve-Quiet s.user_id s.username request current_token g

  served :
      (token : Option String) (request : Request) (current_token : Option String) (g : Gateway)
      → Reach g.sessions
          (serve_session system call
            (session_of system call token g)
            request
            current_token
            g).1.sessions
  served token request current_token g =
      subst (λ s. Reach g.sessions s)
        (sym (serve_session-Quiet (session_of system call token g) request current_token g)) here

  logged_in-Reach :
      (password : Option Bytes) (expires_in : Option Lifetime) (current_token : Option String)
      (users' : Dict String Account) (user : Option User) (g : Gateway)
      → holder g.sessions call.uuid ≡ none
      → Reach g.sessions
          (logged_in system call password expires_in current_token users' user g).1.sessions
  logged_in-Reach password expires_in current_token users' none g fresh = here
  logged_in-Reach password expires_in current_token users' (some user) g fresh =
      next here
        (logs_in call.db_up call.now call.conn call.uuid user (expiry call.now expires_in) fresh)

  handle_logout-Reach :
      (token : Option String) (g : Gateway)
      → Reach g.sessions (handle_logout system call token g).1.sessions
  unfolding handle_logout
  handle_logout-Reach none g = here
  handle_logout-Reach (some token) g = elim (Option-cases (get g.sessions.active_sessions token)) [
    | inl e ↦ rw (handle_logout, e) here
    | inr (s, e) ↦ rw (handle_logout, e) (next here (leaves call.db_up call.now token))
  ]

  answer-Reach :
      (token : Option String) (request : Request) (current_token : Option String) (g : Gateway)
      → holder g.sessions call.uuid ≡ none
      → Reach g.sessions (answer system call token request current_token g).1.sessions
  unfolding answer handle_register handle_login
  answer-Reach token (register _ _ _) current_token g fresh = here
  answer-Reach token (log_in username password expires_in) current_token g fresh =
      logged_in-Reach password expires_in current_token
        (authenticate system.pbkdf2 call.db_up call.now username password g.users).0
        (authenticate system.pbkdf2 call.db_up call.now username password g.users).1 g fresh
  answer-Reach token log_out current_token g fresh = handle_logout-Reach token g
  answer-Reach token ping current_token g fresh = here
  answer-Reach token list_online_users current_token g fresh =
      served token list_online_users current_token g
  answer-Reach token list_rooms current_token g fresh = served token list_rooms current_token g
  answer-Reach token (private_message_send recipient content) current_token g fresh =
      served token (private_message_send recipient content) current_token g
  answer-Reach token (pm_history_request other) current_token g fresh =
      served token (pm_history_request other) current_token g
  answer-Reach token (create_room_request name description) current_token g fresh =
      served token (create_room_request name description) current_token g
  answer-Reach token (join_room_request name) current_token g fresh =
      served token (join_room_request name) current_token g
  answer-Reach token unhandled current_token g fresh = served token unhandled current_token g

  answer_seen-Reach :
      (seen : Seen) (sessions' : Sessions) (token : Option String) (request : Request)
      (current_token : Option String) (g : Gateway)
      → holder sessions' call.uuid ≡ none
      → Reach sessions'
          (answer_seen system call (seen, sessions') token request current_token g).1.sessions
  answer_seen-Reach expired sessions' token request current_token g fresh = here
  answer_seen-Reach unknown sessions' token request current_token g fresh =
      answer-Reach token request current_token (record g { sessions = sessions' }) fresh
  answer_seen-Reach current sessions' token request current_token g fresh =
      answer-Reach token request current_token (record g { sessions = sessions' }) fresh

  handle_packet-Reach :
      (token : Option String) (request : Request) (current_token : Option String) (g : Gateway)
      → holder g.sessions call.uuid ≡ none
      → Reach g.sessions (handle_packet system call token request current_token g).1.sessions
  unfolding handle_packet
  handle_packet-Reach none request current_token g fresh =
      answer-Reach none request current_token g fresh
  handle_packet-Reach (some token) request current_token g fresh =
      let seen = touch call.db_up call.now token g.sessions in
      Reach-trans (next here (sends call.db_up call.now token)) (
        answer_seen-Reach seen.0 seen.1 (some token) request current_token g
          (touch-fresh call.db_up call.now token call.uuid g.sessions fresh))

-- What the connections of the gateway go through: a packet, or the end of a connection.
pub data Event : Type 0 where
  receives : System → Call → Option String → Request → (current_token : Option String) → Event
  ends : Call → (current_token : Option String) → Event

unfoldable pub handle_event : Event → Gateway → Gateway
handle_event (receives system call token request current_token) g =
    (handle_packet system call token request current_token g).1
handle_event (ends call current_token) g = close_connection call current_token g

-- A new token is one that nobody holds.
abbrev pub IsFresh : Event → Gateway → Type 0
IsFresh (receives system call token request current_token) g = holder g.sessions call.uuid ≡ none
IsFresh (ends call current_token) g = Unit

pub data Runs (g : Gateway) : Gateway → Type 0 where
  starts : Runs g g
  handles : {h : Gateway} → Runs g h → (e : Event) → IsFresh e h → Runs g (handle_event e h)

event-Reach : (e : Event) (g : Gateway) → IsFresh e g → Reach g.sessions (handle_event e g).sessions
unfolding handle_event close_connection
event-Reach (receives system call token request current_token) g fresh =
    handle_packet-Reach system call token request current_token g fresh
event-Reach (ends call none) g fresh = here
event-Reach (ends call (some token)) g fresh = next here (leaves call.db_up call.now token)

-- From a state with one session for each user, over any packets of clients on however many connections,
-- whose usernames are texts, and any ends of connections, each handled before the next begins: the
-- sessions of the gateway move by the steps that they are specified with, and there stays one session
-- for each user, where every login draws a token that is in no use.
pub Runs-Reach :
    {g h : Gateway}
    → Runs g h
    → OneEach g.sessions
    → Reach g.sessions h.sessions × OneEach h.sessions
Runs-Reach starts v = (here, v)
Runs-Reach (handles {h = h} runs e fresh) v =
    let (reached, v') = Runs-Reach runs v in
    let step = event-Reach e h fresh in (Reach-trans reached step, Reach-OneEach v' step)
