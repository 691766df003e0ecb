-- ===== src/Gateway/Dispatch/Guards.antt =====
-- What gateway/main.py serves to a packet without a live session.
use netcourier.Prelude.{
  ◌≡◌, refl, Bool, true, false, String, Option, none, some, [], ◌∷◌, string_eq, ◌∙◌,
}
use netcourier.Gateway.Sessions.{touch}
use netcourier.Gateway.Messages.{Code, error}
use netcourier.Gateway.Dispatch.State.{
  Gateway, System, Call, Request, register, log_in, log_out, ping, list_online_users, list_rooms,
  private_message_send, pm_history_request, create_room_request, join_room_request, unhandled,
}
use netcourier.Gateway.Dispatch.Defs.{session_of, serve_session, answer, handle_packet}

-- Every request but REGISTER, LOGIN, LOGOUT and PING.
abbrev pub needs_session : Request → Bool
needs_session (register _ _ _) = false
needs_session (log_in _ _ _) = false
needs_session log_out = false
needs_session ping = false
needs_session _ = true

module _ (system : System) (call : Call) where
  answer-needs_session :
      (token : Option String) (request : Request) (current_token : Option String) (g : Gateway)
      → needs_session request ≡ true
      → answer system call token request current_token g
        ≡ serve_session system call (session_of system call token g) request current_token g
  unfolding answer
  answer-needs_session token (register _ _ _) current_token g h = absurd (cc h)
  answer-needs_session token (log_in _ _ _) current_token g h = absurd (cc h)
  answer-needs_session token log_out current_token g h = absurd (cc h)
  answer-needs_session token ping current_token g h = absurd (cc h)
  answer-needs_session token list_online_users current_token g h = refl
  answer-needs_session token list_rooms current_token g h = refl
  answer-needs_session token (private_message_send _ _) current_token g h = refl
  answer-needs_session token (pm_history_request _) current_token g h = refl
  answer-needs_session token (create_room_request _ _) current_token g h = refl
  answer-needs_session token (join_room_request _) current_token g h = refl
  answer-needs_session token unhandled current_token g h = refl

  refused :
      (token : Option String) (request : Request) (current_token : Option String) (g : Gateway)
      → session_of system call token g ≡ none
      → needs_session request ≡ true
      → answer system call token request current_token g
        ≡ (current_token, g, (call.conn, error Code.invalid_token) ∷ [])
  unfolding serve_session
  refused token request current_token g absent h =
      answer-needs_session token request current_token g h ∙ rw absent refl

  -- A packet with no token, or with one that is no session, gets INVALID_TOKEN and changes nothing,
  -- whatever it asks for, but for REGISTER, LOGIN, LOGOUT and PING.
  pub handle_packet-guarded :
      (token : Option String) (request : Request) (current_token : Option String) (g : Gateway)
      → session_of system call token g ≡ none
      → needs_session request ≡ true
      → handle_packet system call token request current_token g
        ≡ (current_token, g, (call.conn, error Code.invalid_token) ∷ [])
  unfolding handle_packet touch
  handle_packet-guarded none request current_token g absent h =
      refused none request current_token g absent h
  handle_packet-guarded (some token) request current_token g absent h =
      rw (touch, absent) (refused (some token) request current_token g absent h)
