-- ===== src/Gateway/Dispatch/Leaks.antt =====
-- Two logins on one connection of gateway/main.py.
use netcourier.Prelude.{
  ℕ, List, [], ◌∷◌, ◌≡◌, refl, sym, ◌∙◌, Bool, false, String, Option, none, some, string_eq,
  Option-cases, Bool-cases, inl, inr, ◌==◌, eq_iff,
}
use netcourier.Dict.{get, get-put}
use netcourier.Gateway.Sessions.Pruning.{get-cleanup_session}
use netcourier.Gateway.Sessions.Tokens.{get-login}
use netcourier.Gateway.Sessions.Steps.{logs_in, here, next, Reach-OneEach}
use netcourier.Gateway.Messages.{login_ok}
use netcourier.Gateway.Sessions.{
  Sessions, User, cleanup_session, disconnect_old, login, new_session,
}
use netcourier.Gateway.Accounts.{authenticate}
use netcourier.Gateway.Sessions.Ownership.{OneEach, holder}
use netcourier.Gateway.Dispatch.State.{Gateway, System, Call, log_in}
use netcourier.Gateway.Dispatch.Defs.{answer, handle_packet, handle_login, close_connection}

-- A login of one user leaves the sessions of the others.
disconnect_old-other :
    (db_up : Bool) (now : ℕ) (name other token : String) (g : Sessions)
    → OneEach g
    → (name == other) ≡ false
    → holder g token ≡ some other
    → get (disconnect_old db_up now name g).active_sessions token ≡ get g.active_sessions token
unfolding disconnect_old
disconnect_old-other db_up now name other token g v apart held =
    elim (Option-cases (get g.user_to_token name)) [
      | inl e ↦ rw (disconnect_old, e) refl
      | inr (old, e) ↦ elim (Bool-cases (old == token)) [
        | inl same ↦
            let mine : holder g old ≡ some name = (v.agree old name).1 e in
            let mine' : holder g token ≡ some name = rw (sym ((eq_iff old token).0 same)) mine in
            let equal : some name ≡ some other = sym mine' ∙ held in
            absurd (cc ((eq_iff name other).1 (cc equal), apart))
        | inr differ ↦
            rw (disconnect_old, e) (get-cleanup_session db_up now old token g ∙ rw differ refl)
      ]
    ]

module _ (system : System) where
  logged : Call → Option String → Option (List ℕ) → User → Gateway → Gateway
  logged call username password user g = record g {
    users = (authenticate system.pbkdf2 call.db_up call.now username password g.users).0;
    sessions = login call.db_up call.now call.conn call.uuid user none g.sessions;
  }

  handle_packet-log_in :
      (call : Call) (username : Option String) (password : Option (List ℕ)) (user : User)
      (current_token : Option String) (g : Gateway)
      → (authenticate system.pbkdf2 call.db_up call.now username password g.users).1 ≡ some user
      → handle_packet system call none (log_in username password none) current_token g ≡ (
        some call.uuid,
        logged call username password user g,
        (call.conn, login_ok call.uuid user.user_id user.username user.display_name) ∷ [],
      )
  unfolding handle_packet answer handle_login logged
  handle_packet-log_in call username password user current_token g right = rw right refl

  stays :
      (first second last : Call) (a b : User) (g : Sessions)
      → OneEach g
      → holder g first.uuid ≡ none
      → (b.username == a.username) ≡ false
      → (second.uuid == first.uuid) ≡ false
      → let g' = login first.db_up first.now first.conn first.uuid a none g in
        let g'' = login second.db_up second.now second.conn second.uuid b none g' in
        get (cleanup_session last.db_up last.now second.uuid g'').active_sessions first.uuid
        ≡ some (new_session first.now first.conn a none)
  unfolding login holder
  stays first second last a b g v fresh apart distinct =
      let g' = login first.db_up first.now first.conn first.uuid a none g in
      let g'' = login second.db_up second.now second.conn second.uuid b none g' in
      let v' : OneEach g' =
        Reach-OneEach v
          (next here (logs_in first.db_up first.now first.conn first.uuid a none fresh)) in
      let there = get-login first.db_up first.now first.conn first.uuid a none g in
      let held : holder g' first.uuid ≡ some a.username = rw there (unfold new_session in refl) in
      let old = disconnect_old second.db_up second.now b.username g' in
      let kept : get old.active_sessions first.uuid ≡ get g'.active_sessions first.uuid =
        disconnect_old-other second.db_up second.now b.username a.username first.uuid g' v' apart
          held in
      get-cleanup_session last.db_up last.now second.uuid first.uuid g''
      ∙ rw distinct (
          get-put old.active_sessions second.uuid first.uuid
            (new_session second.now second.conn b none)
          ∙ rw distinct (kept ∙ there))

  -- The second login of a connection, by another user, and the end of the connection: the session
  -- of the first user stays, and belongs to a socket that is closed.
  pub handle_login-twice :
      (first second last : Call) (username username' : Option String)
      (password password' : Option (List ℕ)) (a b : User) (g : Gateway)
      → OneEach g.sessions
      → holder g.sessions first.uuid ≡ none
      → (authenticate system.pbkdf2 first.db_up first.now username password g.users).1 ≡ some a
      → (authenticate system.pbkdf2 second.db_up second.now username' password'
          (authenticate system.pbkdf2 first.db_up first.now username password g.users).0).1
        ≡ some b
      → (b.username == a.username) ≡ false
      → (second.uuid == first.uuid) ≡ false
      → let (token, g', packets) =
          handle_packet system first none (log_in username password none) none g in
        let (token', g'', packets') =
          handle_packet system second none (log_in username' password' none) token g' in
        let closed = close_connection last token' g'' in
        (token ≡ some first.uuid)
        × (get closed.sessions.active_sessions first.uuid
            ≡ some (new_session first.now first.conn a none))
  unfolding logged close_connection
  handle_login-twice first second last username username' password password' a b g v fresh right
        right' apart distinct =
      let once = handle_packet-log_in first username password a none g right in
      let g' = logged first username password a g in
      rw (once, handle_packet-log_in second username' password' b (some first.uuid) g' right')
        (refl, stays first second last a b g.sessions v fresh apart distinct)
