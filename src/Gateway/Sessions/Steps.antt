-- ===== src/Gateway/Sessions/Steps.antt =====
-- Every operation on the sessions of gateway/main.py keeps one session for each user.
use mathlib.Core.Path.{subst}
use mathlib.Core.Option.{none-ne-some, some-ne-none}
use netcourier.Prelude.{
  ℕ, ◌≡◌, refl, inl, inr, Bool, String, Option, none, some, Bool-cases, Option-cases, string_eq,
  beq_refl, sym, ◌∙◌, ◌==◌, if◌then◌else◌, eq_iff,
}
use netcourier.Dict.{get, get-put}
use netcourier.Gateway.Sessions.{
  Sessions, User, is_expired, cleanup_session, prune_stale_sessions, collect, disconnect_old,
  new_session, login, see, touch, validate_token, set_room, update_room_status, Verdict,
}
use netcourier.Gateway.Sessions.Ownership.{
  OneEach, holder, holder-put, holder-some, agree_put, cleanup_session-OneEach, cleanup_all-OneEach,
  put_same-OneEach, disconnect_old_lem, holder-cleanup_session,
}

-- A login with a token that nobody holds leaves one session for each user, and the new one is the
-- user's.
login-OneEach :
    (db_up : Bool) (now conn : ℕ) (token : String) (user : User) (expires_at : Option ℕ)
    (g : Sessions)
    → holder g token ≡ none
    → OneEach g
    → OneEach (login db_up now conn token user expires_at g)
unfolding login new_session holder
login-OneEach db_up now conn token user expires_at g fresh v =
    let g' = disconnect_old db_up now user.username g in
    let (v', none_left, stays) = disconnect_old_lem db_up now user.username g v in
    record {
      agree = λ t u.
          rw (holder-put, get-put)
            (agree_put token user.username t u (holder g' t) (get g'.user_to_token u) (v'.agree t u)
              (λ p. subst (λ x. holder g' x ≡ none) p (stays token fresh))
              (λ p. subst (λ x. get g'.user_to_token x ≡ none) p none_left));
    }

touch-OneEach :
    (db_up : Bool) (now : ℕ) (token : String) (g : Sessions)
    → OneEach g
    → OneEach (touch db_up now token g).1
unfolding touch see
touch-OneEach db_up now token g v = elim (Option-cases (get g.active_sessions token)) [
  | inl e ↦ rw (e, touch) v
  | inr (s, e) ↦ elim (Bool-cases (is_expired now s.expires_at)) [
    | inl out ↦ rw (e, touch) (rw out (cleanup_session-OneEach db_up now token g v))
    | inr live ↦ rw (e, touch) (rw live (put_same-OneEach token s _ g _ e refl v))
  ]
]

validate_token-OneEach :
    (db_up : Bool) (now : ℕ) (token : String) (g : Sessions)
    → OneEach g
    → OneEach (validate_token db_up now token g).1
unfolding validate_token
validate_token-OneEach db_up now token g v = elim (Option-cases (get g.active_sessions token)) [
  | inl e ↦ rw (e, validate_token) v
  | inr (s, e) ↦ elim (Bool-cases (is_expired now s.expires_at)) [
    | inl out ↦ rw (e, validate_token) (rw out (cleanup_session-OneEach db_up now token g v))
    | inr live ↦ rw (e, validate_token) (rw live v)
  ]
]

update_room_status-OneEach :
    (db_up : Bool) (now id : ℕ) (username status : String) (server room : Option String)
    (g : Sessions)
    → OneEach g
    → OneEach (update_room_status db_up now id username status server room g)
unfolding update_room_status set_room holder
update_room_status-OneEach db_up now id username status server room g v =
    elim (Option-cases (get g.user_to_token username)) [
      | inl e ↦ rw e (record { agree = v.agree })
      | inr (token, e) ↦
          let (s, e', _) = holder-some g token username ((v.agree token username).1 e) in
          rw e (rw e' (put_same-OneEach token s _ g _ e' refl v))
    ]

-- What can happen to the sessions: a login with a fresh token, a packet with a token, a logout, a
-- connection that ends, a validation, a room change, a pruning.
pub data Step (g : Sessions) : Sessions → Type 0 where
  logs_in :
      (db_up : Bool) (now conn : ℕ) (token : String) (user : User) (expires_at : Option ℕ)
      → holder g token ≡ none
      → Step g (login db_up now conn token user expires_at g)
  sends : (db_up : Bool) (now : ℕ) (token : String) → Step g (touch db_up now token g).1
  leaves : (db_up : Bool) (now : ℕ) (token : String) → Step g (cleanup_session db_up now token g)
  is_validated :
      (db_up : Bool) (now : ℕ) (token : String) → Step g (validate_token db_up now token g).1
  moves :
      (db_up : Bool) (now id : ℕ) (username status : String) (server room : Option String)
      → Step g (update_room_status db_up now id username status server room g)
  prunes : (db_up : Bool) (now timeout : ℕ) → Step g (prune_stale_sessions db_up now timeout g)

pub data Reach (g : Sessions) : Sessions → Type 0 where
  here : Reach g g
  next : {h k : Sessions} → Reach g h → Step h k → Reach g k

Step-OneEach : {g h : Sessions} → OneEach g → Step g h → OneEach h
unfolding prune_stale_sessions
Step-OneEach {g} v (logs_in db_up now conn token user expires_at fresh) =
    login-OneEach db_up now conn token user expires_at g fresh v
Step-OneEach {g} v (sends db_up now token) = touch-OneEach db_up now token g v
Step-OneEach {g} v (leaves db_up now token) = cleanup_session-OneEach db_up now token g v
Step-OneEach {g} v (is_validated db_up now token) = validate_token-OneEach db_up now token g v
Step-OneEach {g} v (moves db_up now id username status server room) =
    update_room_status-OneEach db_up now id username status server room g v
Step-OneEach {g} v (prunes db_up now timeout) =
    cleanup_all-OneEach db_up now (collect now timeout g.active_sessions) g v

-- Whatever happens, from a state in which it holds: a token is a live session of a user exactly when
-- it is the token on record for that user, so nobody has two sessions.
pub Reach-OneEach : {g h : Sessions} → OneEach g → Reach g h → OneEach h
Reach-OneEach v here = v
Reach-OneEach v (next r s) = Step-OneEach (Reach-OneEach v r) s

invalid_of_none :
    (db_up : Bool) (now : ℕ) (token : String) (g : Sessions)
    → holder g token ≡ none
    → validate_token db_up now token g ≡ (Verdict.invalid_token, g)
unfolding validate_token holder
invalid_of_none db_up now token g h = elim (Option-cases (get g.active_sessions token)) [
  | inl e ↦ rw (e, validate_token) refl
  | inr (s, e) ↦ absurd (some-ne-none s.username (rw e at h))
]

disconnect_old-held :
    (db_up : Bool) (now : ℕ) (username old : String) (g : Sessions)
    → get g.user_to_token username ≡ some old
    → holder (disconnect_old db_up now username g) old ≡ none
unfolding disconnect_old
disconnect_old-held db_up now username old g mine =
    rw (mine, disconnect_old) (holder-cleanup_session db_up now old old g ∙ rw (beq_refl old) refl)

pub holder-login :
    (db_up : Bool) (now conn : ℕ) (token : String) (user : User) (expires_at : Option ℕ)
    (g : Sessions) (t : String)
    → holder (login db_up now conn token user expires_at g) t ≡ (
        if token == t
        then some user.username
        else holder (disconnect_old db_up now user.username g) t)
unfolding login new_session holder
holder-login db_up now conn token user expires_at g t = holder-put token t _ _

-- After a login with a fresh token every other token that was the user's is invalid: a process
-- server that asks for it gets INVALID_TOKEN, and nothing changes.
pub login_replaces :
    (db_up : Bool) (now conn : ℕ) (token : String) (user : User) (expires_at : Option ℕ)
    (g : Sessions) (old : String) (db_up' : Bool) (later : ℕ)
    → OneEach g
    → holder g token ≡ none
    → holder g old ≡ some user.username
    → let g' = login db_up now conn token user expires_at g in
      (holder g' token ≡ some user.username)
      × (validate_token db_up' later old g' ≡ (Verdict.invalid_token, g'))
login_replaces db_up now conn token user expires_at g old db_up' later v fresh held =
    let g' = login db_up now conn token user expires_at g in
    let mine = (v.agree old user.username).0 held in
    let gone = disconnect_old-held db_up now user.username old g mine in
    let at = holder-login db_up now conn token user expires_at g in
    let out : holder g' old ≡ none = elim (Bool-cases (token == old)) [
      | inl this ↦ absurd (
          none-ne-some user.username (
            sym fresh
            ∙ subst (λ t. holder g t ≡ some user.username) (sym ((eq_iff token old).0 this)) held))
      | inr that ↦ at old ∙ rw that gone
    ] in
    (at token ∙ rw (beq_refl token) refl, invalid_of_none db_up' later old g' out)
