-- ===== src/Gateway/Sessions/Ownership.antt =====
-- One session for each user (gateway/main.py): `user_to_token` and `active_sessions` say the same.
use mathlib.Core.Option
use mathlib.Core.Path.{subst}
use mathlib.Core.Option.{none-ne-some}
use netcourier.Prelude.{
  ℕ, ◌≡◌, refl, ◌↔◌, inl, inr, Bool, String, Option, none, some, List, [], ◌∷◌, arith,
  if◌then◌else◌, ◌==◌, string_eq, eq_iff, Bool-cases, Option-cases, sym, ◌∙◌, beq_refl,
}
use netcourier.Dict.{Dict, get, put, del, get-put, get-del}
use netcourier.Gateway.Presence.{Presence}
use netcourier.Gateway.Sessions.{
  Session, Sessions, forget_user, remove_session, cleanup_session, cleanup_all, disconnect_old,
}

-- Whose session a token is.
unfoldable pub holder : Sessions → String → Option String
holder g token = Option.map (λ (s : Session). s.username) (get g.active_sessions token)

-- A token is the session of a user exactly when it is the user's token.
pub record OneEach (g : Sessions) : Type 0 where
  pub agree :
      (token username : String)
      → (holder g token ≡ some username) ↔ (get g.user_to_token username ≡ some token)

get-forget_user :
    (d : Dict String String) (username token u : String)
    → get d username ≡ some token
    → get (forget_user d username token) u ≡ (if username == u then none else get d u)
unfolding forget_user
get-forget_user d username token u e =
    rw (e, forget_user) (rw (beq_refl token) (get-del d username u))

-- Taking a token and its user out of two dicts that agree, at one token t and one user u.
agree_del :
    (token name t u : String) (ht ut : Option String)
    → ((ht ≡ some u) ↔ (ut ≡ some t))
    → (token ≡ t → ht ≡ some name)
    → (name ≡ u → ut ≡ some token)
    → ((if token == t then none else ht) ≡ some u) ↔ ((if name == u then none else ut) ≡ some t)
agree_del token name t u ht ut same at_t at_u = elim (Bool-cases (token == t)) [
  | inl this ↦
      let e = (eq_iff token t).0 this in
      elim (Bool-cases (name == u)) [
        | inl one ↦ rw (this, one) (λ p. cc, λ p. cc)
        | inr other ↦
            rw (this, other)
              (λ p. cc, λ p. let q = same.1 p in cc (at_t e, (eq_iff name u).1 (cc (at_t e))))
      ]
  | inr that ↦ elim (Bool-cases (name == u)) [
    | inl one ↦
        let e = (eq_iff name u).0 one in
        rw (that, one)
          (λ p. let q = same.0 p in cc (at_u e, (eq_iff token t).1 (cc (at_u e))), λ p. cc)
    | inr other ↦ rw (that, other) same
  ]
]

-- Putting a new token in for a user who has none.
pub agree_put :
    (token name t u : String) (ht ut : Option String)
    → ((ht ≡ some u) ↔ (ut ≡ some t))
    → (token ≡ t → ht ≡ none)
    → (name ≡ u → ut ≡ none)
    → ((if token == t then some name else ht) ≡ some u)
      ↔ ((if name == u then some token else ut) ≡ some t)
agree_put token name t u ht ut same at_t at_u = elim (Bool-cases (token == t)) [
  | inl this ↦
      let e = (eq_iff token t).0 this in
      elim (Bool-cases (name == u)) [
        | inl one ↦ let e' = (eq_iff name u).0 one in rw (this, one) (λ p. cc, λ p. cc)
        | inr other ↦
            rw (this, other)
              (λ p. cc ((eq_iff name u).1 (cc)), λ p. let q = same.1 p in cc (at_t e))
      ]
  | inr that ↦ elim (Bool-cases (name == u)) [
    | inl one ↦
        let e = (eq_iff name u).0 one in
        rw (that, one) (λ p. let q = same.0 p in cc (at_u e), λ p. cc ((eq_iff token t).1 (cc)))
    | inr other ↦ rw (that, other) same
  ]
]

holder-del :
    (token t : String) (d : Dict String Session)
    → Option.map (λ (s : Session). s.username) (get (del d token) t)
      ≡ (if token == t then none else Option.map (λ (s : Session). s.username) (get d t))
holder-del token t d = rw get-del (ground arith)

pub holder-put :
    (token t : String) (s : Session) (d : Dict String Session)
    → Option.map (λ (s' : Session). s'.username) (get (put d token s) t) ≡ (
        if token == t
        then some s.username
        else Option.map (λ (s' : Session). s'.username) (get d t))
holder-put token t s d = rw get-put (ground arith)

remove_session-OneEach :
    (db_up : Bool) (now : ℕ) (token : String) (s : Session) (g : Sessions)
    → get g.active_sessions token ≡ some s
    → OneEach g
    → OneEach (remove_session db_up now token s g)
unfolding remove_session holder
remove_session-OneEach db_up now token s g e v = record {
  agree = λ t u.
      let held : holder g token ≡ some s.username = rw e refl in
      let mine : get g.user_to_token s.username ≡ some token = (v.agree token s.username).0 held in
      rw (holder-del, get-forget_user g.user_to_token s.username token u mine)
        (agree_del token s.username t u (holder g t) (get g.user_to_token u) (v.agree t u)
          (λ p. subst (λ x. holder g x ≡ some s.username) p held)
          (λ p. subst (λ x. get g.user_to_token x ≡ some token) p mine));
}

pub cleanup_session-OneEach :
    (db_up : Bool) (now : ℕ) (token : String) (g : Sessions)
    → OneEach g
    → OneEach (cleanup_session db_up now token g)
unfolding cleanup_session
cleanup_session-OneEach db_up now token g v = elim (Option-cases (get g.active_sessions token)) [
  | inl e ↦ rw (e, cleanup_session) v
  | inr (s, e) ↦ rw (e, cleanup_session) (remove_session-OneEach db_up now token s g e v)
]

pub cleanup_all-OneEach :
    (db_up : Bool) (now : ℕ) (tokens : List String) (g : Sessions)
    → OneEach g
    → OneEach (cleanup_all db_up now tokens g)
unfolding cleanup_all
cleanup_all-OneEach db_up now [] g v = v
cleanup_all-OneEach db_up now (token ∷ tokens) g v =
    cleanup_all-OneEach db_up now tokens (cleanup_session db_up now token g)
      (cleanup_session-OneEach db_up now token g v)

pub holder-some :
    (g : Sessions) (token u : String)
    → holder g token ≡ some u
    → (s : Session) × (get g.active_sessions token ≡ some s) × (s.username ≡ u)
unfolding holder
holder-some g token u h = elim (Option-cases (get g.active_sessions token)) [
  | inl e ↦ absurd (none-ne-some u (rw e at h))
  | inr (s, e) ↦ let same : some s.username ≡ some u = rw e at h in (s, e, cc)
]

-- A cleanup takes out one session and no other.
pub holder-cleanup_session :
    (db_up : Bool) (now : ℕ) (token t : String) (g : Sessions)
    → holder (cleanup_session db_up now token g) t ≡ (if token == t then none else holder g t)
unfolding cleanup_session remove_session holder
holder-cleanup_session db_up now token t g = elim (Option-cases (get g.active_sessions token)) [
  | inl e ↦
      rw (e, cleanup_session)
        (elim (Bool-cases (token == t)) [
          | inl this ↦ rw this (rw (← (eq_iff token t).0 this) (rw e refl))
          | inr that ↦ rw that refl
        ])
  | inr (s, e) ↦ rw (e, cleanup_session) (holder-del token t g.active_sessions)
]

-- After the old session of a user is gone there is none left, and no token is new.
pub disconnect_old_lem :
    (db_up : Bool) (now : ℕ) (username : String) (g : Sessions)
    → OneEach g
    → let g' = disconnect_old db_up now username g in
      OneEach g'
      × (get g'.user_to_token username ≡ none)
      × ((t : String) → holder g t ≡ none → holder g' t ≡ none)
unfolding disconnect_old
disconnect_old_lem db_up now username g v = elim (Option-cases (get g.user_to_token username)) [
  | inl e ↦ rw (e, disconnect_old) (v, e, λ t h. h)
  | inr (old, e) ↦
      let g' = cleanup_session db_up now old g in
      let v' : OneEach g' = cleanup_session-OneEach db_up now old g v in
      let gone : holder g' old ≡ none =
        holder-cleanup_session db_up now old old g ∙ rw (beq_refl old) refl in
      rw (e, disconnect_old)
        (
          v',
          elim (Option-cases (get g'.user_to_token username)) [
            | inl none_left ↦ none_left
            | inr (t, e') ↦
                let held = (v'.agree t username).1 e' in
                let there = holder-cleanup_session db_up now old t g in
                elim (Bool-cases (old == t)) [
                  | inl this ↦ let out : holder g' t ≡ none = there ∙ rw this refl in cc (held, out)
                  | inr that ↦
                      let kept : holder g' t ≡ holder g t = there ∙ rw that refl in
                      let before : holder g t ≡ some username = sym kept ∙ held in
                      let mine = (v.agree t username).0 before in
                      cc (mine, e, (eq_iff old t).1 (cc (mine, e)), that)
                ]
          ],
          λ t h. holder-cleanup_session db_up now old t g ∙ rw h (ground arith),
        )
]

-- Rewriting a session under its own token and name changes nothing of this.
pub put_same-OneEach :
    (token : String) (s s' : Session) (g : Sessions) (p : Dict ℕ Presence)
    → get g.active_sessions token ≡ some s
    → s'.username ≡ s.username
    → OneEach g
    → OneEach (record g { active_sessions = put g.active_sessions token s'; presence = p })
unfolding holder
put_same-OneEach token s s' g p e name v = record {
  agree = λ t u. rw holder-put (elim (Bool-cases (token == t)) [
    | inl this ↦
        let held : holder g t ≡ some s'.username =
          rw (sym ((eq_iff token t).0 this)) (rw (e, name)) in
        rw this (rw (sym held) (v.agree t u))
    | inr that ↦ rw that (v.agree t u)
  ]);
}
