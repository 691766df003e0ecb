-- ===== src/Gateway/Sessions/Tokens.antt =====
-- The session that a login of gateway/main.py leaves under its token.
use netcourier.Prelude.{ℕ, ◌≡◌, refl, Bool, String, Option, some, string_eq, nat_eq, beq_refl}
use netcourier.Dict.{get, get-put}
use netcourier.Gateway.Sessions.{Sessions, User, new_session, login}

pub get-login :
    (db_up : Bool) (now conn : ℕ) (token : String) (user : User) (expires_at : Option ℕ)
    (g : Sessions)
    → get (login db_up now conn token user expires_at g).active_sessions token
      ≡ some (new_session now conn user expires_at)
unfolding login
get-login db_up now conn token user expires_at g = rw get-put (rw (beq_refl token) refl)
