-- ===== src/Tests/Accounts.antt =====
-- The accounts and the private messages of the gateway, with a hash that is the length.
use mathlib.Core.List.{Mem}
use mathlib.Core.Option.{none-ne-some}
use netcourier.Prelude.{
  ◌%◌, ◌≡◌, ◌≢◌, arith, true, String, none, some, [], ◌∷◌, length, string_eq, nat_eq, Bool-cases,
  inl, inr, ◌==◌, eq_iff,
}
use netcourier.Dict.{Dict, get, put}
use netcourier.Gateway.Accounts.{Bytes, Account}
use netcourier.Gateway.Sessions.{User, Sessions, login, disconnect_old, new_session}
use netcourier.Gateway.Sessions.Ownership.{holder}
use netcourier.Gateway.Messages.{stored_offline, get_pm_history, store_pm, between}
use netcourier.Gateway.Messages.Recipients.{row_for}
use netcourier.Gateway.Messages.History.{get_pm_history-store_pm}
use netcourier.Tests.Gateway.{logged_out}

abbrev pub length_hash : Bytes → Bytes → Bytes
length_hash password salt = length password % 256 ∷ []

abbrev ada : User
ada = record { user_id = 1; username = "ada"; display_name = "Ada" }

abbrev pub account : Account
account = record {
  user_id = 1;
  password_hash = [];
  display_name = "Ada";
  created_at = 0;
  last_login_at = none;
}

abbrev users : Dict String Account
users = ("ada", account) ∷ ("bob", record account { user_id = 2 }) ∷ []

abbrev ada_live : Sessions
ada_live = login true 10 3 "t1" ada none logged_out

bob_away : (t : String) → holder ada_live t ≢ some "bob"
unfolding login disconnect_old new_session holder get put
bob_away t h = elim (Bool-cases ("t1" == t)) [
  | inl same ↦
      let named : some "ada" ≡ some "bob" = rw same at h in
      absurd (cc ((eq_iff "ada" "bob").1 (cc named)))
  | inr apart ↦ absurd (none-ne-some "bob" (rw apart at h))
]

get_pm_history-store_pm_example :
    let m = row_for 9 2 "bob" 1 "ada" "hi" stored_offline in
    let rows' = store_pm true 9 2 "bob" 1 "ada" (some "hi") stored_offline [] in
    Mem m (get_pm_history (λ u v limit rows. rows) true 2 1 50 rows')
    × Mem m (get_pm_history (λ u v limit rows. rows) true 1 2 50 rows')
unfolding between
get_pm_history-store_pm_example =
    get_pm_history-store_pm (λ u v limit rows. rows) (λ u v limit rows m few held. held) 9 50 2 1
      "bob" "ada" "hi" stored_offline [] (omega arith)
