-- ===== src/Gateway/Accounts.antt =====
-- gateway/auth_service.py: the table `users`, a dict by the name of the user, which is unique there.
-- `password` is `password.encode("utf-8")`, and `pbkdf2` the call of hashlib with the service's number
-- of iterations. `db_up` is false where sqlite raises.
pub mod Hex
pub mod Login
use netcourier.Prelude.{
  ℕ, ◌+◌, ◌*◌, ◌/◌, ◌%◌, ◌-◌, Bool, true, false, not, ◌&&◌, ◌||◌, String, Option, none, some, List,
  [], ◌∷◌, ◌++◌, leb, ltb, nat_eqb, is_empty, elem, or_else, if◌then◌else◌, ◌==◌, nat_eq, string_eq,
}
use netcourier.Dict.{Dict, get, put}
use netcourier.Gateway.Sessions.{User}

abbrev pub Bytes : Type 0
Bytes = List ℕ

abbrev pub text_eqb : List ℕ → List ℕ → Bool
text_eqb [] [] = true
text_eqb (c ∷ cs) (d ∷ ds) = nat_eqb c d && text_eqb cs ds
text_eqb _ _ = false

unfoldable pub hex_digit : ℕ → ℕ
hex_digit n = if ltb n 10 then b'0' + n else b'a' + (n - 10)

-- `bytes.hex`
unfoldable pub hex : Bytes → List ℕ
unfolding hex_digit
hex [] = []
hex (b ∷ bs) = hex_digit (b / 16) ∷ hex_digit (b % 16) ∷ hex bs

unfoldable pub digit_value : ℕ → Option ℕ
digit_value c =
    if leb b'0' c && leb c b'9'
    then some (c - b'0')
    else if leb b'a' c && leb c b'f'
    then some (c - b'a' + 10)
    else if leb b'A' c && leb c b'F'
    then some (c - b'A' + 10)
    else none

abbrev pub is_space : ℕ → Bool
is_space c = c == b' ' || (leb 9 c && leb c 13)

abbrev pub pair_value : Option ℕ → Option ℕ → Option (Bytes) → Option (Bytes)
pair_value (some high) (some low) (some rest) = some ((16 * high + low) ∷ rest)
pair_value _ _ _ = none

-- `bytes.fromhex`, which passes over white space in front of a pair of digits; none is a ValueError.
unfoldable pub fromhex : List ℕ → Option (Bytes)
unfolding digit_value
fromhex [] = some []
fromhex (c ∷ []) = if is_space c then some [] else none
fromhex (c ∷ d ∷ chars) =
    let after_space = fromhex (d ∷ chars) in
    let rest = fromhex chars in
    if is_space c then after_space else pair_value (digit_value c) (digit_value d) rest

-- `salt_hex, hash_hex = stored_hash.split(":")`, which wants one colon.
unfoldable pub split_colon : List ℕ → Option (List ℕ × List ℕ)
split_colon [] = none
split_colon (c ∷ chars) =
    let rest = split_colon chars in
    if c == b':'
    then (if elem b':' chars then none else some ([], chars))
    else elim rest [ none ↦ none | some (salt_hex, hash_hex) ↦ some (c ∷ salt_hex, hash_hex) ]

pub record Account : Type 0 where
  pub user_id : ℕ
  pub password_hash : List ℕ
  pub display_name : String
  pub created_at : ℕ
  pub last_login_at : Option ℕ

pub data Registered : Type 0 where
  registered missing_field username_taken internal_error : Registered

-- A display name that is null is refused by sqlite. `user_id` is the id that sqlite gives.
unfoldable pub insert_user :
    ℕ
    → (user_id : ℕ) → String
    → List ℕ
    → Option String
    → Dict String Account
    → Dict String Account × Registered
insert_user now user_id username password_hash none users = (users, internal_error)
insert_user now user_id username password_hash (some display_name) users = (
  put users username (record {
    user_id = user_id;
    password_hash = password_hash;
    display_name = display_name;
    created_at = now;
    last_login_at = none;
  }),
  registered,
)

-- `UPDATE users SET last_login_at = ? WHERE user_id = ?`
unfoldable pub set_last_login : ℕ → ℕ → Dict String Account → Dict String Account
set_last_login now user_id [] = []
set_last_login now user_id ((username, row) ∷ users) =
    let rest = set_last_login now user_id users in
    if row.user_id == user_id
    then (username, record row { last_login_at = some now }) ∷ rest
    else (username, row) ∷ rest

module _ (pbkdf2 : Bytes → Bytes → Bytes) where
  -- `salt` is what `os.urandom(16)` gives.
  unfoldable pub hash_password : Bytes → Bytes → List ℕ
  unfolding hex
  hash_password password salt = hex salt ++ b':' ∷ hex (pbkdf2 password salt)

  -- A stored text of another form, or a missing password, is an exception, and false.
  unfoldable pub verify_password : Option Bytes → List ℕ → Bool
  unfolding split_colon fromhex hex
  verify_password none stored_hash = false
  verify_password (some password) stored_hash = elim (split_colon stored_hash) [
    | none ↦ false
    | some (salt_hex, hash_hex) ↦ elim (fromhex salt_hex) [
      | none ↦ false
      | some salt ↦ text_eqb (hex (pbkdf2 password salt)) hash_hex
    ]
  ]

  unfoldable pub register_user :
      (db_up : Bool) (now user_id : ℕ) (salt : Bytes)
      → Option String
      → Bytes
      → Option String
      → Dict String Account
      → Dict String Account × Registered
  unfolding insert_user hash_password
  register_user db_up now user_id salt none password display_name users = (users, missing_field)
  register_user db_up now user_id salt (some username) password display_name users =
      if username == "" || is_empty password
      then (users, missing_field)
      else if not db_up
      then (users, internal_error)
      else elim (get users username) [
        | some row ↦ (users, username_taken)
        | none ↦ insert_user now user_id username (hash_password password salt) display_name users
      ]

  unfoldable pub authenticate :
      (db_up : Bool) (now : ℕ)
      → Option String
      → Option Bytes
      → Dict String Account
      → Dict String Account × Option User
  unfolding set_last_login verify_password
  authenticate db_up now none password users = (users, none)
  authenticate db_up now (some username) password users = elim (get users username) [
    | none ↦ (users, none)
    | some row ↦
        if db_up && verify_password password row.password_hash
        then (
          set_last_login now row.user_id users,
          some (record {
            user_id = row.user_id;
            username = username;
            display_name = row.display_name;
          }),
        )
        else (users, none)
  ]
