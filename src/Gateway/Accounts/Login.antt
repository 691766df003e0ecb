-- ===== src/Gateway/Accounts/Login.antt =====
-- A registration of gateway/auth_service.py and the logins behind it.
use netcourier.Prelude.{ℕ, ◌≡◌, ap, ◌∙◌, sym, inl, inr, some, none, String, Bool-cases, string_eq}
use netcourier.Dict.{Dict}
use netcourier.Gateway.Accounts.{
  Bytes, text_eqb, hex, fromhex, Account, hash_password, verify_password,
}
use netcourier.Gateway.Accounts.Hex.{IsBytes, fromhex-hex, split_colon-hex, text_eqb_iff}

some_injective : {A : Type 0} (a b : A) → some a ≡ some b → a ≡ b
some_injective a b e = cc e

text_eqb-hex :
    (xs ys : Bytes) → IsBytes xs → IsBytes ys → text_eqb (hex xs) (hex ys) ≡ text_eqb xs ys
text_eqb-hex xs ys h h' = elim (Bool-cases (text_eqb xs ys)) [
  | inl same ↦
      let e : hex xs ≡ hex ys = ap hex ((text_eqb_iff xs ys).0 same) in
      (text_eqb_iff (hex xs) (hex ys)).1 e ∙ sym same
  | inr differ ↦ elim (Bool-cases (text_eqb (hex xs) (hex ys))) [
    | inr e ↦ e ∙ sym differ
    | inl e ↦
        let back : some xs ≡ some ys =
          sym (fromhex-hex xs h)
          ∙ ap fromhex ((text_eqb_iff (hex xs) (hex ys)).0 e)
          ∙ fromhex-hex ys h' in
        absurd (cc ((text_eqb_iff xs ys).1 (some_injective xs ys back), differ))
  ]
]

module _ (pbkdf2 : Bytes → Bytes → Bytes)
    (bytes : (password salt : Bytes) → IsBytes (pbkdf2 password salt)) where
  -- A password is verified by the hash that it gives under the stored salt.
  pub verify_password-hash_password :
      (password other salt : Bytes)
      → IsBytes salt
      → verify_password pbkdf2 (some other) (hash_password pbkdf2 password salt)
        ≡ text_eqb (pbkdf2 other salt) (pbkdf2 password salt)
  unfolding verify_password hash_password
  verify_password-hash_password password other salt h =
      let hash = pbkdf2 password salt in
      rw
        (
          verify_password,
          hash_password,
          split_colon-hex salt hash h (bytes password salt),
          fromhex-hex salt h,
        )
        (text_eqb-hex (pbkdf2 other salt) hash (bytes other salt) (bytes password salt))

  row_for : (now user_id : ℕ) → Bytes → Bytes → String → Account
  row_for now user_id password salt display_name = record {
    user_id = user_id;
    password_hash = hash_password pbkdf2 password salt;
    display_name = display_name;
    created_at = now;
    last_login_at = none;
  }
