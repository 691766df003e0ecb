-- ===== src/Gateway/Accounts/Hex.antt =====
-- The text form of a stored password hash in gateway/auth_service.py: hex of salt and hash, read back.
use netcourier.Prelude.{
  ℕ, ◌+◌, ◌*◌, ◌/◌, ◌%◌, ◌<◌, ◌≡◌, refl, inl, inr, true, false, some, List, [], ◌∷◌, ◌++◌, arith,
  nat_eqb_iff, elem, All, Bool-cases, ◌==◌, nat_eq, ◌↔◌,
}
use netcourier.Gateway.Accounts.{
  Bytes, text_eqb, hex_digit, hex, digit_value, is_space, fromhex, split_colon,
}

-- The bytes of a hash or a salt.
abbrev pub IsBytes : Bytes → Type 0
IsBytes = All (λ b. b < 256)

digit_value-hex_digit : (n : ℕ) → n < 16 → digit_value (hex_digit n) ≡ some n
unfolding digit_value hex_digit
digit_value-hex_digit n h = ground arith

hex_digit-not_space : (n : ℕ) → n < 16 → is_space (hex_digit n) ≡ false
unfolding hex_digit
hex_digit-not_space n h = ground arith

hex_digit-not_colon : (n : ℕ) → n < 16 → (hex_digit n == b':') ≡ false
unfolding hex_digit
hex_digit-not_colon n h = ground arith

pub fromhex-hex : (bs : Bytes) → IsBytes bs → fromhex (hex bs) ≡ some bs
unfolding fromhex hex
fromhex-hex [] h = refl
fromhex-hex (b ∷ bs) (first, h) =
    let high = digit_value-hex_digit (b / 16) (omega arith) in
    let low = digit_value-hex_digit (b % 16) (omega arith) in
    let dark = hex_digit-not_space (b / 16) (omega arith) in
    let whole : 16 * (b / 16) + b % 16 ≡ b = omega arith in
    rw (dark, high, low, fromhex-hex bs h, whole) refl

hex-no_colon : (bs : Bytes) → IsBytes bs → elem b':' (hex bs) ≡ false
unfolding hex
hex-no_colon [] h = refl
hex-no_colon (b ∷ bs) (first, h) =
    rw
      (
        hex_digit-not_colon (b / 16) (omega arith),
        hex_digit-not_colon (b % 16) (omega arith),
        hex-no_colon bs h,
      )
      refl

split_colon-append :
    (front back : List ℕ)
    → elem b':' front ≡ false
    → elem b':' back ≡ false
    → split_colon (front ++ b':' ∷ back) ≡ some (front, back)
unfolding split_colon
split_colon-append [] back h h' = rw h' refl
split_colon-append (c ∷ front) back h h' = elim (Bool-cases (c == b':')) [
  | inl colon ↦ absurd (ground (arith, h, colon))
  | inr other ↦
      let rest = split_colon-append front back (ground (arith, h, other)) h' in
      rw (other, rest) refl
]

-- A stored text is split where it was joined.
pub split_colon-hex :
    (salt hash : Bytes)
    → IsBytes salt
    → IsBytes hash
    → split_colon (hex salt ++ b':' ∷ hex hash) ≡ some (hex salt, hex hash)
split_colon-hex salt hash h h' =
    split_colon-append (hex salt) (hex hash) (hex-no_colon salt h) (hex-no_colon hash h')

pub text_eqb_iff : (xs ys : List ℕ) → (text_eqb xs ys ≡ true) ↔ (xs ≡ ys)
text_eqb_iff [] [] = (λ h. refl, λ h. refl)
text_eqb_iff [] (y ∷ ys) = (λ h. absurd (cc h), λ h. absurd (cc h))
text_eqb_iff (x ∷ xs) [] = (λ h. absurd (cc h), λ h. absurd (cc h))
text_eqb_iff (x ∷ xs) (y ∷ ys) = grind (arith, text_eqb_iff xs ys, nat_eqb_iff x y)
