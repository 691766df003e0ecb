-- ===== src/Gateway/LoadBalancer/Order.antt =====
-- Python's order of texts: by code points, the first difference decides.
use Prim.Native.Char.{code}
use netcourier.Prelude.{
  ℕ, ◌≡◌, refl, Bool, true, false, String, List, [], ◌∷◌, arith, ltb, nat_eqb, if◌then◌else◌,
  Bool-cases, inl, inr,
}

abbrev pub codes : String → List ℕ
codes String.[] = []
codes (String.◌∷◌ c s) = code c ∷ codes s

unfoldable pub lex_lt : List ℕ → List ℕ → Bool
lex_lt xs [] = false
lex_lt [] (y ∷ ys) = true
lex_lt (x ∷ xs) (y ∷ ys) = if nat_eqb x y then lex_lt xs ys else ltb x y

unfoldable pub server_lt : String → String → Bool
unfolding lex_lt
server_lt a b = lex_lt (codes a) (codes b)

lex_lt_asym : (xs ys : List ℕ) → lex_lt xs ys ≡ true → lex_lt ys xs ≡ false
unfolding lex_lt
lex_lt_asym xs [] h = cc
lex_lt_asym [] (y ∷ ys) h = refl
lex_lt_asym (x ∷ xs) (y ∷ ys) h = ground (arith, lex_lt_asym xs ys)

lex_lt_trans_not :
    (xs ys zs : List ℕ) → lex_lt zs ys ≡ false → lex_lt ys xs ≡ false → lex_lt zs xs ≡ false
unfolding lex_lt
lex_lt_trans_not [] ys zs h k = refl
lex_lt_trans_not (x ∷ xs) [] zs h k = cc
lex_lt_trans_not (x ∷ xs) (y ∷ ys) [] h k = cc
lex_lt_trans_not (x ∷ xs) (y ∷ ys) (z ∷ zs) h k = ground (arith, lex_lt_trans_not xs ys zs)

pub server_lt_asym : (a b : String) → server_lt a b ≡ true → server_lt b a ≡ false
unfolding server_lt
server_lt_asym a b h = lex_lt_asym (codes a) (codes b) h

-- What is not before b, which is not before a, is not before a.
pub server_lt_trans_not :
    (a b c : String) → server_lt c b ≡ false → server_lt b a ≡ false → server_lt c a ≡ false
unfolding server_lt
server_lt_trans_not a b c h k = lex_lt_trans_not (codes a) (codes b) (codes c) h k

pub server_lt_irrefl : (a : String) → server_lt a a ≡ false
server_lt_irrefl a = elim (Bool-cases (server_lt a a)) [ inl h ↦ server_lt_asym a a h | inr h ↦ h ]
