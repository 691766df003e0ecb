-- ===== src/Server/Posts/Like.antt =====
-- SQL's LIKE, with which server/main.py looks for the card of a file.
use netcourier.Prelude.{
  ℕ, ◌+◌, Bool, true, false, ◌&&◌, ◌||◌, [], ◌∷◌, if◌then◌else◌, leb, Text, ◌==◌, nat_eq,
}

-- SQL's LIKE on one code point: `_` stands for any, and the case of ASCII letters does not count.
abbrev pub lower : ℕ → ℕ
lower c = if leb b'A' c && leb c b'Z' then c + 32 else c

abbrev pub like_char : ℕ → ℕ → Bool
like_char p c = p == b'_' || lower p == lower c

-- `text LIKE 'pattern%'` and `text LIKE '%pattern%'`, for a pattern with no `%`.
unfoldable pub like_prefix : Text → Text → Bool
like_prefix [] chars = true
like_prefix (p ∷ pattern) [] = false
like_prefix (p ∷ pattern) (c ∷ chars) = like_char p c && like_prefix pattern chars

unfoldable pub like_inside : Text → Text → Bool
unfolding like_prefix
like_inside pattern [] = like_prefix pattern []
like_inside pattern (c ∷ chars) = like_prefix pattern (c ∷ chars) || like_inside pattern chars
