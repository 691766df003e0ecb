-- ===== src/Server/Posts/Reactions.antt =====
-- `message_reactions` is a set of (message, user, emoji), and the handler adds to it or takes from it.
use netcourier.Prelude.{
  ℕ, ◌≡◌, Bool, false, ◌&&◌, String, List, [], ◌∷◌, ◌==◌, nat_eq, nat_eqb, string_eq,
}
use netcourier.Server.Rooms.Defs.{Server}
use netcourier.Server.Posts.Defs.{Reaction, Posts, reacted}

-- No two rows agree on message, user and emoji.
abbrev pub IsUnique : List Reaction → Type 0
IsUnique [] = Unit
IsUnique (r ∷ rs) = (reacted r.message_id r.user_id r.emoji rs ≡ false) × IsUnique rs

abbrev pub same_key : (m u : ℕ) → String → (m' u' : ℕ) → String → Bool
same_key m u e m' u' e' = nat_eqb m m' && nat_eqb u u' && e == e'
