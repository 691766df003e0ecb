-- ===== src/Server/Transfers/Downloads.antt =====
-- The chunks of a download of server/main.py are the file, from the chunk that was asked for on.
use netcourier.Prelude.{ℕ, zero, suc, ◌+◌, List, [], ◌∷◌, ◌++◌, nat_eq, string_eq}
use netcourier.Server.Transfers.Defs.{Transfers}

-- What a receiver has that puts the chunks behind one another.
abbrev pub joined : List (ℕ × List ℕ) → List ℕ
joined [] = []
joined ((i, bytes) ∷ chunks) = bytes ++ joined chunks

-- The indices from `i` on.
abbrev pub indices : ℕ → ℕ → List ℕ
indices zero i = []
indices (suc n) i = i ∷ indices n (i + 1)
