-- ===== src/Web/Downloads.antt =====
-- /api/rooms/files/download of web/api/routes.py: the chunks of a process server become the chunks of
-- an HTTP response.
pub mod Framing
pub mod Delivered
use netcourier.Prelude.{
  ℕ, zero, suc, ◌+◌, ◌-◌, ◌/◌, ◌%◌, Bool, true, false, Option, none, some, List, [], ◌∷◌, ◌++◌, ltb,
  leb, length, if◌then◌else◌, ◌||◌, Text,
}
use netcourier.Client.Connections.{Connection}

unfoldable pub hex_digit : ℕ → ℕ
hex_digit n = if ltb n 10 then b'0' + n else b'A' + (n - 10)

-- `f"{n:X}"`, on fuel: a number has fewer digits than its successor counts.
unfoldable pub hex_fuel : ℕ → ℕ → Text
unfolding hex_digit
hex_fuel zero n = []
hex_fuel (suc fuel) n =
    let front = hex_fuel fuel (n / 16) in
    elim (ltb n 16) [ true ↦ hex_digit n ∷ [] | false ↦ front ++ hex_digit (n % 16) ∷ [] ]

unfoldable pub size_line : ℕ → Text
unfolding hex_fuel
size_line n = hex_fuel (suc n) n ++ 13 ∷ 10 ∷ []

-- StreamDownloader and what it shares with the route: `sent` is what went to the browser behind the
-- response's headers, and `is_set` the event that the route waits for.
pub record StreamDownloader : Type 0 where
  pub expected_chunk : ℕ
  pub error_occurred : Bool
  pub is_set : Bool
  pub sent : List ℕ

abbrev pub new_downloader : StreamDownloader
new_downloader = record { expected_chunk = 0; error_occurred = false; is_set = false; sent = [] }

-- `sent_ok` is false where the browser's socket raises.
unfoldable pub handle_chunk :
    (total_chunks : ℕ) (sent_ok : Bool) → List ℕ → StreamDownloader → StreamDownloader
unfolding size_line
handle_chunk total_chunks sent_ok bytes d =
    if d.error_occurred
    then d
    else if sent_ok
    then record {
      expected_chunk = d.expected_chunk + 1;
      error_occurred = false;
      is_set = d.is_set || leb total_chunks (d.expected_chunk + 1);
      sent = d.sent ++ (size_line (length bytes) ++ (bytes ++ 13 ∷ 10 ∷ []));
    }
    else record d { error_occurred = true; is_set = true }

unfoldable pub handle_chunks :
    (total_chunks : ℕ) → List (ℕ × List ℕ) → StreamDownloader → StreamDownloader
unfolding handle_chunk
handle_chunks total_chunks [] d = d
handle_chunks total_chunks ((i, bytes) ∷ chunks) d =
    handle_chunks total_chunks chunks (handle_chunk total_chunks true bytes d)

-- Behind the wait, whether the event was set or 300 seconds went by.
unfoldable pub end_response : StreamDownloader → List ℕ
end_response d = if d.error_occurred then d.sent else d.sent ++ b'0' ∷ 13 ∷ 10 ∷ 13 ∷ 10 ∷ []

-- `session.app.active_downloader = StreamDownloader()`
unfoldable pub set_downloader : Connection → Connection
set_downloader c = record c { active_downloader = some [] }
