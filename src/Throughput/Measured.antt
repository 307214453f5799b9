-- ===== src/Throughput/Measured.antt =====
-- What is counted between `/reset` and `/report`.
use nycu_intro_np.Prelude.{
  ℕ, ◌+◌, ◌*◌, ◌-◌, ◌≤◌, ◌<◌, ◌≡◌, true, List, [], ◌∷◌, some, Bytes, Map, find, contains, nat_eq,
  length,
}
use nycu_intro_np.Throughput.{Server, at, at_most, header_size, max_data_line, Event, readable}

-- A read from a connection of the second socket that has a size of segments above a header's, and that something
-- came from.
abbrev pub IsData : Server → ℕ × Bytes → Type 0
IsData s (fd, got) =
    (find fd s.mapping ≡ some s.sinkfd)
    × (header_size < at fd s.mss)
    × (contains fd s.mss ≡ true)
    × (0 < length got)
    × (length got ≤ max_data_line)

-- The bytes that the reads take: of what came, the part that is within the size of a segment less its header.
unfoldable pub payload : Map ℕ ℕ → List (ℕ × Bytes) → ℕ
payload sizes [] = 0
payload sizes ((fd, got) ∷ reads) =
    at_most (at fd sizes - header_size) (length got) + payload sizes reads

-- What the server counts: 66 for each read, and the bytes that it takes.
unfoldable pub total : Map ℕ ℕ → List (ℕ × Bytes) → ℕ
total sizes reads = 66 * length reads + payload sizes reads

abbrev pub read_event : ℕ × Bytes → Event
read_event (fd, got) = readable fd got

abbrev pub counting : Server → ℕ → Server
counting s n = record s { recv_size = s.recv_size + n }
