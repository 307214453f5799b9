-- ===== src/Transfer/Pieces.antt =====
-- A buffer cut into pieces of one size, filled up with zeros, and put together again. Both file
-- transfers, Lab/8/src and Lab/10/Broadcast-XDP-File-Transfer/src, do this with a size of their own.
pub mod Count
pub mod Join
use nycu_intro_np.Prelude.{
  Buffer, copy, ℕ, zero, suc, ◌+◌, ◌-◌, ◌*◌, ◌≤◌, ◌<◌, ◌≡◌, List, [], ◌∷◌, ◌++◌, Bytes, Option,
  none, some, length, take, drop, replicate, Map, Bool, ◌&&◌, leb, ltb, if◌then◌else◌,
}

-- `bzero` and `memcpy` into the payload of a packet.
unfoldable pub pad : ℕ → Bytes → Bytes
pad size buf = buf ++ replicate (size - length buf) 0

-- The pieces from the key `seq` on. Each takes one unit of fuel and a byte or more.
unfoldable pub pieces : ℕ → ℕ → ℕ → Bytes → Map ℕ Bytes
pieces size fuel seq [] = []
pieces size zero seq (x ∷ xs) = []
pieces size (suc fuel) seq (x ∷ xs) =
    (seq, take size (x ∷ xs)) ∷ pieces size fuel (suc seq) (drop size (x ∷ xs))

-- The loop over the pieces that came, `none` where one is written past the end of the buffer.
unfoldable pub join : ℕ → ℕ → Map ℕ Bytes → Buffer → Option Buffer
join size capacity [] buf = some buf
join size capacity ((zero, frag) ∷ m) buf = join size capacity m buf
join size capacity ((suc k, frag) ∷ m) buf =
    let rest = join size capacity m (copy size buf (k * size) frag) in
    if leb (k * size + size) capacity then rest else none
