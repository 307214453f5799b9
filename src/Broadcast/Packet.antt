-- ===== src/Broadcast/Packet.antt =====
-- The packets and their two checksums: utils.hpp.
pub mod Detects
pub mod Sums
use Prim.Native.Nat.{bit_or}
use nycu_intro_np.Prelude.{
  ℕ, zero, suc, ◌+◌, ◌-◌, ◌*◌, ◌/◌, ◌%◌, ◌^◌, [], ◌∷◌, ◌++◌, Bytes, bit_xor, Bool, ltb,
  if◌then◌else◌,
}

abbrev pub mod_adler : ℕ
mod_adler = 1000000007

-- PACKET_SIZE less HEADER_SIZE and two words of 32 bits.
abbrev pub data_size : ℕ
data_size = 1464

-- The fields of `pkt_t` that `send` does not always set alike: those of `ip_hdr`, and the rest.
pub record Packet : Type 0 where
  pub ip_sum : ℕ
  pub ip_dst : Bytes
  pub sess_seq : ℕ
  pub check : ℕ
  pub payload : Bytes

-- The loop of `adler32`; no sum reaches 2 ^ 32.
unfoldable pub adler_loop : ℕ → ℕ → Bytes → ℕ × ℕ
adler_loop a b [] = (a, b)
adler_loop a b (x ∷ bytes) =
    let a' = (a + x) % mod_adler in adler_loop a' ((b + a') % mod_adler) bytes

-- `(b << 16) | a` in 32 bits, where a may have more than 16.
unfoldable pub join_words : ℕ × ℕ → ℕ
join_words (a, b) = bit_or (b * 2 ^ 16 % 2 ^ 32) a

unfoldable pub adler32 : Bytes → ℕ
adler32 bytes = join_words (adler_loop 1 0 bytes)

unfoldable pub checksum : Packet → ℕ
checksum p = bit_xor (adler32 p.payload) p.sess_seq

-- The loop of `cksum` over the words of 16 bits, as memory has them, and the byte left.
unfoldable pub add_words : Bytes → ℕ
add_words [] = 0
add_words (a ∷ []) = a
add_words (a ∷ b ∷ bytes) = a + 256 * b + add_words bytes

-- The carries are added until none is left; a round takes one unit of fuel.
unfoldable pub fold : ℕ → ℕ → ℕ
fold zero sum = sum
fold (suc fuel) sum =
    let rest = fold fuel (sum % 2 ^ 16 + sum / 2 ^ 16) in if ltb 0 (sum / 2 ^ 16) then rest else sum

unfoldable pub cksum : Bytes → ℕ
cksum bytes = 65535 - fold (add_words bytes) (add_words bytes)

-- The header of 20 bytes as `send` has it: version and length, type of service, the packet's size,
-- identifier, offset, TTL_OUT, IPPROTO_XDP, the sum, and the destination as both addresses.
unfoldable pub ip_hdr : Packet → Bytes
ip_hdr p =
    (69 ∷ 0 ∷ 5 ∷ 212 ∷ 0 ∷ 0 ∷ 0 ∷ 0 ∷ 64 ∷ 153 ∷ [])
    ++ (p.ip_sum % 256 ∷ p.ip_sum / 256 % 256 ∷ [])
    ++ p.ip_dst
    ++ p.ip_dst

-- The sum is computed with the field as the caller has it.
unfoldable pub send : Bytes → Packet → Packet
send dst p =
    let q = record p { check = checksum p; ip_dst = dst } in record q { ip_sum = cksum (ip_hdr q) }
