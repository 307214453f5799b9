-- ===== src/Transfer/Packets.antt =====
-- What the client sends: `wrap_send`, `data_map` and the rounds of client.cpp, header.hpp.
use nycu_intro_np.Prelude.{
  ℕ, ◌*◌, List, [], ◌∷◌, ◌++◌, map, Bytes, length, keep, not, Bool, ◌&&◌, ltb, Map, Option, none,
  some, ◌==◌, if◌then◌else◌, ◌≡◌, refl, arith,
}
use nycu_intro_np.Transfer.Archive.{put_le32}
use nycu_intro_np.Transfer.Pieces.{pad, pieces}

-- DATA_SIZE, without USE_CHECKSUM.
abbrev pub data_size : ℕ
data_size = 1168

pub record Packet : Type 0 where
  pub data_seq : ℕ
  pub payload : Bytes

-- The payload is filled up with zeros.
unfoldable pub wrap_send : ℕ → Bytes → Packet
wrap_send seq buf = record { data_seq = seq; payload = pad data_size buf }

-- `data_t` of the packet 0: two words of 64 bits, the size and no pointer.
unfoldable pub put_size : ℕ → Bytes
put_size n = put_le32 n ++ put_le32 0 ++ put_le32 0 ++ put_le32 0

-- The packets to send, by their keys.
unfoldable pub data_map : Bytes → Map ℕ Bytes
data_map comp = (0, put_size (length comp)) ∷ pieces data_size (length comp) 1 comp

-- One round: what is not acknowledged is sent. A key beyond the bit set reads the memory behind it, so
-- `donebit` is any function of the index there.
unfoldable pub send_round : (ℕ → Bool) → Map ℕ Bytes → List Packet
send_round donebit m =
    map (λ entry. wrap_send entry.0 entry.1) (keep (λ entry. not (donebit entry.0)) m)

-- What the last response acknowledges is forgotten; the bit set has 8 * DATA_SIZE bits.
unfoldable pub erase_done : (ℕ → Bool) → Map ℕ Bytes → Map ℕ Bytes
erase_done donebit m = keep (λ entry. not (ltb entry.0 (data_size * 8) && donebit entry.0)) m

-- UINT32_MAX, which says that the server has everything.
abbrev pub fin_seq : ℕ
fin_seq = 4294967295

-- `read_resps`: the last response counts; `none` where the client exits.
unfoldable pub read_resps : List Packet → Packet → Option Packet
read_resps [] s_res = some s_res
read_resps (res ∷ rest) s_res =
    let later = read_resps rest res in if res.data_seq == fin_seq then none else later

-- `do_reponse` sends a response three times.
unfoldable pub do_reponse : Packet → List Packet
do_reponse hdr = hdr ∷ hdr ∷ hdr ∷ []

-- The answer of the loop behind the last packet to whatever arrives.
unfoldable pub fin : Packet → List Packet
fin send_hdr = do_reponse (record send_hdr { data_seq = fin_seq })

-- Of the responses read in one go, the client stops at one that says that the server has everything,
-- whatever came before it and comes after it.
read_resps-fin :
    (before after : List Packet) (s : Packet) (hdr : Packet)
    → read_resps (before ++ fin hdr ++ after) s ≡ none
unfolding read_resps fin do_reponse
read_resps-fin [] after s hdr = refl
read_resps-fin (r ∷ rs) after s hdr = ground (arith, read_resps-fin rs after r hdr)
