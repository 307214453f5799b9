-- ===== src/Broadcast/Loop.antt =====
-- The loops of server.cpp and client.cpp.
pub mod Damage
pub mod InOrder
pub mod Whole
use nycu_intro_np.Prelude.{
  ℕ, suc, ◌+◌, ◌*◌, ◌%◌, ◌^◌, List, [], ◌∷◌, Bytes, Map, Option, none, some, Bool, true, false, not,
  ◌&&◌, ◌||◌, ◌==◌, ltb, if◌then◌else◌, length, map, keep, contains, emplace, nat_eq, read_from,
}
use nycu_intro_np.Transfer.Archive.{File, unpack}
use nycu_intro_np.Transfer.Pieces.{pad, pieces, join}
use nycu_intro_np.Transfer.Packets.{put_size}
use nycu_intro_np.Transfer.Receiver.{and_then, uint_max, size_of, set_bit}
use nycu_intro_np.Broadcast.Packet.{Packet, data_size, checksum, send}

-- The server's variables; `recvbit` is a bit set, here the function of the index.
pub record Server : Type 0 where
  pub orig_size : ℕ
  pub recv_size : ℕ
  pub data_map : Map ℕ Bytes
  pub recvbit : ℕ → Bool

abbrev pub start : Server
start = record { orig_size = uint_max; recv_size = 0; data_map = []; recvbit = λ _. false }

unfoldable pub receiving : Server → Bool
receiving s = (s.orig_size == uint_max) || ltb s.recv_size s.orig_size

unfoldable pub store_packet : Packet → Server → Server
store_packet p s =
    if p.sess_seq == 0
    then (if s.orig_size == uint_max then record s { orig_size = size_of p.payload } else s)
    else if contains p.sess_seq s.data_map
    then s
    else record s {
      data_map = emplace p.sess_seq p.payload s.data_map;
      recv_size = (s.recv_size + data_size) % 2 ^ 32;
    }

unfoldable pub received : Packet → Server → Server
received p s = store_packet p (record s { recvbit = set_bit s.recvbit p.sess_seq })

-- A round with what `recv_pkt` holds, also where `recvfrom` timed out and left the packet before in
-- it. `none` where the bit lies outside the set, which is undefined behaviour.
unfoldable pub receive : Packet → Server → Option Server
receive p s =
    if not (checksum p == p.check)
    then some s
    else if ltb p.sess_seq (data_size * 8)
    then some (received p s)
    else none

-- The rounds of the loop, until it ends.
unfoldable pub run : List Packet → Server → Option Server
run [] s = some s
run (p ∷ ps) s = let next = and_then (receive p s) (run ps) in if receiving s then next else some s

-- What is put together behind the loop: `none` where a piece is written past the end of
-- `orig_data`, or a byte of it was never written.
unfoldable pub orig_data : Server → Option Bytes
orig_data s = and_then (join data_size s.orig_size s.data_map (λ _. none)) (read_from s.orig_size 0)

-- The files that are written.
unfoldable pub save_files : Server → Option (List File)
save_files s = and_then (orig_data s) unpack

-- The client's map of what is to be sent, and a packet for an entry of it.
unfoldable pub to_send : Bytes → Map ℕ Bytes
to_send orig = (0, put_size (length orig)) ∷ pieces data_size (length orig) 1 orig

unfoldable pub packet : Bytes → ℕ × Bytes → Packet
packet dst (key, data') = send dst (record {
  ip_sum = 0;
  ip_dst = 0 ∷ 0 ∷ 0 ∷ 0 ∷ [];
  sess_seq = key;
  check = 0;
  payload = pad data_size data';
})

-- A round of the client, by the bits that the last answer has.
unfoldable pub send_round : Bytes → (ℕ → Bool) → Map ℕ Bytes → List Packet
send_round dst donebit m = map (packet dst) (keep (λ entry. not (donebit entry.0)) m)

unfoldable pub erase_done : (ℕ → Bool) → Map ℕ Bytes → Map ℕ Bytes
erase_done donebit m = keep (λ entry. not (ltb entry.0 (data_size * 8) && donebit entry.0)) m

-- `read_resps`: the last answer that arrived whole counts; `none` where the client exits.
unfoldable pub read_resps : List Packet → Packet → Option Packet
read_resps [] s_res = some s_res
read_resps (res ∷ rest) s_res =
    let later = read_resps rest res in
    let same = read_resps rest s_res in
    if not (checksum res == res.check)
    then same
    else if res.sess_seq == uint_max
    then none
    else later
