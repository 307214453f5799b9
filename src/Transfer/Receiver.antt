-- ===== src/Transfer/Receiver.antt =====
-- The server's state: the loop of `main` and the buffer of `save_to_file` in server.cpp.
pub mod Counted
pub mod Genuine
pub mod Finish
use mathlib.Core.Path.{fun_ext}
use nycu_intro_np.Prelude.{
  read_from, length, Bool-cases, inl, inr, ◌⊎◌, arith, find-emplace, ℕ, zero, suc, ◌+◌, ◌-◌, ◌*◌,
  ◌/◌, ◌%◌, ◌^◌, ◌<◌, ◌≤◌, ◌≡◌, refl, sym, ap, ◌∙◌, subst, List, [], ◌∷◌, Bytes, Option, none, some,
  Bool, true, false, not, ◌&&◌, ◌||◌, ◌==◌, ltb, if◌then◌else◌, Map, find, contains, emplace,
  nat_eq,
}
use nycu_intro_np.Transfer.Archive.{le32, File, unpack}
use nycu_intro_np.Transfer.Pieces.{join}
use nycu_intro_np.Transfer.Packets.{data_size, Packet}

abbrev pub and_then {ℓ κ} : {A : Type ℓ} {B : Type κ} → Option A → (A → Option B) → Option B
and_then none f = none
and_then (some a) f = f a

abbrev pub uint_max : ℕ
uint_max = 4294967295

-- `recvbit` is a bit set, here the function of the index.
pub record Receiver : Type 0 where
  pub comp_size : ℕ
  pub recv_size : ℕ
  pub data_map : Map ℕ Bytes
  pub recvbit : ℕ → Bool

abbrev pub start : Receiver
start = record { comp_size = uint_max; recv_size = 0; data_map = []; recvbit = λ _. false }

unfoldable pub receiving : Receiver → Bool
receiving s = (s.comp_size == uint_max) || ltb s.recv_size s.comp_size

-- The low word of `data_size` in the packet 0; a packet has 1168 bytes of payload.
unfoldable pub size_of : Bytes → ℕ
size_of (a ∷ b ∷ c ∷ d ∷ rest) = le32 a b c d
size_of _ = 0

unfoldable pub set_bit : (ℕ → Bool) → ℕ → ℕ → Bool
set_bit bits n = λ k. if k == n then true else bits k

unfoldable pub store_packet : Packet → Receiver → Receiver
store_packet p s =
    if p.data_seq == 0
    then record s { comp_size = size_of p.payload }
    else if contains p.data_seq s.data_map
    then s
    else record s {
      data_map = emplace p.data_seq p.payload s.data_map;
      recv_size = (s.recv_size + data_size) % 2 ^ 32;
    }

-- The state behind a packet whose bit lies in the set.
unfoldable pub received : Packet → Receiver → Receiver
received p s = store_packet p (record s { recvbit = set_bit s.recvbit p.data_seq })

-- One round of the loop. `none` where the bit lies outside the set, which is undefined behaviour.
unfoldable pub receive : Packet → Receiver → Option Receiver
receive p s = if ltb p.data_seq (data_size * 8) then some (received p s) else none

-- The rounds of the loop over the packets that arrive, until it ends; the answers go out between
-- them and change nothing here.
unfoldable pub run : List Packet → Receiver → Option Receiver
run [] s = some s
run (p ∷ ps) s = let next = and_then (receive p s) (run ps) in if receiving s then next else some s

-- The size of the buffer that the pieces are put together in; the subtraction is one of 32 bits.
unfoldable pub capacity : ℕ → ℕ
capacity comp_size = (1 + (comp_size + 2 ^ 32 - 1) % 2 ^ 32 / data_size) * data_size

-- What is handed to the decompressor.
unfoldable pub comp_data : Receiver → Option Bytes
comp_data s =
    and_then (join data_size (capacity s.comp_size) s.data_map (λ _. none))
      (read_from s.comp_size 0)

-- The files that are written. The decompressor is an argument; `none` is a text that it rejects.
unfoldable pub save_to_file : (Bytes → Option Bytes) → Receiver → Option (List File)
save_to_file decompress s = and_then (and_then (comp_data s) decompress) unpack
