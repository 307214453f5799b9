-- ===== src/Transfer/Receiver/Counted.antt =====
-- What a round of the server's loop keeps, and packets that come twice.
use mathlib.Core.Path.{fun_ext}
use nycu_intro_np.Prelude.{
  length, lt→ltb, Bool-cases, inl, inr, arith, ℕ, suc, ◌+◌, ◌*◌, ◌%◌, ◌^◌, ◌<◌, ◌≡◌, refl, sym, ap,
  ◌∙◌, subst, Bytes, some, Bool, true, false, ◌==◌, ltb, Map, contains, emplace, nat_eq,
}
use nycu_intro_np.Transfer.Packets.{data_size, Packet}
use nycu_intro_np.Transfer.Receiver.{Receiver, size_of, set_bit, store_packet, received, receive}

set_bit_again : (bits : ℕ → Bool) (n : ℕ) → set_bit (set_bit bits n) n ≡ set_bit bits n
unfolding set_bit
set_bit_again bits n = fun_ext (λ k. ground arith)

-- The count of bytes that belongs to what was stored.
abbrev pub IsCounted : Receiver → Type 0
IsCounted s = s.recv_size ≡ length s.data_map * data_size % 2 ^ 32

pub length-emplace :
    (k : ℕ) (v : Bytes) (m : Map ℕ Bytes)
    → contains k m ≡ false
    → length (emplace k v m) ≡ suc (length m)
unfolding emplace
length-emplace k v m h = rw h refl

pub contains-emplace_self :
    (k : ℕ) (v : Bytes) (m : Map ℕ Bytes) → contains k m ≡ false → contains k (emplace k v m) ≡ true
unfolding emplace contains
contains-emplace_self k v m h = rw h (ground arith)

pub store_packet_zero :
    (p : Packet) (s : Receiver)
    → (p.data_seq == 0) ≡ true
    → store_packet p s ≡ record s { comp_size = size_of p.payload }
unfolding store_packet
store_packet_zero p s h = rw h refl

pub store_packet_known :
    (p : Packet) (s : Receiver)
    → (p.data_seq == 0) ≡ false
    → contains p.data_seq s.data_map ≡ true
    → store_packet p s ≡ s
unfolding store_packet
store_packet_known p s h there = rw (h, there) refl

pub store_packet_new :
    (p : Packet) (s : Receiver)
    → (p.data_seq == 0) ≡ false
    → contains p.data_seq s.data_map ≡ false
    → store_packet p s ≡ record s {
      data_map = emplace p.data_seq p.payload s.data_map;
      recv_size = (s.recv_size + data_size) % 2 ^ 32;
    }
unfolding store_packet
store_packet_new p s h new = rw (h, new) refl

pub store_packet-IsCounted :
    (p : Packet) (s : Receiver) → IsCounted s → IsCounted (store_packet p s)
store_packet-IsCounted p s h = elim (Bool-cases (p.data_seq == 0)) [
  | inl zero_seq ↦ subst IsCounted (sym (store_packet_zero p s zero_seq)) h
  | inr piece ↦ elim (Bool-cases (contains p.data_seq s.data_map)) [
    | inl there ↦ subst IsCounted (sym (store_packet_known p s piece there)) h
    | inr new ↦
        subst IsCounted (sym (store_packet_new p s piece new))
          (omega (arith, h, length-emplace p.data_seq p.payload s.data_map new))
  ]
]

store_packet_again :
    (p : Packet) (s : Receiver) → store_packet p (store_packet p s) ≡ store_packet p s
store_packet_again p s = elim (Bool-cases (p.data_seq == 0)) [
  | inl zero_seq ↦
      ap (store_packet p) (store_packet_zero p s zero_seq)
      ∙ store_packet_zero p (record s { comp_size = size_of p.payload }) zero_seq
      ∙ sym (store_packet_zero p s zero_seq)
  | inr piece ↦ elim (Bool-cases (contains p.data_seq s.data_map)) [
    | inl there ↦ ap (store_packet p) (store_packet_known p s piece there)
    | inr new ↦
        let e = store_packet_new p s piece new in
        ap (store_packet p) e
        ∙ store_packet_known p
            (record s {
              data_map = emplace p.data_seq p.payload s.data_map;
              recv_size = (s.recv_size + data_size) % 2 ^ 32;
            })
            piece (contains-emplace_self p.data_seq p.payload s.data_map new)
        ∙ sym e
  ]
]

pub store_packet-recvbit : (p : Packet) (s : Receiver) → (store_packet p s).recvbit ≡ s.recvbit
store_packet-recvbit p s = elim (Bool-cases (p.data_seq == 0)) [
  | inl zero_seq ↦ ap (λ t. t.recvbit) (store_packet_zero p s zero_seq)
  | inr piece ↦ elim (Bool-cases (contains p.data_seq s.data_map)) [
    | inl there ↦ ap (λ t. t.recvbit) (store_packet_known p s piece there)
    | inr new ↦ ap (λ t. t.recvbit) (store_packet_new p s piece new)
  ]
]

received_again : (p : Packet) (s : Receiver) → received p (received p s) ≡ received p s
unfolding received
received_again p s =
    let u = record s { recvbit = set_bit s.recvbit p.data_seq } in
    let bit = store_packet-recvbit p u in
    let same : set_bit (store_packet p u).recvbit p.data_seq ≡ (store_packet p u).recvbit =
      ap (λ b. set_bit b p.data_seq) bit ∙ set_bit_again s.recvbit p.data_seq ∙ sym bit in
    ap (λ b. store_packet p (record (store_packet p u) { recvbit = b })) same
    ∙ store_packet_again p u

pub receive_inside :
    (p : Packet) (s : Receiver)
    → ltb p.data_seq (data_size * 8) ≡ true
    → receive p s ≡ some (received p s)
unfolding receive
receive_inside p s h = rw h refl

-- A packet within the bit set is taken, and the same packet once more changes nothing: of packets that
-- come twice only the first counts.
pub receive_twice :
    (p : Packet) (s : Receiver)
    → p.data_seq < data_size * 8
    → (t : Receiver) × (receive p s ≡ some t) × (receive p t ≡ some t)
receive_twice p s h =
    let inside = lt→ltb p.data_seq (data_size * 8) h in
    (
      received p s,
      receive_inside p s inside,
      receive_inside p (received p s) inside ∙ ap some (received_again p s),
    )

-- A packet within the bit set is taken, and the count of received bytes stays that of the pieces
-- stored, modulo 2 ^ 32.
pub receive-IsCounted :
    (p : Packet) (s : Receiver)
    → p.data_seq < data_size * 8
    → IsCounted s
    → (t : Receiver) × (receive p s ≡ some t) × IsCounted t
unfolding received
receive-IsCounted p s h counted = (
  received p s,
  receive_inside p s (lt→ltb p.data_seq (data_size * 8) h),
  store_packet-IsCounted p (record s { recvbit = set_bit s.recvbit p.data_seq }) counted,
)
