-- ===== src/Transfer/Receiver/Finish.antt =====
-- The end of the server's loop: what it hands to the decompressor, and when it ends.
use nycu_intro_np.Prelude.{
  ℕ, suc, ◌+◌, ◌-◌, ◌*◌, ◌/◌, ◌%◌, ◌^◌, ◌≤◌, ◌<◌, ◌≡◌, ◌≢◌, refl, ap, ◌∙◌, List, [], ◌∷◌, Bytes,
  none, some, Map, contains, nat_eq, length, true, false, All, Bool-cases, inl, inr, ◌⊎◌, arith,
  lt→ltb,
}
use nycu_intro_np.Transfer.Packets.{data_size, Packet, wrap_send}
use nycu_intro_np.Transfer.Pieces.Count.{KeyIn, all_keys, length-all_keys}
use nycu_intro_np.Transfer.Pieces.Join.{IsPadded, read_from-join}
use nycu_intro_np.Transfer.Receiver.{
  Receiver, uint_max, receiving, received, receive, set_bit, run, capacity, comp_data,
}
use nycu_intro_np.Transfer.Receiver.Counted.{receive_inside, store_packet-recvbit}
use nycu_intro_np.Transfer.Receiver.Genuine.{IsGenuine, IsSent, received-IsGenuine}

-- The number of pieces.
abbrev pub piece_count : Bytes → ℕ
piece_count comp = (length comp + 1167) / 1168

keys_in :
    (comp : Bytes) (m : Map ℕ Bytes)
    → All (IsPadded data_size comp) m
    → All (KeyIn (piece_count comp)) m
keys_in comp [] h = tt
keys_in comp ((k, v) ∷ m) ((i, e, lt, w), h) = ((omega arith, omega arith), keys_in comp m h)

not_receiving :
    (s : Receiver) → receiving s ≡ false → (s.comp_size ≢ uint_max) × (s.comp_size ≤ s.recv_size)
unfolding receiving
not_receiving s h = ground arith

-- A server that has stopped receiving has the size, and every piece.
pub all_there :
    (comp : Bytes) (s : Receiver)
    → IsGenuine comp s
    → receiving s ≡ false
    → (s.comp_size ≡ length comp)
      × ((i : ℕ) → i * data_size < length comp → contains (suc i) s.data_map ≡ true)
all_there comp s g h =
    let (known, enough) = not_receiving s h in
    let size : s.comp_size ≡ length comp = elim g.sized [ inl e ↦ absurd (known e) | inr e ↦ e ] in
    let counted = g.counted in
    (
      size,
      λ i lt.
          all_keys (piece_count comp) s.data_map g.distinct (keys_in comp s.data_map g.padded)
            (omega arith) i (omega arith),
    )

-- What the server hands to the decompressor when it stops receiving is what the client cut up.
pub comp_data-IsGenuine :
    (comp : Bytes) (s : Receiver)
    → length comp < 2 ^ 32
    → IsGenuine comp s
    → receiving s ≡ false
    → comp_data s ≡ some comp
unfolding comp_data capacity
comp_data-IsGenuine comp s small g h =
    let (size, keys) = all_there comp s g h in
    let (after, ran, holds) =
      read_from-join data_size ((1 + (length comp + 2 ^ 32 - 1) % 2 ^ 32 / data_size) * data_size)
        comp s.data_map (λ _. none) (omega arith) (λ i lt. omega arith) g.distinct g.padded keys in
    rw (size, ran) holds

pub bit_kept :
    (p : Packet) (s : Receiver) (k : ℕ)
    → (s.recvbit k ≡ true) ⊎ (k ≡ p.data_seq)
    → (received p s).recvbit k ≡ true
unfolding received set_bit
bit_kept p s k h =
    let e =
      ap (λ f. f k)
        (store_packet-recvbit p (record s { recvbit = set_bit s.recvbit p.data_seq })) in
    e ∙ ground arith

sent_key :
    (comp : Bytes) (p : Packet)
    → length comp ≤ 9343 * data_size
    → IsSent comp p
    → p.data_seq < data_size * 8
unfolding wrap_send
sent_key comp p fits (inl e) = omega (arith, ap (λ q. q.data_seq) e)
sent_key comp p fits (inr (i, lt, e)) = omega (arith, ap (λ q. q.data_seq) e)

module _ (comp : Bytes) (fits : length comp ≤ 9343 * data_size) where
  pub receive-sent : (p : Packet) (s : Receiver) → IsSent comp p → receive p s ≡ some (received p s)
  receive-sent p s sent =
      receive_inside p s (lt→ltb p.data_seq (data_size * 8) (sent_key comp p fits sent))

  run_stopped : (ps : List Packet) (s : Receiver) → receiving s ≡ false → run ps s ≡ some s
  unfolding run
  run_stopped [] s h = refl
  run_stopped (p ∷ ps) s h = rw h refl

  run-cons :
      (p : Packet) (ps : List Packet) (s : Receiver)
      → IsSent comp p
      → receiving s ≡ true
      → run (p ∷ ps) s ≡ run ps (received p s)
  unfolding run
  run-cons p ps s sent h = rw (h, receive-sent p s sent) refl

  -- The loop runs on all packets of the client; if it has not ended then, it has marked them all.
  pub run-IsGenuine :
      (ps : List Packet) (s : Receiver)
      → All (IsSent comp) ps
      → IsGenuine comp s
      → (t : Receiver) × (run ps s ≡ some t)
        × IsGenuine comp t
        × ((receiving t ≡ false)
            ⊎ (((k : ℕ) → s.recvbit k ≡ true → t.recvbit k ≡ true)
                × All (λ p. t.recvbit p.data_seq ≡ true) ps))
  unfolding run
  run-IsGenuine [] s sent g = (s, refl, g, inr (λ k h. h, tt))
  run-IsGenuine (p ∷ ps) s sent g = elim (Bool-cases (receiving s)) [
    | inr stopped ↦ (s, run_stopped (p ∷ ps) s stopped, g, inl stopped)
    | inl on ↦
        let (t, ran, g', ending) =
          run-IsGenuine ps (received p s) sent.1
            (received-IsGenuine comp (omega arith) p s sent.0 g) in
        (
          t,
          run-cons p ps s sent.0 on ∙ ran,
          g',
          elim ending [
            | inl stopped ↦ inl stopped
            | inr (kept, marks) ↦ inr (
              λ k h. kept k (bit_kept p s k (inl h)),
              (kept p.data_seq (bit_kept p s p.data_seq (inr refl)), marks),
            )
          ],
        )
  ]

  -- With the size and every piece the loop ends.
  pub stops :
      (s : Receiver)
      → IsGenuine comp s
      → s.recvbit 0 ≡ true
      → ((i : ℕ) → i * data_size < length comp → s.recvbit (suc i) ≡ true)
      → receiving s ≡ false
  unfolding receiving
  stops s g first marks =
      let size = g.first first in
      let counted = g.counted in
      let full =
        length-all_keys (piece_count comp) s.data_map g.distinct (keys_in comp s.data_map g.padded)
          (λ i lt. g.marked i (marks i (omega arith))) in
      let enough : s.comp_size ≤ s.recv_size = omega arith in
      let known : s.comp_size ≢ uint_max = λ e. omega arith in ground arith
