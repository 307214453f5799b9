-- ===== src/Transfer/Receiver/Genuine.antt =====
-- What the server holds when only packets of one client reach it, in any order, some more than once
-- and some never.
use nycu_intro_np.Prelude.{
  Distinct, ℕ, suc, ◌*◌, ◌^◌, ◌<◌, ◌≡◌, refl, sym, subst, ◌∷◌, Bytes, Map, contains, emplace,
  nat_eq, length, Bool, true, false, ◌==◌, All, Bool-cases, inl, inr, ◌⊎◌, arith,
}
use nycu_intro_np.Transfer.Archive.{put_le32, le32_lem}
use nycu_intro_np.Transfer.Packets.{data_size, Packet, wrap_send, put_size}
use nycu_intro_np.Transfer.Pieces.{pad}
use nycu_intro_np.Transfer.Pieces.Join.{piece, IsPadded}
use nycu_intro_np.Transfer.Receiver.{Receiver, uint_max, size_of, set_bit, received, start}
use nycu_intro_np.Transfer.Receiver.Counted.{
  IsCounted, store_packet_zero, store_packet_known, store_packet_new, store_packet-IsCounted,
  contains-emplace_self,
}

-- A packet of the client that sends `comp`: the first one or that of a piece.
abbrev pub IsSent : Bytes → Packet → Type 0
IsSent comp p =
    (p ≡ wrap_send 0 (put_size (length comp)))
    ⊎ ((i : ℕ) × (i * data_size < length comp) × (p ≡ wrap_send (suc i) (piece data_size comp i)))

-- The map has different pieces of `comp`, the count is theirs, the size is not known or right, and
-- what is acknowledged is there.
pub record IsGenuine (comp : Bytes) (s : Receiver) : Type 0 where
  pub padded : All (IsPadded data_size comp) s.data_map
  pub distinct : Distinct s.data_map
  pub counted : IsCounted s
  pub sized : (s.comp_size ≡ uint_max) ⊎ (s.comp_size ≡ length comp)
  pub first : s.recvbit 0 ≡ true → s.comp_size ≡ length comp
  pub marked : (i : ℕ) → s.recvbit (suc i) ≡ true → contains (suc i) s.data_map ≡ true

pub start-IsGenuine : (comp : Bytes) → IsGenuine comp start
start-IsGenuine comp = record {
  padded = tt;
  distinct = tt;
  counted = refl;
  sized = inl refl;
  first = λ h. absurd (cc);
  marked = λ i h. absurd (cc);
}

size_of-put_size : (n : ℕ) → n < 2 ^ 32 → size_of (pad data_size (put_size n)) ≡ n
unfolding size_of pad put_size put_le32
size_of-put_size n h = le32_lem n h

contains-emplace_more :
    (k j : ℕ) (v : Bytes) (m : Map ℕ Bytes)
    → contains j m ≡ true
    → contains j (emplace k v m) ≡ true
unfolding contains emplace
contains-emplace_more k j v m h = ground arith

-- The bit that a packet sets is its own.
set_bit-true : (bits : ℕ → Bool) (n k : ℕ) → set_bit bits n k ≡ true → (k ≡ n) ⊎ (bits k ≡ true)
unfolding set_bit
set_bit-true bits n k h = ground arith

emplace_new :
    (k : ℕ) (v : Bytes) (m : Map ℕ Bytes) → contains k m ≡ false → emplace k v m ≡ (k, v) ∷ m
unfolding emplace
emplace_new k v m h = rw h refl

later : (i : ℕ) → (suc i == 0) ≡ false
later i = ground arith

module _ (comp : Bytes) (small : length comp < 2 ^ 32) where
  first-IsGenuine :
      (s : Receiver)
      → IsGenuine comp s
      → IsGenuine comp (received (wrap_send 0 (put_size (length comp))) s)
  unfolding received wrap_send
  first-IsGenuine s g =
      let p = wrap_send 0 (put_size (length comp)) in
      let size = size_of-put_size (length comp) small in
      subst (IsGenuine comp)
        (sym (store_packet_zero p (record s { recvbit = set_bit s.recvbit 0 }) refl))
        (record {
          padded = g.padded;
          distinct = g.distinct;
          counted = g.counted;
          sized = inr size;
          first = λ h. size;
          marked = λ i h. elim (set_bit-true s.recvbit 0 (suc i) h) [
            | inl e ↦ absurd (omega arith)
            | inr old ↦ g.marked i old
          ];
        })

  -- A piece that is there already, and one that is new.
  piece-IsGenuine :
      (i : ℕ) (s : Receiver)
      → i * data_size < length comp
      → IsGenuine comp s
      → IsGenuine comp (received (wrap_send (suc i) (piece data_size comp i)) s)
  unfolding received wrap_send
  piece-IsGenuine i s lt g =
      let p = wrap_send (suc i) (piece data_size comp i) in
      let u = record s { recvbit = set_bit s.recvbit (suc i) } in
      let v = pad data_size (piece data_size comp i) in
      let first : set_bit s.recvbit (suc i) 0 ≡ true → s.comp_size ≡ length comp = λ h.
        elim (set_bit-true s.recvbit (suc i) 0 h) [
          | inl e ↦ absurd (omega arith)
          | inr old ↦ g.first old
        ] in
      elim (Bool-cases (contains (suc i) s.data_map)) [
        | inl there ↦
            subst (IsGenuine comp) (sym (store_packet_known p u (later i) there)) (record {
              padded = g.padded;
              distinct = g.distinct;
              counted = g.counted;
              sized = g.sized;
              first = first;
              marked = λ k h. elim (set_bit-true s.recvbit (suc i) (suc k) h) [
                | inl e ↦ subst (λ n. contains n s.data_map ≡ true) (sym e) there
                | inr old ↦ g.marked k old
              ];
            })
        | inr new ↦
            let e = store_packet_new p u (later i) new in
            let m = emplace_new (suc i) v s.data_map new in
            subst (IsGenuine comp) (sym e) (record {
              padded =
                  subst (All (IsPadded data_size comp)) (sym m) ((i, refl, lt, refl), g.padded);
              distinct = subst Distinct (sym m) (new, g.distinct);
              counted = subst IsCounted e (store_packet-IsCounted p u g.counted);
              sized = g.sized;
              first = first;
              marked = λ k h. elim (set_bit-true s.recvbit (suc i) (suc k) h) [
                | inl same ↦
                    subst (λ n. contains n (emplace (suc i) v s.data_map) ≡ true) (sym same)
                      (contains-emplace_self (suc i) v s.data_map new)
                | inr old ↦ contains-emplace_more (suc i) (suc k) v s.data_map (g.marked k old)
              ];
            })
      ]

  pub received-IsGenuine :
      (p : Packet) (s : Receiver) → IsSent comp p → IsGenuine comp s → IsGenuine comp (received p s)
  received-IsGenuine p s (inl e) g =
      subst (λ q. IsGenuine comp (received q s)) (sym e) (first-IsGenuine s g)
  received-IsGenuine p s (inr (i, lt, e)) g =
      subst (λ q. IsGenuine comp (received q s)) (sym e) (piece-IsGenuine i s lt g)
