-- ===== src/Broadcast/Loop/Whole.antt =====
-- The buffer that server.cpp puts the pieces together in.
use nycu_intro_np.Prelude.{
  ℕ, zero, suc, ◌+◌, ◌*◌, ◌%◌, ◌≤◌, ◌<◌, ◌≡◌, refl, ap, ◌∙◌, List, [], ◌∷◌, Bytes, Map, Buffer,
  copy, none, some, true, false, ◌==◌, ==_iff, length, map, keep, not, contains, nat_eq, arith,
  Bool-cases, inl, inr, if◌then◌else◌,
}
use nycu_intro_np.Transfer.Pieces.{pieces, join}
use nycu_intro_np.Transfer.Pieces.Join.{read_from-join, drop_start}
use nycu_intro_np.Transfer.Packets.{put_size}
use nycu_intro_np.Broadcast.Packet.{data_size}
use nycu_intro_np.Broadcast.Loop.{
  Server, start, receiving, received, run, orig_data, to_send, packet, send_round,
}
use nycu_intro_np.Broadcast.Loop.InOrder.{
  HasPieces, run-packet, run-pieces, start-HasPieces, receiving-HasPieces, ltb_over, run_nil,
}

join_past_end :
    (size capacity j : ℕ) (m : Map ℕ Bytes) (buf : Buffer)
    → contains (suc j) m ≡ true
    → capacity < j * size + size
    → join size capacity m buf ≡ none
unfolding join contains
join_past_end size capacity j [] buf h past = absurd (cc)
join_past_end size capacity j ((zero, frag) ∷ m) buf h past =
    join_past_end size capacity j m buf (ground (arith, h)) past
join_past_end size capacity j ((suc k, frag) ∷ m) buf h past = elim (Bool-cases (suc k == suc j)) [
  | inl same ↦
      let e = (==_iff (suc k) (suc j)).0 same in
      let e' : k ≡ j = omega arith in let off = ap (λ n. n * size) e' in ground arith
  | inr other ↦
      let ih =
        join_past_end size capacity j m (copy size buf (k * size) frag) (simp other at h) past in
      rw ih (ground arith)
]

keep-all {ℓ} : {A : Type ℓ} (xs : List A) → keep (λ _. not false) xs ≡ xs
keep-all [] = refl
keep-all (x ∷ xs) = ap (◌∷◌ x) (keep-all xs)

-- The buffer has no room behind the last byte for the rest of a piece that is not whole.
orig_data_past_end :
    (orig : Bytes) (t : Server) (n : ℕ)
    → HasPieces orig n t
    → length orig ≤ n * data_size
    → 0 < length orig % data_size
    → orig_data t ≡ none
unfolding orig_data
orig_data_past_end orig t zero h all odd = absurd (omega arith)
orig_data_past_end orig t (suc j) h all odd =
    let size = h.sized in
    rw
      (join_past_end data_size t.orig_size j t.data_map (λ _. none) (h.present j (omega arith))
        (omega arith))
      refl

orig_data_whole :
    (orig : Bytes) (t : Server) (n : ℕ)
    → HasPieces orig n t
    → length orig ≤ n * data_size
    → length orig % data_size ≡ 0
    → orig_data t ≡ some orig
unfolding orig_data
orig_data_whole orig t n h all whole =
    let (after, ran, holds) =
      read_from-join data_size (length orig) orig t.data_map (λ _. none) (omega arith)
        (λ i lt. omega arith) h.distinct h.padded (λ i lt. h.present i (omega arith)) in
    rw (h.sized, ran) holds

first_round :
    (dst orig : Bytes)
    → length orig ≤ 11711 * data_size
    → (t : Server) × (run (send_round dst (λ _. false) (to_send orig)) start ≡ some t)
      × (receiving t ≡ false)
      × (n : ℕ) × HasPieces orig n t
      × (length orig ≤ n * data_size)
unfolding send_round to_send receiving pieces
first_round dst [] fits =
    let e : ℕ × Bytes = (0, put_size 0) in
    let s = received (packet dst e) start in
    let h : HasPieces [] 0 s = start-HasPieces dst [] (omega arith) in
    (
      s,
      run-packet dst e [] start refl (omega arith) ∙ run_nil s,
      receiving-HasPieces [] 0 s fits h ∙ ltb_over (0 * data_size) 0 (omega arith),
      0,
      h,
      omega arith,
    )
first_round dst (x ∷ xs) fits =
    let total = length (x ∷ xs) in
    let e : ℕ × Bytes = (0, put_size total) in
    let s = received (packet dst e) start in
    let h : HasPieces (x ∷ xs) 0 s = start-HasPieces dst (x ∷ xs) (omega arith) in
    let (t, ran, over, n, got, all) =
      run-pieces dst (x ∷ xs) total 0 x xs s (omega arith) (drop_start data_size (x ∷ xs)) fits h in
    let all_sent = ap (map (packet dst)) (keep-all (pieces data_size total 1 (x ∷ xs))) in
    (
      t,
      ap (λ ps. run (packet dst e ∷ ps) start) all_sent
          ∙ run-packet dst e _ start refl (omega arith)
          ∙ ran,
      over,
      n,
      got,
      all,
    )

-- A server that gets the first round of a client in order ends its loop. If all pieces are whole ones
-- it then has the bytes that the client sends; if not, it writes the last piece past the end of its
-- buffer. The bytes are at most those whose pieces have a bit.
pub orig_data_lem :
    (dst orig : Bytes)
    → length orig ≤ 11711 * data_size
    → (t : Server) × (run (send_round dst (λ _. false) (to_send orig)) start ≡ some t)
      × (receiving t ≡ false)
      × (orig_data t ≡ (if length orig % data_size == 0 then some orig else none))
orig_data_lem dst orig fits =
    let (t, ran, over, n, h, all) = first_round dst orig fits in
    (
      t,
      ran,
      over,
      elim (Bool-cases (length orig % data_size == 0)) [
        | inl whole ↦
            simp whole
              (orig_data_whole orig t n h all ((==_iff (length orig % data_size) 0).0 whole))
        | inr odd ↦ simp odd (orig_data_past_end orig t n h all (ground (arith, odd)))
      ],
    )
