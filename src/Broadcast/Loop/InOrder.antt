-- ===== src/Broadcast/Loop/InOrder.antt =====
-- A server of Lab/10 that gets the pieces of a client in order: the loop of server.cpp.
use nycu_intro_np.Prelude.{
  ℕ, zero, suc, ◌+◌, ◌*◌, ◌%◌, ◌^◌, ◌≤◌, ◌<◌, ◌≡◌, refl, sym, ap, ◌∙◌, List, [], ◌∷◌, Bytes, some,
  true, false, ◌==◌, ==_iff, ltb, lt→ltb, length, length-drop, map, contains, emplace, Distinct,
  nat_eq, arith, Bool-cases, inl, inr, ◌⊎◌, drop, take, subst, All,
}
use nycu_intro_np.Transfer.Archive.{le32_lem, put_le32}
use nycu_intro_np.Transfer.Pieces.{pad, pieces}
use nycu_intro_np.Transfer.Pieces.Join.{IsPadded, piece, drop_next}
use nycu_intro_np.Transfer.Packets.{put_size}
use nycu_intro_np.Transfer.Receiver.{size_of}
use nycu_intro_np.Broadcast.Packet.{Packet, data_size, checksum, send}
use nycu_intro_np.Broadcast.Loop.{
  Server, start, receiving, store_packet, received, receive, run, packet,
}
use nycu_intro_np.Broadcast.Loop.Damage.{send-check}

run_step :
    (p : Packet) (ps : List Packet) (s t : Server)
    → receiving s ≡ true
    → receive p s ≡ some t
    → run (p ∷ ps) s ≡ run ps t
unfolding run
run_step p ps s t more h = rw (more, h) refl

pub run_nil : (s : Server) → run [] s ≡ some s
unfolding run
run_nil s = refl

receive_whole :
    (p : Packet) (s : Server)
    → checksum p ≡ p.check
    → p.sess_seq < data_size * 8
    → receive p s ≡ some (received p s)
unfolding receive
receive_whole p s h lt =
    let passes = (==_iff (checksum p) p.check).1 h in
    let inside : ltb p.sess_seq (data_size * 8) ≡ true = ground arith in rw (passes, inside) refl

pub run-packet :
    (dst : Bytes) (e : ℕ × Bytes) (ps : List Packet) (s : Server)
    → receiving s ≡ true
    → e.0 < data_size * 8
    → run (packet dst e ∷ ps) s ≡ run ps (received (packet dst e) s)
unfolding packet
run-packet dst (key, bytes) ps s more lt =
    run_step (packet dst (key, bytes)) ps s _ more
      (receive_whole (packet dst (key, bytes)) s (send-check dst _) (unfold send in lt))

-- The server in the midst of a transfer of some bytes in order, with k pieces.
pub record HasPieces (orig : Bytes) (k : ℕ) (s : Server) : Type 0 where
  pub sized : s.orig_size ≡ length orig
  pub counted : s.recv_size ≡ k * data_size
  pub keys : (j : ℕ) → contains j s.data_map ≡ true → j ≤ k
  pub present : (i : ℕ) → i < k → contains (suc i) s.data_map ≡ true
  pub distinct : Distinct s.data_map
  pub padded : All (IsPadded data_size orig) s.data_map

store_packet_new :
    (p : Packet) (s : Server)
    → (p.sess_seq == 0) ≡ false
    → contains p.sess_seq s.data_map ≡ false
    → store_packet p s ≡ record s {
      data_map = (p.sess_seq, p.payload) ∷ s.data_map;
      recv_size = (s.recv_size + data_size) % 2 ^ 32;
    }
unfolding store_packet emplace
store_packet_new p s h new = rw (h, new) refl

HasPieces-next :
    (p : Packet) (orig : Bytes) (k : ℕ) (s : Server)
    → length orig ≤ 11711 * data_size
    → k * data_size < length orig
    → p.sess_seq ≡ suc k
    → p.payload ≡ pad data_size (piece data_size orig k)
    → HasPieces orig k s
    → HasPieces orig (suc k) (received p s)
unfolding received contains
HasPieces-next p orig k s fits more seq content h =
    let new : contains p.sess_seq s.data_map ≡ false =
      elim (Bool-cases (contains p.sess_seq s.data_map)) [
        | inl there ↦ absurd (let le = h.keys p.sess_seq there in omega arith)
        | inr new ↦ new
      ] in
    let stored = sym (store_packet_new p (record s { recvbit = _ }) (ground arith) new) in
    let size = h.counted in
    subst (HasPieces orig (suc k)) stored (record {
      sized = h.sized;
      counted = omega arith;
      keys = λ j there. elim (Bool-cases (p.sess_seq == j)) [
        | inl same ↦ let e = (==_iff p.sess_seq j).0 same in omega arith
        | inr other ↦ let le = h.keys j (simp other at there) in omega arith
      ];
      present = λ i lt. elim (Bool-cases (p.sess_seq == suc i)) [
        | inl same ↦ simp same refl
        | inr other ↦
            simp other
              (h.present i (let e = (==_iff p.sess_seq (suc i)).1 in ground (arith, other)))
      ];
      distinct = (new, h.distinct);
      padded = ((k, seq, more, content), h.padded);
    })

pub receiving-HasPieces :
    (orig : Bytes) (k : ℕ) (s : Server)
    → length orig ≤ 11711 * data_size
    → HasPieces orig k s
    → receiving s ≡ ltb (k * data_size) (length orig)
unfolding receiving
receiving-HasPieces orig k s fits h = let a = h.sized in let b = h.counted in ground arith

pub ltb_over : (a b : ℕ) → b ≤ a → ltb a b ≡ false
ltb_over a b h = ground arith

empty_or_more : (xs : Bytes) → (xs ≡ []) ⊎ (y : ℕ) × (ys : Bytes) × (xs ≡ y ∷ ys)
empty_or_more [] = inl refl
empty_or_more (y ∷ ys) = inr (y, ys, refl)

-- The loop ends behind the last piece, which is the first to reach the end.
pub run-pieces :
    (dst orig : Bytes) (fuel k x : ℕ) (xs : Bytes) (s : Server)
    → length (x ∷ xs) ≤ fuel
    → x ∷ xs ≡ drop (k * data_size) orig
    → length orig ≤ 11711 * data_size
    → HasPieces orig k s
    → (t : Server) × (run (map (packet dst) (pieces data_size fuel (suc k) (x ∷ xs))) s ≡ some t)
      × (receiving t ≡ false)
      × (n : ℕ) × HasPieces orig n t
      × (length orig ≤ n * data_size)
unfolding pieces
run-pieces dst orig zero k x xs s le at fits h = absurd (omega arith)
run-pieces dst orig (suc fuel) k x xs s le at fits h =
    let e : ℕ × Bytes = (suc k, take data_size (x ∷ xs)) in
    let s' = received (packet dst e) s in
    let size = length-drop (k * data_size) orig in
    let size_at = ap length at in
    let more : receiving s ≡ true =
      receiving-HasPieces orig k s fits h ∙ lt→ltb (k * data_size) (length orig) (omega arith) in
    let h' =
      HasPieces-next (packet dst e) orig k s fits (omega arith) (unfold packet send in refl)
        (unfold packet send in ap (λ r. pad data_size (take data_size r)) at) h in
    let first = λ (ps : List Packet). run-packet dst e ps s more (omega arith) in
    let rest_size = length-drop data_size (x ∷ xs) in
    let sends =
      λ (r : Bytes). packet dst e ∷ map (packet dst) (pieces data_size fuel (suc (suc k)) r) in
    elim (empty_or_more (drop data_size (x ∷ xs))) [
      | inl none_left ↦
          let none_more = ap length none_left in
          let all : length orig ≤ suc k * data_size = omega arith in
          (
            s',
            ap (λ r. run (sends r) s) none_left ∙ first [] ∙ run_nil s',
            receiving-HasPieces orig (suc k) s' fits h'
                ∙ ltb_over (suc k * data_size) (length orig) all,
            suc k,
            h',
            all,
          )
      | inr (y, ys, left) ↦
          let more_left = ap length left in
          let (t, ran, over, n, got, all) =
            run-pieces dst orig fuel (suc k) y ys s' (omega arith)
              (sym left ∙ drop_next data_size k orig (x ∷ xs) at) fits h' in
          (t, ap (λ r. run (sends r) s) left ∙ first _ ∙ ran, over, n, got, all)
    ]

-- The packet 0 tells the size.
pub start-HasPieces :
    (dst orig : Bytes)
    → length orig < 2 ^ 32
    → HasPieces orig 0 (received (packet dst (0, put_size (length orig))) start)
unfolding received store_packet packet send size_of put_size put_le32 pad contains
start-HasPieces dst orig small = record {
  sized = le32_lem (length orig) small;
  counted = refl;
  keys = λ j there. absurd (cc);
  present = λ i lt. absurd (omega arith);
  distinct = tt;
  padded = tt;
}
