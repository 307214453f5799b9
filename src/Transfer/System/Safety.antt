-- ===== src/Transfer/System/Safety.antt =====
-- What holds in every state that the client and the server can reach.
use nycu_intro_np.Prelude.{
  ℕ, suc, ◌*◌, ◌^◌, ◌≤◌, ◌<◌, ◌≡◌, refl, sym, ap, ◌∙◌, subst, List, [], ◌∷◌, Bytes, Option, some,
  Map, find, nat_eq, length, Bool, true, false, All, All-append, All-Member, Member, arith, ◌⊎◌,
  inl, inr, Bool-cases,
}
use nycu_intro_np.Transfer.Archive.{File, pack, unpack, FitsInit, unpack-pack}
use nycu_intro_np.Transfer.Packets.{data_size, Packet, put_size, send_round, erase_done}
use nycu_intro_np.Transfer.Pieces.Join.{piece}
use nycu_intro_np.Transfer.Receiver.{
  Receiver, receiving, receive, received, comp_data, save_to_file, and_then,
}
use nycu_intro_np.Transfer.Receiver.Genuine.{IsGenuine, IsSent, start-IsGenuine, received-IsGenuine}
use nycu_intro_np.Transfer.Receiver.Finish.{bit_kept, stops, comp_data-IsGenuine}
use nycu_intro_np.Transfer.Round.{
  IsEntry, data_map-IsEntry, erase_done-IsEntry, send_round-IsSent, find-data_map,
  find-data_map_start,
}
use nycu_intro_np.Transfer.System.{System, initial, Step, Reach}

-- The bits are at most those that the server has set.
abbrev pub Within : (ℕ → Bool) → (ℕ → Bool) → Type 0
Within bits all_bits = (k : ℕ) → bits k ≡ true → all_bits k ≡ true

-- A packet is still the client's to send, or the server has marked it.
abbrev pub NotLost : System → ℕ → Bytes → Type 0
NotLost s k v = (find k s.waiting ≡ some v) ⊎ (s.server.recvbit k ≡ true)

pub record IsSound (comp : Bytes) (s : System) : Type 0 where
  pub entries : All (IsEntry comp) s.waiting
  pub sent : All (IsSent comp) s.flight
  pub genuine : IsGenuine comp s.server
  pub answered : All (λ bits. Within bits s.server.recvbit) s.answers
  pub acknowledged : Within s.donebit s.server.recvbit
  pub start_kept : NotLost s 0 (put_size (length comp))
  pub pieces_kept :
      (i : ℕ) → i * data_size < length comp → NotLost s (suc i) (piece data_size comp i)

initial-IsSound : (comp : Bytes) → IsSound comp (initial comp)
unfolding initial
initial-IsSound comp = record {
  entries = data_map-IsEntry comp;
  sent = tt;
  genuine = start-IsGenuine comp;
  answered = tt;
  acknowledged = λ k h. absurd (cc);
  start_kept = inl (find-data_map_start comp);
  pieces_kept = λ i lt. inl (find-data_map comp i lt);
}

-- What is not acknowledged is not forgotten.
find-erase_done :
    (k : ℕ) (donebit : ℕ → Bool) (m : Map ℕ Bytes)
    → donebit k ≡ false
    → find k (erase_done donebit m) ≡ find k m
unfolding find erase_done
find-erase_done k donebit [] h = refl
find-erase_done k donebit ((j, v) ∷ m) h = ground (arith, find-erase_done k donebit m h, ap donebit)

receive-received :
    (p : Packet) (s after : Receiver) → receive p s ≡ some after → after ≡ received p s
unfolding receive
receive-received p s after h = ground arith

forget_kept :
    (comp : Bytes) (s : System) (k : ℕ) (v : Bytes)
    → IsSound comp s
    → NotLost s k v
    → NotLost (record s { waiting = erase_done s.donebit s.waiting }) k v
forget_kept comp s k v g (inr marked) = inr marked
forget_kept comp s k v g (inl held) = elim (Bool-cases (s.donebit k)) [
  | inl done ↦ inr (g.acknowledged k done)
  | inr open_yet ↦ inl (find-erase_done k s.donebit s.waiting open_yet ∙ held)
]

take_kept :
    (s : System) (p : Packet) (k : ℕ) (v : Bytes)
    → NotLost s k v
    → NotLost (record s { server = received p s.server }) k v
take_kept s p k v (inl held) = inl held
take_kept s p k v (inr marked) = inr (bit_kept p s.server k (inl marked))

Within-received :
    (p : Packet) (s : Receiver) (answers : List (ℕ → Bool))
    → All (λ bits. Within bits s.recvbit) answers
    → All (λ bits. Within bits (received p s).recvbit) answers
Within-received p s [] h = tt
Within-received p s (bits ∷ answers) h =
    (λ k b. bit_kept p s k (inl (h.0 k b)), Within-received p s answers h.1)

take-IsSound :
    (comp : Bytes) (s : System) (p : Packet)
    → length comp < 2 ^ 32
    → Member p s.flight
    → IsSound comp s
    → IsSound comp (record s { server = received p s.server })
take-IsSound comp s p small held g = record {
  entries = g.entries;
  sent = g.sent;
  genuine =
      received-IsGenuine comp small p s.server (All-Member (IsSent comp) p s.flight g.sent held)
        g.genuine;
  answered = Within-received p s.server s.answers g.answered;
  acknowledged = λ k h. bit_kept p s.server k (inl (g.acknowledged k h));
  start_kept = take_kept s p 0 (put_size (length comp)) g.start_kept;
  pieces_kept = λ i lt. take_kept s p (suc i) (piece data_size comp i) (g.pieces_kept i lt);
}

Step-IsSound :
    (comp : Bytes) {s t : System}
    → length comp < 2 ^ 32
    → Step s t
    → IsSound comp s
    → IsSound comp t
Step-IsSound comp small (Step.send s) g = record {
  entries = g.entries;
  sent =
      All-append (IsSent comp) (send_round s.donebit s.waiting) s.flight
        (send_round-IsSent comp s.donebit s.waiting g.entries) g.sent;
  genuine = g.genuine;
  answered = g.answered;
  acknowledged = g.acknowledged;
  start_kept = g.start_kept;
  pieces_kept = g.pieces_kept;
}
Step-IsSound comp small (Step.read s bits held) g = record {
  entries = g.entries;
  sent = g.sent;
  genuine = g.genuine;
  answered = g.answered;
  acknowledged = All-Member (λ b. Within b s.server.recvbit) bits s.answers g.answered held;
  start_kept = g.start_kept;
  pieces_kept = g.pieces_kept;
}
Step-IsSound comp small (Step.forget s) g = record {
  entries = erase_done-IsEntry comp s.donebit s.waiting g.entries;
  sent = g.sent;
  genuine = g.genuine;
  answered = g.answered;
  acknowledged = g.acknowledged;
  start_kept = forget_kept comp s 0 (put_size (length comp)) g g.start_kept;
  pieces_kept = λ i lt. forget_kept comp s (suc i) (piece data_size comp i) g (g.pieces_kept i lt);
}
Step-IsSound comp small (Step.take s p after held on e) g =
    subst (λ r. IsSound comp (record s { server = r })) (sym (receive-received p s.server after e))
      (take-IsSound comp s p small held g)
Step-IsSound comp small (Step.answer s) g = record {
  entries = g.entries;
  sent = g.sent;
  genuine = g.genuine;
  answered = (λ k h. h, g.answered);
  acknowledged = g.acknowledged;
  start_kept = g.start_kept;
  pieces_kept = g.pieces_kept;
}

Reach-IsSound :
    (comp : Bytes) {s : System} → length comp < 2 ^ 32 → Reach (initial comp) s → IsSound comp s
Reach-IsSound comp small Reach.here = initial-IsSound comp
Reach-IsSound comp small (Reach.next r st) = Step-IsSound comp small st (Reach-IsSound comp small r)

-- Whatever the network loses, repeats or reorders: when the server's loop has ended, the files that
-- the server writes are those that the client read, in order. The compressed files have fewer than
-- 2 ^ 32 bytes, numbers and sizes of files 32 bits, and the decompressor undoes the compressor.
pub save_to_file-Reach :
    (compress : Bytes → Bytes) (decompress : Bytes → Option Bytes) (files : List File) (s : System)
    → ((bytes : Bytes) → decompress (compress bytes) ≡ some bytes)
    → length (compress (pack files)) < 2 ^ 32
    → All FitsInit files
    → Reach (initial (compress (pack files))) s
    → receiving s.server ≡ false
    → save_to_file decompress s.server ≡ some files
unfolding save_to_file
save_to_file-Reach compress decompress files s undoes small fit r stopped =
    let comp = compress (pack files) in
    let g = (Reach-IsSound comp small r).genuine in
    ap (λ o. and_then (and_then o decompress) unpack)
      (comp_data-IsGenuine comp s.server small g stopped)
    ∙ ap (λ o. and_then o unpack) (undoes (pack files))
    ∙ unpack-pack files fit

empty_marked :
    (s : System) (k : ℕ) (v : Bytes) → s.waiting ≡ [] → NotLost s k v → s.server.recvbit k ≡ true
unfolding find
empty_marked s k v e (inl held) = absurd (cc (ap (find k) e))
empty_marked s k v e (inr marked) = marked

-- The client gives up no packet that the server lacks: when its loop ends since its map is empty, the
-- loop of the server has ended, and the server has what the client sends.
pub client_done :
    (comp : Bytes) (s : System)
    → length comp ≤ 9343 * data_size
    → Reach (initial comp) s
    → s.waiting ≡ []
    → (receiving s.server ≡ false) × (comp_data s.server ≡ some comp)
client_done comp s fits r e =
    let small : length comp < 2 ^ 32 = omega arith in
    let g = Reach-IsSound comp small r in
    let stopped =
      stops comp fits s.server g.genuine (empty_marked s 0 _ e g.start_kept)
        (λ i lt. empty_marked s (suc i) _ e (g.pieces_kept i lt)) in
    (stopped, comp_data-IsGenuine comp s.server small g.genuine stopped)
