-- ===== src/Transfer/Round.antt =====
-- One round of the client: its packets, and what they do to a server that gets them all.
use nycu_intro_np.Prelude.{
  ℕ, suc, ◌*◌, ◌≤◌, ◌<◌, ◌≡◌, refl, sym, ap, ◌∙◌, List, [], ◌∷◌, map, Bytes, some, Map, find,
  nat_eq, length, Bool, true, false, All, Member, All-Member, All-keep, arith, ◌⊎◌, inl, inr, ◌==◌,
  ==_iff, Bool-cases,
}
use nycu_intro_np.Transfer.Packets.{
  data_size, Packet, wrap_send, put_size, data_map, send_round, erase_done,
}
use nycu_intro_np.Transfer.Pieces.Join.{piece, IsPiece, pieces-IsPiece, find-pieces}
use nycu_intro_np.Transfer.Receiver.{Receiver, receiving, run, comp_data}
use nycu_intro_np.Transfer.Receiver.Genuine.{IsGenuine, IsSent}
use nycu_intro_np.Transfer.Receiver.Finish.{run-IsGenuine, stops, comp_data-IsGenuine}

-- An entry of the client's map.
abbrev pub IsEntry : Bytes → ℕ × Bytes → Type 0
IsEntry comp e = (e ≡ (0, put_size (length comp))) ⊎ IsPiece data_size comp e

All-inr : (comp : Bytes) (m : Map ℕ Bytes) → All (IsPiece data_size comp) m → All (IsEntry comp) m
All-inr comp [] h = tt
All-inr comp (e ∷ m) h = (inr h.0, All-inr comp m h.1)

pub data_map-IsEntry : (comp : Bytes) → All (IsEntry comp) (data_map comp)
unfolding data_map
data_map-IsEntry comp = (inl refl, All-inr comp _ (pieces-IsPiece data_size (length comp) comp))

pub erase_done-IsEntry :
    (comp : Bytes) (donebit : ℕ → Bool) (m : Map ℕ Bytes)
    → All (IsEntry comp) m
    → All (IsEntry comp) (erase_done donebit m)
unfolding erase_done
erase_done-IsEntry comp donebit m h = All-keep (IsEntry comp) _ m h

wrap_send-IsSent : (comp : Bytes) (e : ℕ × Bytes) → IsEntry comp e → IsSent comp (wrap_send e.0 e.1)
wrap_send-IsSent comp e (inl same) = inl (ap (λ (x : ℕ × Bytes). wrap_send x.0 x.1) same)
wrap_send-IsSent comp e (inr (i, k, lt, v)) =
    inr (i, lt, ap (λ n. wrap_send n e.1) k ∙ ap (wrap_send (suc i)) v)

IsSent-map :
    (comp : Bytes) (m : Map ℕ Bytes)
    → All (IsEntry comp) m
    → All (IsSent comp) (map (λ entry. wrap_send entry.0 entry.1) m)
IsSent-map comp [] h = tt
IsSent-map comp (e ∷ m) h = (wrap_send-IsSent comp e h.0, IsSent-map comp m h.1)

-- A round sends packets of the client.
pub send_round-IsSent :
    (comp : Bytes) (donebit : ℕ → Bool) (m : Map ℕ Bytes)
    → All (IsEntry comp) m
    → All (IsSent comp) (send_round donebit m)
unfolding send_round
send_round-IsSent comp donebit m h = IsSent-map comp _ (All-keep (IsEntry comp) _ m h)

-- While nothing is acknowledged every entry is sent.
pub Member-send_round :
    (k : ℕ) (v : Bytes) (m : Map ℕ Bytes)
    → find k m ≡ some v
    → Member (wrap_send k v) (send_round (λ _. false) m)
unfolding send_round find
Member-send_round k v [] h = absurd (cc)
Member-send_round k v ((j, w) ∷ m) h = elim (Bool-cases (j == k)) [
  | inl same ↦
      let key = (==_iff j k).0 same in
      let value : w ≡ v = ground arith in
      Member.here (sym (ap (λ n. wrap_send n w) key ∙ ap (wrap_send k) value))
  | inr other ↦ Member.there (Member-send_round k v m (ground arith))
]

pub find-data_map :
    (comp : Bytes) (i : ℕ)
    → i * data_size < length comp
    → find (suc i) (data_map comp) ≡ some (piece data_size comp i)
unfolding find data_map
find-data_map comp i lt = let e = find-pieces data_size i comp (omega arith) lt in ground (arith, e)

pub find-data_map_start : (comp : Bytes) → find 0 (data_map comp) ≡ some (put_size (length comp))
unfolding find data_map
find-data_map_start comp = refl

marked_bit :
    (k : ℕ) (v : Bytes) (t : Receiver) (ps : List Packet)
    → All (λ p. t.recvbit p.data_seq ≡ true) ps
    → Member (wrap_send k v) ps
    → t.recvbit k ≡ true
unfolding wrap_send
marked_bit k v t ps h m = All-Member (λ p. t.recvbit p.data_seq ≡ true) (wrap_send k v) ps h m

-- From whatever packets of a client of at most 9343 pieces have left the server with, the server's
-- loop ends on any packets of that client that include those of one round, and then has the bytes
-- that the client sends.
pub run_ends :
    (comp : Bytes) (ps : List Packet) (s : Receiver)
    → length comp ≤ 9343 * data_size
    → IsGenuine comp s
    → All (IsSent comp) ps
    → All (λ p. Member p ps) (send_round (λ _. false) (data_map comp))
    → (t : Receiver) × (run ps s ≡ some t) × (receiving t ≡ false) × (comp_data t ≡ some comp)
run_ends comp ps s fits g sent covers =
    let (t, ran, g', ending) = run-IsGenuine comp fits ps s sent g in
    let stopped : receiving t ≡ false = elim ending [
      | inl over ↦ over
      | inr (kept, marks) ↦
          let there = λ (k : ℕ) (v : Bytes) (e : find k (data_map comp) ≡ some v).
            marked_bit k v t ps marks (
              All-Member (λ p. Member p ps) (wrap_send k v) _ covers
                (Member-send_round k v (data_map comp) e)) in
          stops comp fits t g' (there 0 (put_size (length comp)) (find-data_map_start comp))
            (λ i lt. there (suc i) (piece data_size comp i) (find-data_map comp i lt))
    ] in
    (t, ran, stopped, comp_data-IsGenuine comp t (omega arith) g' stopped)
