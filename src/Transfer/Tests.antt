-- ===== src/Transfer/Tests.antt =====
-- The transfer on concrete inputs.
use nycu_intro_np.Prelude.{
  ◌<◌, length, ◌^◌, ◌≡◌, refl, sym, subst, [], ◌∷◌, List, some, ◌++◌, arith, codes, nat_eq, Bytes,
  false, All, Member, Member-append_left, inl, inr, emplace, contains,
}
use nycu_intro_np.Transfer.Archive.{File, pack, put_file, put_le32, le32, unpack, unpack-pack}
use nycu_intro_np.Transfer.Packets.{Packet, wrap_send, put_size, data_map, send_round, erase_done}
use nycu_intro_np.Transfer.Pieces.{pieces, pad}
use nycu_intro_np.Transfer.Receiver.{
  Receiver, start, receive, received, receiving, run, comp_data, store_packet, set_bit,
  save_to_file, size_of,
}
use nycu_intro_np.Transfer.Receiver.Genuine.{IsSent, start-IsGenuine}
use nycu_intro_np.Transfer.Round.{run_ends}
use nycu_intro_np.Transfer.System.{System, initial, Step, Reach}
use nycu_intro_np.Transfer.System.Safety.{save_to_file-Reach, client_done}

abbrev two_files : List File
two_files =
    record { filename = 0; contents = codes "abc" }
    ∷ record { filename = 70000; contents = [] }
    ∷ []

unpack-pack_example : unpack (pack two_files) ≡ some two_files
unpack-pack_example =
    unpack-pack two_files ((omega arith, omega arith), ((omega arith, omega arith), tt))

two_files_small : length (pack two_files) < 2 ^ 32
unfolding pack put_file put_le32
two_files_small = omega arith

abbrev one_file : List File
one_file = record { filename = 1; contents = codes "hi" } ∷ []

abbrev comp : Bytes
comp = 1 ∷ 0 ∷ 0 ∷ 0 ∷ 2 ∷ 0 ∷ 0 ∷ 0 ∷ b'h' ∷ b'i' ∷ []

pack-one_file : pack one_file ≡ comp
unfolding pack put_file put_le32
pack-one_file = refl

abbrev first_packet : Packet
first_packet = wrap_send 0 (put_size 10)

abbrev second_packet : Packet
second_packet = wrap_send 1 comp

-- The second packet comes first, and the first one twice.
abbrev packets : List Packet
packets = second_packet ∷ first_packet ∷ first_packet ∷ []

round_lem : send_round (λ _. false) (data_map comp) ≡ first_packet ∷ second_packet ∷ []
unfolding send_round data_map pieces
round_lem = refl

packets-IsSent : All (IsSent comp) packets
packets-IsSent = (inr (0, omega arith, refl), (inl refl, (inl refl, tt)))

covered : All (λ p. Member p packets) (send_round (λ _. false) (data_map comp))
covered =
    subst (All (λ p. Member p packets)) (sym round_lem)
      (Member.there (Member.here refl), (Member.here refl, tt))

run_ends_example :
    (t : Receiver) × (run packets start ≡ some t)
    × (receiving t ≡ false)
    × (comp_data t ≡ some comp)
run_ends_example =
    run_ends comp packets start (omega arith) (start-IsGenuine comp) packets-IsSent covered

-- A run in which the client sends one round and the server takes its packets in the other order.
abbrev sending : System
sending = record (initial comp) { flight = send_round (λ _. false) (data_map comp) ++ [] }

abbrev halfway : Receiver
halfway = received second_packet start

abbrev finished : Receiver
finished = received first_packet halfway

in_flight : (p : Packet) → Member p (first_packet ∷ second_packet ∷ []) → Member p sending.flight
unfolding initial
in_flight p m = Member-append_left p _ [] (subst (Member p) (sym round_lem) m)

reached : Reach (initial comp) (record sending { server = finished })
unfolding initial receive received receiving store_packet wrap_send contains
reached =
    Reach.next
      (Reach.next (Reach.next Reach.here (Step.send (initial comp))) (
        Step.take sending second_packet halfway
          (in_flight second_packet (Member.there (Member.here refl))) refl refl))
      (Step.take (record sending { server = halfway }) first_packet finished
        (in_flight first_packet (Member.here refl)) refl refl)

finished_stopped : receiving finished ≡ false
unfolding initial received receiving store_packet wrap_send contains emplace size_of pad put_size
    put_le32 le32
finished_stopped = refl

save_to_file-Reach_example : save_to_file (λ bytes. some bytes) finished ≡ some one_file
save_to_file-Reach_example =
    save_to_file-Reach (λ bytes. bytes) (λ bytes. some bytes) one_file
      (record sending { server = finished }) (λ bytes. refl)
      (subst (λ bytes. length bytes < 2 ^ 32) (sym pack-one_file) (omega arith))
      ((omega arith, omega arith), tt)
      (subst (λ bytes. Reach (initial bytes) (record sending { server = finished }))
        (sym pack-one_file) reached)
      finished_stopped

-- The server's answer reaches the client, which forgets both packets.
abbrev answered : System
answered = record sending { server = finished; answers = finished.recvbit ∷ [] }

abbrev forgotten : System
forgotten = record answered {
  donebit = finished.recvbit;
  waiting = erase_done finished.recvbit (data_map comp);
}

reached_end : Reach (initial comp) forgotten
unfolding initial
reached_end =
    Reach.next
      (Reach.next (Reach.next reached (Step.answer (record sending { server = finished })))
        (Step.read answered finished.recvbit (Member.here refl)))
      (Step.forget (record answered { donebit = finished.recvbit }))

nothing_left : forgotten.waiting ≡ []
unfolding initial data_map pieces erase_done received store_packet wrap_send contains emplace
    set_bit
nothing_left = refl

client_done_example : (receiving finished ≡ false) × (comp_data finished ≡ some comp)
unfolding initial
client_done_example = client_done comp forgotten (omega arith) reached_end nothing_left
