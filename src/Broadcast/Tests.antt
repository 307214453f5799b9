-- ===== src/Broadcast/Tests.antt =====
-- The transfer by broadcast on concrete inputs.
use nycu_intro_np.Prelude.{◌≡◌, refl, [], ◌∷◌, Bytes, some, none, arith, false}
use nycu_intro_np.Broadcast.Packet.{Packet, adler32, adler_loop, join_words, cksum, ip_hdr, send}
use nycu_intro_np.Broadcast.Packet.Sums.{cksum-send}
use nycu_intro_np.Broadcast.Loop.{
  Server, start, receive, read_resps, run, send_round, to_send, receiving, orig_data,
}
use nycu_intro_np.Broadcast.Loop.Damage.{damaged, damaged_ignored}
use nycu_intro_np.Broadcast.Loop.Whole.{orig_data_lem}

abbrev address : Bytes
address = 10 ∷ 0 ∷ 0 ∷ 255 ∷ []

abbrev small_packet : Packet
small_packet = record {
  ip_sum = 0;
  ip_dst = address;
  sess_seq = 3;
  check = 0;
  payload = 1 ∷ 2 ∷ [];
}

-- a = 4, b = 6.
adler32_small : adler32 (1 ∷ 2 ∷ []) ≡ 393220
unfolding adler32 adler_loop join_words
adler32_small = refl

cksum-send_example : cksum (ip_hdr (send address small_packet)) ≡ 0
cksum-send_example = cksum-send small_packet 10 0 0 255 refl

damaged_ignored_example :
    (receive (damaged address small_packet (5 ∷ 2 ∷ [])) start ≡ some start)
    × (read_resps (damaged address small_packet (5 ∷ 2 ∷ []) ∷ []) small_packet
        ≡ read_resps [] small_packet)
damaged_ignored_example =
    damaged_ignored address [] (2 ∷ []) 1 5 small_packet start [] small_packet refl (omega arith) tt
      (omega arith, tt) (omega arith) (omega arith) (λ e. absurd (omega (arith, e)))

orig_data_lem_example :
    (t : Server) × (run (send_round address (λ _. false) (to_send (1 ∷ 2 ∷ 3 ∷ []))) start ≡ some t)
    × (receiving t ≡ false)
    × (orig_data t ≡ none)
orig_data_lem_example = orig_data_lem address (1 ∷ 2 ∷ 3 ∷ []) (omega arith)
