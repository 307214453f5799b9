-- ===== src/Transfer/System.antt =====
-- The client and the server of Lab/8/src with the network between them: a packet or an answer that
-- was sent may arrive late, more than once or never.
pub mod Safety
use nycu_intro_np.Prelude.{ℕ, ◌≡◌, List, [], ◌∷◌, ◌++◌, Bytes, some, Map, Bool, true, false, Member}
use nycu_intro_np.Transfer.Packets.{Packet, data_map, send_round, erase_done}
use nycu_intro_np.Transfer.Receiver.{Receiver, start, receiving, receive}

-- The client's map and the bits of the last answer that it read; all packets and answers that were
-- sent so far; the server. An answer is the bit set that its payload is.
pub record System : Type 0 where
  pub waiting : Map ℕ Bytes
  pub donebit : ℕ → Bool
  pub flight : List Packet
  pub answers : List (ℕ → Bool)
  pub server : Receiver

unfoldable pub initial : Bytes → System
initial comp = record {
  waiting = data_map comp;
  donebit = λ _. false;
  flight = [];
  answers = [];
  server = start;
}

-- The client sends a round, reads an answer, or forgets what is acknowledged; the server, while its
-- loop runs, takes a packet, or sends an answer.
pub data Step : System → System → Type 0 where
  send : (s : System) → Step s (record s { flight = send_round s.donebit s.waiting ++ s.flight })
  read :
      (s : System) (bits : ℕ → Bool) → Member bits s.answers → Step s (record s { donebit = bits })
  forget : (s : System) → Step s (record s { waiting = erase_done s.donebit s.waiting })
  take :
      (s : System) (p : Packet) (after : Receiver)
      → Member p s.flight
      → receiving s.server ≡ true
      → receive p s.server ≡ some after
      → Step s (record s { server = after })
  answer : (s : System) → Step s (record s { answers = s.server.recvbit ∷ s.answers })

pub data Reach (s : System) : System → Type 0 where
  here : Reach s s
  next : {t u : System} → Reach s t → Step t u → Reach s u
