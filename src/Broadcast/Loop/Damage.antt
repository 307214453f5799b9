-- ===== src/Broadcast/Loop/Damage.antt =====
-- Damaged packets at the server and the client.
use nycu_intro_np.Prelude.{
  ℕ, ◌≤◌, ◌≡◌, refl, sym, ap, ◌∙◌, List, ◌∷◌, ◌++◌, Bytes, some, true, ◌==◌, ==_iff, length,
  length-append, All, All-append, arith, Bool-cases, inl, inr,
}
use nycu_intro_np.Broadcast.Packet.{adler32, Packet, data_size, checksum, send}
use nycu_intro_np.Broadcast.Packet.Detects.{IsByte, adler32_changed, checksum_cancel}
use nycu_intro_np.Broadcast.Loop.{Server, receive, read_resps}

-- What `send` writes is accepted.
pub send-check : (dst : Bytes) (p : Packet) → checksum (send dst p) ≡ (send dst p).check
unfolding send checksum
send-check dst p = refl

-- A packet that was sent, with one byte of its payload changed on the way.
abbrev pub damaged : Bytes → Packet → Bytes → Packet
damaged dst p payload = record (send dst p) { payload = payload }

pub damaged_fails :
    (dst before after : Bytes) (c d : ℕ) (p : Packet)
    → p.payload ≡ before ++ c ∷ after
    → length p.payload ≤ data_size
    → All IsByte before
    → All IsByte after
    → IsByte c
    → IsByte d
    → (checksum (damaged dst p (before ++ d ∷ after))
        == (damaged dst p (before ++ d ∷ after)).check)
      ≡ true
    → c ≡ d
unfolding send
damaged_fails dst before after c d p same fits hb ha bc bd h =
    let q = damaged dst p (before ++ d ∷ after) in
    let sums : checksum q ≡ checksum p = (==_iff (checksum q) (checksum p)).0 h in
    let adler = checksum_cancel q p refl sums ∙ ap adler32 same in
    let size_c = length-append before (c ∷ after) in
    let size_d = length-append before (d ∷ after) in
    let size = ap length same in
    adler32_changed before after c d (All-append IsByte before (c ∷ after) hb (bc, ha))
      (All-append IsByte before (d ∷ after) hb (bd, ha)) (omega arith) (omega arith) bc bd
      (sym adler)

-- A packet of which one byte of the payload was changed on the way is left aside, by the server and
-- by the client, whatever else its payload is.
pub damaged_ignored :
    (dst before after : Bytes) (c d : ℕ) (p : Packet) (s : Server) (rest : List Packet)
    (s_res : Packet)
    → p.payload ≡ before ++ c ∷ after
    → length p.payload ≤ data_size
    → All IsByte before
    → All IsByte after
    → IsByte c
    → IsByte d
    → ¬ (c ≡ d)
    → (receive (damaged dst p (before ++ d ∷ after)) s ≡ some s)
      × (read_resps (damaged dst p (before ++ d ∷ after) ∷ rest) s_res ≡ read_resps rest s_res)
unfolding receive read_resps
damaged_ignored dst before after c d p s rest s_res same fits hb ha bc bd differs =
    let q = damaged dst p (before ++ d ∷ after) in
    elim (Bool-cases (checksum q == q.check)) [
      | inl passes ↦
          absurd (differs (damaged_fails dst before after c d p same fits hb ha bc bd passes))
      | inr fails ↦ (simp fails refl, simp fails refl)
    ]
