-- ===== src/Broadcast/Packet/Sums.antt =====
-- The sum in the IP header that `send` of utils.hpp writes.
use nycu_intro_np.Prelude.{
  ℕ, zero, suc, ◌+◌, ◌-◌, ◌/◌, ◌%◌, ◌^◌, ◌≤◌, ◌<◌, ◌≡◌, refl, [], ◌∷◌, arith, ltb, Bool-cases, inl,
  inr,
}
use nycu_intro_np.Broadcast.Packet.{Packet, add_words, fold, cksum, ip_hdr, send, checksum}

-- What the loop leaves: a word of 16 bits, the same modulo 2 ^ 16 - 1, and zero only for zero.
abbrev IsFolded : ℕ → ℕ → Type 0
IsFolded sum r = (r < 2 ^ 16) × (r % 65535 ≡ sum % 65535) × (0 < sum → 0 < r)

IsFolded-step : (sum r : ℕ) → IsFolded (sum % 2 ^ 16 + sum / 2 ^ 16) r → IsFolded sum r
IsFolded-step sum r (small, same, pos) = (small, omega arith, λ h. pos (omega arith))

fold_lem : (fuel sum : ℕ) → sum ≤ fuel → IsFolded sum (fold fuel sum)
unfolding fold
fold_lem zero sum h = (omega arith, refl, λ p. p)
fold_lem (suc fuel) sum h = elim (Bool-cases (ltb 0 (sum / 2 ^ 16))) [
  | inl more ↦
      let ih =
        IsFolded-step sum _ (fold_lem fuel (sum % 2 ^ 16 + sum / 2 ^ 16) (ground (arith, more))) in
      simp more ih
  | inr none_left ↦ simp none_left (ground (arith, none_left), refl, λ p. p)
]

-- The words of a header whose sum was left out, and of one that has it.
add_words-ip_hdr :
    (p : Packet) (sum : ℕ) (a b c d : ℕ)
    → p.ip_dst ≡ a ∷ b ∷ c ∷ d ∷ []
    → p.ip_sum ≡ 0
    → sum < 2 ^ 16
    → (add_words (ip_hdr (record p { ip_sum = sum })) ≡ add_words (ip_hdr p) + sum)
      × (0 < add_words (ip_hdr p))
unfolding add_words ip_hdr
add_words-ip_hdr p sum a b c d dst none_yet small = rw (dst, none_yet) (omega arith, omega arith)

-- The header of a packet that was sent sums up as the receiver checks it, where the caller left the
-- field of the sum empty and the address has four bytes.
pub cksum-send :
    (p : Packet) (a b c d : ℕ) → p.ip_sum ≡ 0 → cksum (ip_hdr (send (a ∷ b ∷ c ∷ d ∷ []) p)) ≡ 0
unfolding cksum send
cksum-send p a b c d none_yet =
    let q = record p { check = checksum p; ip_dst = a ∷ b ∷ c ∷ d ∷ [] } in
    let s = add_words (ip_hdr q) in
    let (small, same, pos) = fold_lem s s (omega arith) in
    let (words, some_set) =
      add_words-ip_hdr q (65535 - fold s s) a b c d refl none_yet (omega arith) in
    let t = add_words (ip_hdr (record q { ip_sum = 65535 - fold s s })) in
    let (small', same', pos') = fold_lem t t (omega arith) in
    let left = pos' (omega arith) in omega arith
