-- ===== src/Broadcast/Packet/Detects.antt =====
-- What `adler32` and `checksum` of utils.hpp detect.
use Prim.Native.Nat.{bit_or, bit_or-bitwise, bit_xor-bitwise, digits, differ}
use nycu_intro_np.Prelude.{
  ℕ, zero, suc, ◌+◌, ◌*◌, ◌/◌, ◌%◌, ◌^◌, ◌≤◌, ◌<◌, ◌≡◌, refl, sym, ap, ◌∙◌, [], ◌∷◌, ◌++◌, Bytes,
  bit_xor, max, length, All, arith,
}
use nycu_intro_np.Broadcast.Packet.{
  Packet, mod_adler, data_size, adler_loop, join_words, adler32, checksum,
}

-- The lowest k digits.
unfoldable low : ℕ → ℕ → ℕ
low zero n = 0
low (suc k) n = n % 2 + 2 * low k (n / 2)

low_byte : (n : ℕ) → low 8 n ≡ n % 256
unfolding low
low_byte n = omega arith

low-or : (k n x a : ℕ) → x ≤ n → low k x ≡ 0 → low k (digits (λ b. b) max n x a) ≡ low k a
unfolding low
low-or zero n x a le h = refl
low-or (suc k) zero zero a le h = refl
low-or (suc k) zero (suc x) a le h = absurd (omega arith)
low-or (suc k) (suc n) zero a le h = refl
low-or (suc k) (suc n) (suc x) a le h =
    let even : suc x % 2 ≡ 0 = omega arith in
    let ih = low-or k n (suc x / 2) (a / 2) (omega arith) (omega arith) in
    let d = digits (λ b. b) max n (suc x / 2) (a / 2) in
    let bit : max (suc x % 2) (a % 2) ≡ a % 2 = omega arith in
    let halved : (d * 2 + max (suc x % 2) (a % 2)) / 2 ≡ d = omega arith in
    omega (arith, ih, ap (low k) halved)

low-join_words : (a b : ℕ) → join_words (a, b) % 256 ≡ a % 256
unfolding join_words
low-join_words a b =
    let x = b * 2 ^ 16 % 2 ^ 32 in
    let same =
      (λ i. low 8 (bit_or-bitwise x a i))
      ∙ low-or 8 x x a (omega arith) (omega (arith, low_byte x)) in
    sym (low_byte (bit_or x a)) ∙ same ∙ low_byte a

differ_cancel : (x y z : ℕ) → x < 2 → y < 2 → z < 2 → differ x z ≡ differ y z → x ≡ y
differ_cancel zero zero z hx hy hz h = refl
differ_cancel zero (suc zero) zero hx hy hz h = h
differ_cancel zero (suc zero) (suc z) hx hy hz h = absurd (omega arith)
differ_cancel (suc zero) zero zero hx hy hz h = h
differ_cancel (suc zero) zero (suc z) hx hy hz h = absurd (omega arith)
differ_cancel (suc zero) (suc zero) z hx hy hz h = refl
differ_cancel zero (suc (suc y)) z hx hy hz h = absurd (omega arith)
differ_cancel (suc zero) (suc (suc y)) z hx hy hz h = absurd (omega arith)
differ_cancel (suc (suc x)) y z hx hy hz h = absurd (omega arith)

-- The lowest digit of an exclusive or, and the others.
xor_step :
    (n a s : ℕ)
    → a ≤ n
    → (m : ℕ) × (a / 2 ≤ m)
      × (digits (λ b. b) differ n a s % 2 ≡ differ (a % 2) (s % 2))
      × (digits (λ b. b) differ n a s / 2 ≡ digits (λ b. b) differ m (a / 2) (s / 2))
xor_step zero zero s le = (0, omega arith, refl, refl)
xor_step zero (suc a) s le = absurd (omega arith)
xor_step (suc n) zero s le = (0, omega arith, refl, refl)
xor_step (suc n) (suc a) s le =
    let bit = differ_bit (suc a % 2) (s % 2) (omega arith) (omega arith) in
    (n, omega arith, omega arith, omega arith)
  where
    differ_bit : (x z : ℕ) → x < 2 → z < 2 → differ x z < 2
    differ_bit zero z hx hz = hz
    differ_bit (suc zero) zero hx hz = hx
    differ_bit (suc zero) (suc z) hx hz = omega arith
    differ_bit (suc (suc x)) z hx hz = absurd (omega arith)

xor_cancel :
    (k n m a b s : ℕ)
    → a ≤ k
    → b ≤ k
    → a ≤ n
    → b ≤ m
    → digits (λ c. c) differ n a s ≡ digits (λ c. c) differ m b s
    → a ≡ b
xor_cancel zero n m a b s hak hbk ha hb h = omega arith
xor_cancel (suc k) n m a b s hak hbk ha hb h =
    let (n', ha', bit_a, rest_a) = xor_step n a s ha in
    let (m', hb', bit_b, rest_b) = xor_step m b s hb in
    let bit =
      differ_cancel (a % 2) (b % 2) (s % 2) (omega arith) (omega arith) (omega arith)
        (sym bit_a ∙ ap (λ x. x % 2) h ∙ bit_b) in
    let rest =
      xor_cancel k n' m' (a / 2) (b / 2) (s / 2) (omega arith) (omega arith) ha' hb'
        (sym rest_a ∙ ap (λ x. x / 2) h ∙ rest_b) in
    omega arith

bit_xor-cancel : (a b s : ℕ) → bit_xor a s ≡ bit_xor b s → a ≡ b
bit_xor-cancel a b s h =
    xor_cancel (a + b) a b a b s (omega arith) (omega arith) (omega arith) (omega arith)
      (sym (λ i. bit_xor-bitwise a s i) ∙ h ∙ (λ i. bit_xor-bitwise b s i))

sum_of : Bytes → ℕ
sum_of [] = 0
sum_of (x ∷ xs) = x + sum_of xs

sum_of-append : (xs ys : Bytes) → sum_of (xs ++ ys) ≡ sum_of xs + sum_of ys
unfolding sum_of
sum_of-append [] ys = omega arith
sum_of-append (x ∷ xs) ys = omega (arith, sum_of-append xs ys)

abbrev pub IsByte : ℕ → Type 0
IsByte c = c < 256

sum_of_bound : (xs : Bytes) → All IsByte xs → sum_of xs ≤ 255 * length xs
unfolding sum_of
sum_of_bound [] h = omega arith
sum_of_bound (x ∷ xs) h = let first = h.0 in omega (arith, sum_of_bound xs h.1)

-- The first sum never wraps around for a packet.
adler_loop_sum :
    (xs : Bytes) (a b : ℕ) → a + sum_of xs < mod_adler → (adler_loop a b xs).0 ≡ a + sum_of xs
unfolding adler_loop sum_of
adler_loop_sum [] a b h = omega arith
adler_loop_sum (x ∷ xs) a b h =
    let e : (a + x) % mod_adler ≡ a + x = omega arith in
    omega (
      arith,
      e,
      adler_loop_sum xs ((a + x) % mod_adler) ((b + (a + x) % mod_adler) % mod_adler) (omega arith),
    )

adler32-low :
    (xs : Bytes) → All IsByte xs → length xs ≤ data_size → adler32 xs % 256 ≡ (1 + sum_of xs) % 256
unfolding adler32
adler32-low xs h fits =
    let bound = sum_of_bound xs h in
    let (a, b) = adler_loop 1 0 xs in
    low-join_words (adler_loop 1 0 xs).0 (adler_loop 1 0 xs).1
    ∙ ap (λ x. x % 256) (adler_loop_sum xs 1 0 (omega arith))

-- A payload with one byte changed has another checksum.
pub adler32_changed :
    (before after : Bytes) (c d : ℕ)
    → All IsByte (before ++ c ∷ after)
    → All IsByte (before ++ d ∷ after)
    → length (before ++ c ∷ after) ≤ data_size
    → length (before ++ d ∷ after) ≤ data_size
    → IsByte c
    → IsByte d
    → adler32 (before ++ c ∷ after) ≡ adler32 (before ++ d ∷ after)
    → c ≡ d
unfolding sum_of
adler32_changed before after c d hc hd lc ld bc bd h = omega (
  arith,
  adler32-low (before ++ c ∷ after) hc lc,
  adler32-low (before ++ d ∷ after) hd ld,
  ap (λ x. x % 256) h,
  sum_of-append before (c ∷ after),
  sum_of-append before (d ∷ after),
)

pub checksum_cancel :
    (p q : Packet)
    → p.sess_seq ≡ q.sess_seq
    → checksum p ≡ checksum q
    → adler32 p.payload ≡ adler32 q.payload
unfolding checksum
checksum_cancel p q same h =
    bit_xor-cancel (adler32 p.payload) (adler32 q.payload) q.sess_seq
      (ap (bit_xor (adler32 p.payload)) (sym same) ∙ h)
