-- ===== src/Mircd/Controller/Flags.antt =====
-- The flag that says that a client has a nick.
use Prim.Native.Nat.{bit_or-bitwise, bit_and-bitwise, digits, min}
use nycu_intro_np.Prelude.{
  ℕ, zero, suc, ◌/◌, ◌%◌, ◌≡◌, refl, ◌∙◌, true, max, bit_or, bit_and, arith, ==_iff,
}
use nycu_intro_np.Mircd.State.{has_flag, add_flag, flag_nick}

or_odd : (s : ℕ) → bit_or s 1 % 2 ≡ 1
or_odd s = (λ i. bit_or-bitwise s 1 i % 2) ∙ odd s
  where
    odd : (s : ℕ) → digits (λ b. b) max s s 1 % 2 ≡ 1
    odd zero = refl
    odd (suc s) = omega arith

digits-min-zero : (n a : ℕ) → digits (λ b. zero) min n a 0 ≡ 0
digits-min-zero zero a = refl
digits-min-zero (suc n) zero = refl
digits-min-zero (suc n) (suc a) = omega (arith, digits-min-zero n (suc a / 2))

and_odd : (s : ℕ) → s % 2 ≡ 1 → bit_and s 1 ≡ 1
and_odd s odd = (λ i. bit_and-bitwise s 1 i) ∙ low s odd
  where
    low : (s : ℕ) → s % 2 ≡ 1 → digits (λ b. zero) min s s 1 ≡ 1
    low zero h = absurd (omega arith)
    low (suc s) h = omega (arith, digits-min-zero s (suc s / 2))

pub has_flag-add_flag : (s : ℕ) → has_flag flag_nick (add_flag flag_nick s) ≡ true
unfolding has_flag add_flag
has_flag-add_flag s = (==_iff (bit_and (bit_or s 1) 1) 1).1 (and_odd (bit_or s 1) (or_odd s))
