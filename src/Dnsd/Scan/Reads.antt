-- ===== src/Dnsd/Scan/Reads.antt =====
-- What the conversions of `sscanf` and `fscanf` take of a text that was written for them.
use nycu_intro_np.Prelude.{
  ℕ, zero, suc, ◌+◌, ◌/◌, ◌%◌, ◌-◌, ◌≤◌, ◌<◌, ◌^◌, ◌≡◌, refl, ap, ◌∙◌, Bool, true, false, ◌==◌, [],
  ◌∷◌, ◌++◌, some, Bytes, All, is_empty, length, c_str, is_digit, decimal, digits_onto, arith,
  append-nil, append_assoc,
}
use nycu_intro_np.Dnsd.Record.{skip_spaces, take_word, take_digits, starts_digit, is_space}
use nycu_intro_np.Dnsd.Scan.{
  take_until, not_empty, scan_set, scan_digits, scan_signed, scan_int, scan_word, split_lines,
  strip_cr,
}

module _ (stop : ℕ → Bool) where
  pub take_until-append :
      (room : ℕ) (s : Bytes) (c : ℕ) (rest : Bytes)
      → All (λ x. stop x ≡ false) s
      → stop c ≡ true
      → length s ≤ room
      → take_until stop room (s ++ c ∷ rest) ≡ (s, c ∷ rest)
  unfolding take_until
  take_until-append zero [] c rest free stops room = refl
  take_until-append zero (x ∷ s) c rest free stops room = absurd (omega arith)
  take_until-append (suc n) [] c rest free stops room = simp stops
  take_until-append (suc n) (x ∷ s) c rest free stops room =
      simp (free.0, take_until-append n s c rest free.1 stops (omega arith))

  pub take_until-whole :
      (room : ℕ) (s : Bytes)
      → All (λ x. stop x ≡ false) s
      → length s ≤ room
      → take_until stop room s ≡ (s, [])
  unfolding take_until
  take_until-whole zero [] free room = refl
  take_until-whole zero (x ∷ s) free room = absurd (omega arith)
  take_until-whole (suc n) [] free room = refl
  take_until-whole (suc n) (x ∷ s) free room =
      simp (free.0, take_until-whole n s free.1 (omega arith))

  pub scan_set-append :
      (room : ℕ) (s : Bytes) (c : ℕ) (rest : Bytes)
      → is_empty s ≡ false
      → All (λ x. stop x ≡ false) s
      → stop c ≡ true
      → length s ≤ room
      → scan_set stop room (s ++ c ∷ rest) ≡ some (s, c ∷ rest)
  unfolding scan_set not_empty
  scan_set-append room s c rest some_there free stops fits =
      simp (take_until-append room s c rest free stops fits, some_there)

  pub scan_set-whole :
      (room : ℕ) (s : Bytes)
      → is_empty s ≡ false
      → All (λ x. stop x ≡ false) s
      → length s ≤ room
      → scan_set stop room s ≡ some (s, [])
  unfolding scan_set not_empty
  scan_set-whole room s some_there free fits = simp (take_until-whole room s free fits, some_there)

-- Where a digit stands in front, there is no space and no sign.
scan_int_digit :
    (text : Bytes)
    → starts_digit text ≡ true
    → scan_int text ≡ scan_digits (2 ^ 31 - 1) (λ n. n) text
unfolding scan_int skip_spaces scan_signed
scan_int_digit [] h = absurd (ground arith)
scan_int_digit (c ∷ text) h = ground arith

digits_onto-append :
    (fuel n : ℕ) (acc more : Bytes)
    → digits_onto fuel n acc ++ more ≡ digits_onto fuel n (acc ++ more)
unfolding digits_onto
digits_onto-append zero n acc more = refl
digits_onto-append (suc fuel) n acc more =
    ground (arith, digits_onto-append fuel (n / 10) ((b'0' + n % 10) ∷ acc) more)

starts_digit-digits_onto :
    (fuel n : ℕ) (acc : Bytes)
    → starts_digit acc ≡ true
    → starts_digit (digits_onto fuel n acc) ≡ true
unfolding digits_onto
starts_digit-digits_onto zero n acc h = h
starts_digit-digits_onto (suc fuel) n acc h =
    ground (arith, starts_digit-digits_onto fuel (n / 10) ((b'0' + n % 10) ∷ acc))

take_digits-digits_onto :
    (fuel n : ℕ) (acc : Bytes)
    → n < fuel
    → take_digits 0 (digits_onto fuel n acc) ≡ take_digits n acc
unfolding digits_onto take_digits
take_digits-digits_onto zero n acc h = absurd (omega arith)
take_digits-digits_onto (suc fuel) n acc h =
    ground (arith, take_digits-digits_onto fuel (n / 10) ((b'0' + n % 10) ∷ acc))

starts_digit_one : (fuel n : ℕ) (acc : Bytes) → starts_digit (digits_onto (suc fuel) n acc) ≡ true
unfolding digits_onto
starts_digit_one fuel n acc =
    ground (arith, starts_digit-digits_onto fuel (n / 10) ((b'0' + n % 10) ∷ acc))

scan_int_number :
    (text rest : Bytes) (n : ℕ)
    → starts_digit text ≡ true
    → take_digits 0 text ≡ (n, rest)
    → n < 2 ^ 31
    → scan_int text ≡ some (n, rest)
unfolding scan_digits
scan_int_number text rest n starts taken small =
    scan_int_digit text starts ∙ simp (taken, starts) (ground arith)

take_digits_ends :
    (n c : ℕ) (rest : Bytes) → is_digit c ≡ false → take_digits n (c ∷ rest) ≡ (n, c ∷ rest)
unfolding take_digits
take_digits_ends n c rest ends = ground arith

-- A number is read back from its decimal notation.
pub scan_int-decimal :
    (n c : ℕ) (rest : Bytes)
    → n < 2 ^ 31
    → is_digit c ≡ false
    → scan_int (decimal n ++ c ∷ rest) ≡ some (n, c ∷ rest)
unfolding decimal
scan_int-decimal n c rest small ends = rw (digits_onto-append (suc n) n [] (c ∷ rest)) (
    scan_int_number (digits_onto (suc n) n (c ∷ rest)) (c ∷ rest) n
      (starts_digit_one n n (c ∷ rest))
      (take_digits-digits_onto (suc n) n (c ∷ rest) (omega arith) ∙ take_digits_ends n c rest ends)
      small)

pub split_lines-append :
    (cur s rest : Bytes)
    → All (λ x. (x == b'\n') ≡ false) s
    → split_lines cur (s ++ b'\n' ∷ rest) ≡ (cur ++ s) ∷ split_lines [] rest
unfolding split_lines
split_lines-append cur [] rest free = rw (append-nil) refl
split_lines-append cur (x ∷ s) rest free =
    simp (free.0, split_lines-append (cur ++ x ∷ []) s rest free.1, append_assoc)

pub strip_cr-none : (s : Bytes) → All (λ x. (x == b'\r') ≡ false) s → strip_cr s ≡ s
unfolding strip_cr
strip_cr-none [] free = refl
strip_cr-none (c ∷ []) free = simp (free.0)
strip_cr-none (c ∷ d ∷ s) free = ap (◌∷◌ c) (strip_cr-none (d ∷ s) free.1)

pub c_str-none : (s : Bytes) → All (λ x. (x == 0) ≡ false) s → c_str s ≡ s
unfolding c_str
c_str-none [] free = refl
c_str-none (c ∷ s) free = simp (free.0, c_str-none s free.1)

-- Text that does not start with a space.
abbrev pub starts_space : Bytes → Bool
starts_space [] = false
starts_space (c ∷ cs) = is_space c

pub skip_spaces-none :
    (s rest : Bytes)
    → is_empty s ≡ false
    → starts_space s ≡ false
    → skip_spaces (s ++ rest) ≡ s ++ rest
unfolding skip_spaces
skip_spaces-none [] rest some_there starts = absurd (ground arith)
skip_spaces-none (c ∷ s) rest some_there starts = simp starts

take_word-append :
    (room : ℕ) (s : Bytes) (c : ℕ) (rest : Bytes)
    → All (λ x. is_space x ≡ false) s
    → is_space c ≡ true
    → length s ≤ room
    → take_word room (s ++ c ∷ rest) ≡ (s, c ∷ rest)
unfolding take_word
take_word-append zero [] c rest free stops room = refl
take_word-append zero (x ∷ s) c rest free stops room = absurd (omega arith)
take_word-append (suc n) [] c rest free stops room = simp stops
take_word-append (suc n) (x ∷ s) c rest free stops room =
    simp (free.0, take_word-append n s c rest free.1 stops (omega arith))

starts_space-all : (s : Bytes) → All (λ x. is_space x ≡ false) s → starts_space s ≡ false
starts_space-all [] free = refl
starts_space-all (x ∷ s) free = free.0

pub scan_word-append :
    (room : ℕ) (s : Bytes) (c : ℕ) (rest : Bytes)
    → is_empty s ≡ false
    → All (λ x. is_space x ≡ false) s
    → is_space c ≡ true
    → length s ≤ room
    → scan_word room (s ++ c ∷ rest) ≡ some (s, c ∷ rest)
unfolding scan_word not_empty
scan_word-append room s c rest some_there free stops fits = simp (
  skip_spaces-none s (c ∷ rest) some_there (starts_space-all s free),
  take_word-append room s c rest free stops fits,
  some_there,
)
