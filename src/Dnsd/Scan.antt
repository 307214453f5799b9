-- ===== src/Dnsd/Scan.antt =====
-- What `getline`, `sscanf` and `fscanf` of the C and C++ libraries give for the formats of
-- Homework/2/dnsd/src/{zone,config}.cpp.
pub mod Reads
use nycu_intro_np.Prelude.{
  ℕ, zero, suc, ◌+◌, ◌-◌, ◌*◌, ◌%◌, ◌^◌, Bool, true, false, ◌&&◌, ◌||◌, ◌==◌, ltb, leb, List, [],
  ◌∷◌, ◌++◌, Option, none, some, Bytes, is_empty, if◌then◌else◌, c_str,
}
use nycu_intro_np.Dnsd.Record.{skip_spaces, take_word, take_digits, starts_digit}

-- The lines of a file; `cur` is the line so far. What follows the last newline is a line unless it is
-- empty.
unfoldable pub split_lines : Bytes → Bytes → List Bytes
split_lines cur [] = if is_empty cur then [] else cur ∷ []
split_lines cur (c ∷ cs) =
    let next = split_lines [] cs in
    let more = split_lines (cur ++ c ∷ []) cs in if c == b'\n' then cur ∷ next else more

-- The carriage return at the end of a line is dropped.
unfoldable pub strip_cr : Bytes → Bytes
strip_cr [] = []
strip_cr (c ∷ []) = if c == b'\r' then [] else c ∷ []
strip_cr (c ∷ d ∷ line) = c ∷ strip_cr (d ∷ line)

-- As many characters as there is room for, up to one that stops.
unfoldable pub take_until : (ℕ → Bool) → ℕ → Bytes → Bytes × Bytes
take_until stop zero text = ([], text)
take_until stop (suc room) [] = ([], [])
take_until stop (suc room) (c ∷ cs) =
    let (w, rest) = take_until stop room cs in if stop c then ([], c ∷ cs) else (c ∷ w, rest)

unfoldable pub not_empty : Bytes × Bytes → Option (Bytes × Bytes)
not_empty (w, rest) = if is_empty w then none else some (w, rest)

-- `%255[^,]` and the like: one character or more.
unfoldable pub scan_set : (ℕ → Bool) → ℕ → Bytes → Option (Bytes × Bytes)
scan_set stop room text = not_empty (take_until stop room text)

-- A character of the format.
unfoldable pub scan_char : ℕ → Bytes → Option Bytes
scan_char c [] = none
scan_char c (d ∷ text) = if d == c then some text else none

-- Digits that make a number up to `most`, as the number that `value` makes of it.
unfoldable pub scan_digits : ℕ → (ℕ → ℕ) → Bytes → Option (ℕ × Bytes)
scan_digits most value text =
    let (n, rest) = take_digits 0 text in
    if starts_digit text && leb n most then some (value n, rest) else none

-- `%d` to a number of 32 bits without a sign; `none` too where no int holds the number.
unfoldable pub scan_signed : Bytes → Option (ℕ × Bytes)
scan_signed [] = none
scan_signed (c ∷ text) =
    if c == b'-'
    then scan_digits (2 ^ 31) (λ n. (2 ^ 32 - n) % 2 ^ 32) text
    else if c == b'+'
    then scan_digits (2 ^ 31 - 1) (λ n. n) text
    else scan_digits (2 ^ 31 - 1) (λ n. n) (c ∷ text)

unfoldable pub scan_int : Bytes → Option (ℕ × Bytes)
scan_int text = scan_signed (skip_spaces text)

-- `%19s` and the like.
unfoldable pub scan_word : ℕ → Bytes → Option (Bytes × Bytes)
scan_word room text = not_empty (take_word room (skip_spaces text))
