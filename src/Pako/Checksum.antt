-- ===== src/Pako/Checksum.antt =====
-- The checksum of a file: `check_checksum` of unpacker-struct.c and the loop of unpacker.c. A 64-bit
-- word is the list of its eight bytes in the order of memory, as the union CheckSum has it.
use Prim.Native.Nat.{digits, differ, bit_xor-bitwise}
use nycu_intro_np.Prelude.{
  ℕ, zero, suc, ◌-◌, ◌/◌, ◌%◌, ◌≤◌, ◌≡◌, refl, sym, ap, ◌∙◌, [], ◌∷◌, ◌++◌, Bytes, length, take,
  drop, replicate, bit_xor, leb, ltb, true, if◌then◌else◌, arith, length-drop, append-nil,
  Bool-cases, inl, inr,
}

-- `^=` on words, or on as many bytes of a word as the second list has.
unfoldable pub xor_into : Bytes → Bytes → Bytes
xor_into [] bs = []
xor_into (a ∷ as') [] = a ∷ as'
xor_into (a ∷ as') (b ∷ bs) = bit_xor a b ∷ xor_into as' bs

abbrev pub zero_word : Bytes
zero_word = 0 ∷ 0 ∷ 0 ∷ 0 ∷ 0 ∷ 0 ∷ 0 ∷ 0 ∷ []

-- Both loops of `check_checksum`: the whole words, then the bytes that are left. A round takes one
-- unit of fuel.
unfoldable pub sum_bytes : ℕ → Bytes → Bytes → Bytes
sum_bytes zero acc content = xor_into acc content
sum_bytes (suc fuel) acc content =
    let rest = sum_bytes fuel (xor_into acc (take 8 content)) (drop 8 content) in
    if leb 8 (length content) then rest else xor_into acc content

unfoldable pub byte_checksum : Bytes → Bytes
byte_checksum content = sum_bytes (length content) zero_word content

-- The loop of unpacker.c: words until the size is reached, the last one filled up by the zeros that
-- stand behind the content.
unfoldable pub sum_words : ℕ → Bytes → Bytes → Bytes
sum_words zero acc content = acc
sum_words (suc fuel) acc content =
    let rest =
      sum_words fuel (xor_into acc (take 8 content ++ replicate (8 - length content) 0))
        (drop 8 content) in
    if ltb 0 (length content) then rest else acc

unfoldable pub word_checksum : Bytes → Bytes
word_checksum content = sum_words (length content) zero_word content

differ-zero : (x : ℕ) → differ x 0 ≡ x
differ-zero zero = refl
differ-zero (suc x) = refl

xor_digits : (n a : ℕ) → a ≤ n → digits (λ b. b) differ n a 0 ≡ a
xor_digits zero zero h = refl
xor_digits zero (suc a) h = absurd (omega arith)
xor_digits (suc n) zero h = refl
xor_digits (suc n) (suc a) h =
    omega (arith, xor_digits n (suc a / 2) (omega arith), differ-zero (suc a % 2))

bit_xor-zero : (a : ℕ) → bit_xor a 0 ≡ a
bit_xor-zero a = (λ i. bit_xor-bitwise a 0 i) ∙ xor_digits a a (omega arith)

xor_into_nil : (acc : Bytes) → xor_into acc [] ≡ acc
unfolding xor_into
xor_into_nil [] = refl
xor_into_nil (a ∷ acc) = refl

-- Zeros behind the bytes change nothing.
xor_into-zeros : (acc bs : Bytes) (n : ℕ) → xor_into acc (bs ++ replicate n 0) ≡ xor_into acc bs
unfolding xor_into
xor_into-zeros [] bs n = refl
xor_into-zeros (a ∷ acc) [] zero = refl
xor_into-zeros (a ∷ acc) [] (suc n) =
    let rest = xor_into-zeros acc [] n ∙ xor_into_nil acc in ground (arith, bit_xor-zero a, rest)
xor_into-zeros (a ∷ acc) (b ∷ bs) n = ap (◌∷◌ (bit_xor a b)) (xor_into-zeros acc bs n)

take_short : (n : ℕ) (xs : Bytes) → length xs ≤ n → take n xs ≡ xs
take_short zero [] h = refl
take_short zero (x ∷ xs) h = absurd (omega arith)
take_short (suc n) [] h = refl
take_short (suc n) (x ∷ xs) h = ap (◌∷◌ x) (take_short n xs (omega arith))

drop_short : (n : ℕ) (xs : Bytes) → length xs ≤ n → drop n xs ≡ []
drop_short zero [] h = refl
drop_short zero (x ∷ xs) h = absurd (omega arith)
drop_short (suc n) [] h = refl
drop_short (suc n) (x ∷ xs) h = drop_short n xs (omega arith)

sum_words-nil : (fuel : ℕ) (acc : Bytes) → sum_words fuel acc [] ≡ acc
unfolding sum_words
sum_words-nil zero acc = refl
sum_words-nil (suc fuel) acc = refl

sums_agree :
    (f g : ℕ) (acc content : Bytes)
    → length content ≤ f
    → length content ≤ g
    → sum_bytes f acc content ≡ sum_words g acc content
unfolding sum_bytes sum_words
sums_agree zero g acc [] hf hg = xor_into_nil acc ∙ sym (sum_words-nil g acc)
sums_agree zero g acc (c ∷ content) hf hg = absurd (omega arith)
sums_agree (suc f) zero acc [] hf hg = xor_into_nil acc
sums_agree (suc f) zero acc (c ∷ content) hf hg = absurd (omega arith)
sums_agree (suc f) (suc g) acc [] hf hg = xor_into_nil acc
sums_agree (suc f) (suc g) acc (c ∷ content) hf hg =
    elim (Bool-cases (leb 8 (length (c ∷ content)))) [
      | inl whole ↦
          let none_left : 8 - length (c ∷ content) ≡ 0 = ground arith in
          let more : ltb 0 (length (c ∷ content)) ≡ true = ground arith in
          let ih =
            sums_agree f g (xor_into acc (take 8 (c ∷ content))) (drop 8 (c ∷ content))
              (omega (arith, length-drop 8 (c ∷ content)))
              (omega (arith, length-drop 8 (c ∷ content))) in
          let same =
            ap (λ w. sum_words g (xor_into acc w) (drop 8 (c ∷ content)))
              (sym (
                ap (λ n. take 8 (c ∷ content) ++ replicate n 0) none_left
                ∙ append-nil (take 8 (c ∷ content)))) in
          rw (whole, more) (ih ∙ same)
      | inr part ↦
          let short : length (c ∷ content) ≤ 8 = ground arith in
          let more : ltb 0 (length (c ∷ content)) ≡ true = ground arith in
          let word = take_short 8 (c ∷ content) short in
          let zeros = xor_into-zeros acc (c ∷ content) (8 - length (c ∷ content)) in
          let last =
            ap
              (λ w.
                sum_words g (xor_into acc (w ++ replicate (8 - length (c ∷ content)) 0))
                  (drop 8 (c ∷ content)))
              word
            ∙ ap (sum_words g _) (drop_short 8 (c ∷ content) short)
            ∙ sum_words-nil g _
            ∙ zeros in
          rw (part, more) (sym last)
    ]

-- The two programs compute the same checksum of every content.
pub checksums_agree : (content : Bytes) → byte_checksum content ≡ word_checksum content
unfolding byte_checksum word_checksum
checksums_agree content =
    sums_agree (length content) (length content) zero_word content (omega arith) (omega arith)
