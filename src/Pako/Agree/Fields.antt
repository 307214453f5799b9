-- ===== src/Pako/Agree/Fields.antt =====
-- The fields of the structs of an archive, as both programs read them.
use nycu_intro_np.Prelude.{
  ℕ, ◌+◌, ◌-◌, ◌*◌, ◌/◌, ◌%◌, ◌^◌, ◌≤◌, ◌<◌, ◌≡◌, refl, sym, ap, ◌∙◌, [], ◌∷◌, Bytes, length, take,
  drop, replicate, byte_at, byte_at_padded, byte_at-take, byte_at-drop, length-append, length-take,
  length-drop, length-replicate, Option, none, some, ltb, ltb→lt, c_str, arith, Bool-cases, inl,
  inr,
}
use nycu_intro_np.Pako.Structs.{le, be, memory, slice, text_at, pointer, ◌>>=◌}
use nycu_intro_np.Pako.Plain.{readstr, seek, behind, read_le, read_be, max_size}
use nycu_intro_np.Pako.Agree.{
  bytes_ext, le_ext, c_str_ext, window, window-readstr, window-memory, window-take,
  byte_at-take_out, read_same,
}

pub bind-some {ℓ κ} :
    {A : Type ℓ} {B : Type κ} (m : Option A) (f : A → Option B) (b : B)
    → (m >>= f) ≡ some b
    → (a : A) × (m ≡ some a) × (f a ≡ some b)
bind-some none f b h = cc
bind-some (some a) f b h = (a, refl, h)

pub some-injective {ℓ} : {A : Type ℓ} (a b : A) → some a ≡ some b → a ≡ b
some-injective a b h = cc

pub slice-some :
    (off n : ℕ) (mem part : Bytes)
    → slice off n mem ≡ some part
    → (off + n ≤ length mem) × (part ≡ take n (drop off mem))
unfolding slice
slice-some off n mem part h = ground arith

pub text_at-some :
    (off : ℕ) (mem text : Bytes)
    → text_at off mem ≡ some text
    → (off + length text < length mem) × (text ≡ c_str (drop off mem))
unfolding text_at
text_at-some off mem text h = ground arith

-- A signed sum that points into a file below 2 ^ 31 is the unsigned one that is passed as an int.
seek-pointer :
    (a b off pos : ℕ)
    → a < 2 ^ 32
    → b < 2 ^ 32
    → off < 2 ^ 31
    → pointer a b ≡ some off
    → seek ((a + b) % 2 ^ 32) pos ≡ off
unfolding seek pointer
seek-pointer a b off pos ha hb ho h = ground arith

pub behind-add : (bytes : Bytes) (pos n : ℕ) → pos + n ≤ length bytes → behind bytes pos n ≡ pos + n
unfolding behind
behind-add bytes pos n h = omega (arith, length-take n (drop pos bytes), length-drop pos bytes)

pub length-memory :
    (bytes : Bytes)
    → 0 < length bytes
    → length bytes < 2 ^ 32
    → (length bytes ≤ length (memory bytes)) × (length (memory bytes) ≤ length bytes + 8)
unfolding memory
length-memory bytes pos small =
    let zeros = ((length bytes + 2 ^ 64 - 1) % 2 ^ 64 / 8 + 1) * 8 % 2 ^ 64 - length bytes in
    let a = length-append bytes (replicate zeros 0) in
    let b = length-replicate {A = ℕ} zeros 0 in (omega arith, omega arith)

-- A C string that both programs read.
pub text_same :
    (bytes text : Bytes) (off : ℕ)
    → text_at off (memory bytes) ≡ some text
    → length text < max_size
    → c_str (readstr bytes off max_size) ≡ text
text_same bytes text off h short =
    let (inside, e) = text_at-some off (memory bytes) text h in
    sym (
      e
      ∙ c_str_ext (drop off (memory bytes)) (readstr bytes off max_size) (λ k le.
        let lt : k < max_size = omega (arith, ap length e) in
        let a = byte_at-drop off (memory bytes) k in
        let b = byte_at-memory (off + k) in
        let c = window-readstr bytes off max_size k in ground (arith, a, b, c)))
  where
    byte_at-memory : (k : ℕ) → byte_at (memory bytes) k ≡ byte_at bytes k
    byte_at-memory k = unfold memory in byte_at_padded _ bytes k

-- A field of a struct of w bytes, by itself.
field_same :
    (bytes : Bytes) (p w o n : ℕ)
    → o + n ≤ w
    → p + w ≤ length (memory bytes)
    → take n (drop o (take w (drop p (memory bytes)))) ≡ take n (readstr bytes (p + o) n)
field_same bytes p w o n fits room =
    bytes_ext (take n (drop o (take w (drop p (memory bytes)))))
      (take n (drop (p + o) (memory bytes)))
      (omega (
        arith,
        length-take n (drop o (take w (drop p (memory bytes)))),
        length-drop o (take w (drop p (memory bytes))),
        length-take w (drop p (memory bytes)),
        length-drop p (memory bytes),
        length-take n (drop (p + o) (memory bytes)),
        length-drop (p + o) (memory bytes),
      ))
      (λ k.
        window-take (take w (drop p (memory bytes))) o n k
        ∙ inner k
        ∙ sym (window-memory bytes (p + o) n k))
    ∙ read_same bytes (p + o) n (omega arith)
  where
    inner : (k : ℕ) → window (take w (drop p (memory bytes))) o n k ≡ window bytes (p + o) n k
    inner k =
        let a = window-memory bytes p w (o + k) in
        let e : p + (o + k) ≡ p + o + k = omega arith in
        let b = ap (byte_at bytes) e in ground (arith, a, b)

le_bound : (xs : Bytes) → length xs ≤ 4 → ((k : ℕ) → byte_at xs k < 256) → le xs < 2 ^ 32
unfolding le byte_at
le_bound [] h b = omega arith
le_bound (x ∷ []) h b = omega (arith, b 0)
le_bound (x ∷ y ∷ []) h b = omega (arith, b 0, b 1)
le_bound (x ∷ y ∷ z ∷ []) h b = omega (arith, b 0, b 1, b 2)
le_bound (x ∷ y ∷ z ∷ w ∷ []) h b = omega (arith, b 0, b 1, b 2, b 3)
le_bound (x ∷ y ∷ z ∷ w ∷ v ∷ xs) h b = absurd (omega arith)

-- Every byte of the file is one.
abbrev pub AreBytes : Bytes → Type 0
AreBytes bytes = (k : ℕ) → byte_at bytes k < 256

-- A number in memory is the one that is read from the file.
pub number_same :
    (bytes : Bytes) (pos : ℕ)
    → AreBytes bytes
    → (read_le bytes pos ≡ le (take 4 (readstr bytes pos 4)))
      × (le (take 4 (readstr bytes pos 4)) < 2 ^ 32)
unfolding read_le
number_same bytes pos b =
    let same : le (take 8 (readstr bytes pos 4)) ≡ le (take 4 (readstr bytes pos 4)) =
      le_ext (take 8 (readstr bytes pos 4)) (take 4 (readstr bytes pos 4)) eight_four in
    let small : le (take 4 (readstr bytes pos 4)) < 2 ^ 32 =
      le_bound (take 4 (readstr bytes pos 4)) (omega (arith, length-take 4 (readstr bytes pos 4)))
        four_bytes in
    (omega arith, small)
  where
    four : (k : ℕ) → byte_at (take 4 (readstr bytes pos 4)) k ≡ window bytes pos 4 k
    four k = elim (Bool-cases (ltb k 4)) [
      | inl lt ↦
          byte_at-take 4 (readstr bytes pos 4) k (ltb→lt k 4 lt) ∙ window-readstr bytes pos 4 k
      | inr ge ↦
          let a = byte_at-take_out 4 (readstr bytes pos 4) k (ground (arith, ge)) in
          ground (arith, ge, a)
    ]

    eight_four :
        (k : ℕ)
        → byte_at (take 8 (readstr bytes pos 4)) k ≡ byte_at (take 4 (readstr bytes pos 4)) k
    eight_four k = elim (Bool-cases (ltb k 8)) [
      | inl lt ↦
          byte_at-take 8 (readstr bytes pos 4) k (ltb→lt k 8 lt)
          ∙ window-readstr bytes pos 4 k
          ∙ sym (four k)
      | inr ge ↦
          let a = byte_at-take_out 8 (readstr bytes pos 4) k (ground (arith, ge)) in
          let c = byte_at-take_out 4 (readstr bytes pos 4) k (ground (arith, ge)) in a ∙ sym c
    ]

    four_bytes : (k : ℕ) → byte_at (take 4 (readstr bytes pos 4)) k < 256
    four_bytes k = let w = four k in let c = b (pos + k) in ground arith

-- A field of a struct, at the position where it is read from the file.
pub struct_field :
    (bytes meta : Bytes) (p w o n pos : ℕ)
    → meta ≡ take w (drop p (memory bytes))
    → p + w ≤ length (memory bytes)
    → o + n ≤ w
    → pos ≡ p + o
    → take n (drop o meta) ≡ take n (readstr bytes pos n)
struct_field bytes meta p w o n pos m room fits e =
    ap (λ x. take n (drop o x)) m
    ∙ field_same bytes p w o n fits room
    ∙ ap (λ x. take n (readstr bytes x n)) (sym e)

-- A section of the archive and an offset in it, as both programs add them.
pub offset_same :
    (bytes field : Bytes) (section pos off before : ℕ)
    → AreBytes bytes
    → section < 2 ^ 32
    → off < 2 ^ 31
    → field ≡ take 4 (readstr bytes pos 4)
    → pointer section (le field) ≡ some off
    → seek ((section + read_le bytes pos) % 2 ^ 32) before ≡ off
offset_same bytes field section pos off before b hs ho e h =
    let (same, small) = number_same bytes pos b in
    let number : le field ≡ read_le bytes pos = ap le e ∙ sym same in
    seek-pointer section (read_le bytes pos) off before hs (omega arith) ho
      (ap (pointer section) (sym number) ∙ h)

-- The content of a file that both programs read.
pub content_same :
    (bytes field cont : Bytes) (pos off : ℕ)
    → field ≡ take 4 (readstr bytes pos 4)
    → slice off (be field) (memory bytes) ≡ some cont
    → take (read_be bytes pos) (readstr bytes off (read_be bytes pos)) ≡ cont
unfolding read_be
content_same bytes field cont pos off e h =
    let (room, c) = slice-some off (be field) (memory bytes) cont h in
    ap (λ w. take (be w) (readstr bytes off (be w))) (sym e)
    ∙ sym (c ∙ read_same bytes off (be field) room)
