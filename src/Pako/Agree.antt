-- ===== src/Pako/Agree.antt =====
-- The two unpackers read the same.
pub mod Fields
pub mod Unpack
use nycu_intro_np.Prelude.{
  ℕ, zero, suc, ◌+◌, ◌-◌, ◌*◌, ◌/◌, ◌%◌, ◌^◌, ◌≤◌, ◌<◌, ◌≡◌, refl, sym, ap, ◌∙◌, subst, List, [],
  ◌∷◌, ◌++◌, Bytes, reverse, length, take, drop, replicate, byte_at, byte_at_padded, byte_at-take,
  byte_at-drop, length-append, length-take, length-drop, length-replicate, Option, none, some, Bool,
  true, false, ◌==◌, ltb, leb, equal, ltb→lt, if◌then◌else◌, c_str, All, arith, Bool-cases, inl,
  inr, ◌⊎◌, Option-cases,
}
use nycu_intro_np.Pako.Checksum.{byte_checksum, word_checksum, checksums_agree}
use nycu_intro_np.Pako.Structs.{le, be, memory, slice}
use nycu_intro_np.Pako.Plain.{readstr, seek, behind, read_le, read_be}

-- Texts of one length with the same byte at every index are the same.
pub bytes_ext :
    (xs ys : Bytes) → length xs ≡ length ys → ((k : ℕ) → byte_at xs k ≡ byte_at ys k) → xs ≡ ys
unfolding byte_at
bytes_ext [] [] e h = refl
bytes_ext [] (y ∷ ys) e h = absurd (omega arith)
bytes_ext (x ∷ xs) [] e h = absurd (omega arith)
bytes_ext (x ∷ xs) (y ∷ ys) e h =
    let rest = bytes_ext xs ys (omega arith) (λ k. h (suc k)) in
    let first : x ≡ y = h 0 in ground (arith, rest)

-- A number goes by its bytes, zeros behind it left aside.
pub le_ext : (xs ys : Bytes) → ((k : ℕ) → byte_at xs k ≡ byte_at ys k) → le xs ≡ le ys
unfolding le byte_at
le_ext [] [] h = refl
le_ext [] (y ∷ ys) h =
    let rest = le_ext [] ys (λ k. h (suc k)) in let first : 0 ≡ y = h 0 in omega arith
le_ext (x ∷ xs) [] h =
    let rest = le_ext xs [] (λ k. h (suc k)) in let first : x ≡ 0 = h 0 in omega arith
le_ext (x ∷ xs) (y ∷ ys) h =
    let rest = le_ext xs ys (λ k. h (suc k)) in let first : x ≡ y = h 0 in omega arith

-- So does a C string, if a NUL ends it.
pub c_str_ext :
    (xs ys : Bytes)
    → ((k : ℕ) → k ≤ length (c_str xs) → byte_at xs k ≡ byte_at ys k)
    → c_str xs ≡ c_str ys
unfolding c_str byte_at
c_str_ext [] [] h = refl
c_str_ext [] (y ∷ ys) h = let first : 0 ≡ y = h 0 (omega arith) in ground arith
c_str_ext (x ∷ xs) [] h = let first : x ≡ 0 = h 0 (omega arith) in ground arith
c_str_ext (x ∷ xs) (y ∷ ys) h =
    let first : x ≡ y = h 0 (omega arith) in
    elim (Bool-cases (x == 0)) [
      | inl nul ↦ ground (arith, nul)
      | inr more ↦
          let rest = c_str_ext xs ys (λ k le. h (suc k) (rw more (omega arith))) in
          ground (arith, more, rest)
    ]

pub byte_at-take_out : (n : ℕ) (xs : Bytes) (k : ℕ) → n ≤ k → byte_at (take n xs) k ≡ 0
unfolding byte_at
byte_at-take_out zero xs k h = refl
byte_at-take_out (suc n) [] k h = refl
byte_at-take_out (suc n) (x ∷ xs) zero h = absurd (omega arith)
byte_at-take_out (suc n) (x ∷ xs) (suc k) h = byte_at-take_out n xs k (omega arith)

-- The n bytes from an offset, and zeros behind.
abbrev pub window : Bytes → ℕ → ℕ → ℕ → ℕ
window bytes off n k = if ltb k n then byte_at bytes (off + k) else 0

pub window-take :
    (bytes : Bytes) (off n k : ℕ) → byte_at (take n (drop off bytes)) k ≡ window bytes off n k
window-take bytes off n k = elim (Bool-cases (ltb k n)) [
  | inl lt ↦
      let a = byte_at-take n (drop off bytes) k (ltb→lt k n lt) in
      let b = byte_at-drop off bytes k in ground (arith, lt, a, b)
  | inr ge ↦
      let a = byte_at-take_out n (drop off bytes) k (ground (arith, ge)) in ground (arith, ge, a)
]

pub window-readstr :
    (bytes : Bytes) (off n k : ℕ) → byte_at (readstr bytes off n) k ≡ window bytes off n k
unfolding readstr
window-readstr bytes off n k =
    byte_at_padded _ (take n (drop off bytes)) k ∙ window-take bytes off n k

pub window-memory :
    (bytes : Bytes) (off n k : ℕ)
    → byte_at (take n (drop off (memory bytes))) k ≡ window bytes off n k
unfolding memory
window-memory bytes off n k =
    let zeros = ((length bytes + 2 ^ 64 - 1) % 2 ^ 64 / 8 + 1) * 8 % 2 ^ 64 - length bytes in
    let same = byte_at_padded zeros bytes (off + k) in
    window-take (bytes ++ replicate zeros 0) off n k ∙ ground (arith, same)

length-readstr : (bytes : Bytes) (off n : ℕ) → length (readstr bytes off n) ≡ n + 32
unfolding readstr
length-readstr bytes off n =
    let part = take n (drop off bytes) in
    omega (
      arith,
      length-append part (replicate (n + 32 - length part) 0),
      length-replicate {A = ℕ} (n + 32 - length part) 0,
      length-take n (drop off bytes),
    )

-- What lies in memory is what is read from the file.
pub read_same :
    (bytes : Bytes) (off n : ℕ)
    → off + n ≤ length (memory bytes)
    → take n (drop off (memory bytes)) ≡ take n (readstr bytes off n)
read_same bytes off n room =
    bytes_ext (take n (drop off (memory bytes))) (take n (readstr bytes off n))
      (omega (
        arith,
        length-take n (drop off (memory bytes)),
        length-take n (readstr bytes off n),
        length-drop off (memory bytes),
        length-readstr bytes off n,
      ))
      (λ k.
        window-memory bytes off n k
        ∙ sym (elim (Bool-cases (ltb k n)) [
          | inl lt ↦
              byte_at-take n (readstr bytes off n) k (ltb→lt k n lt) ∙ window-readstr bytes off n k
          | inr ge ↦
              let a = byte_at-take_out n (readstr bytes off n) k (ground (arith, ge)) in
              ground (arith, ge, a)
        ]))
