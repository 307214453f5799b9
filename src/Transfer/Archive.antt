-- ===== src/Transfer/Archive.antt =====
-- The files in one buffer: `orig_data` of client.cpp, and the loop that takes it apart in server.cpp
-- and extract.cpp.
use nycu_intro_np.Prelude.{
  ℕ, zero, suc, ◌+◌, ◌*◌, ◌/◌, ◌%◌, ◌^◌, ◌≤◌, ◌<◌, ◌≡◌, refl, ap, ◌∙◌, List, [], ◌∷◌, ◌++◌, Bytes,
  Option, none, some, length, take, drop, arith, All, length-append, append-nil, sym,
  take-length-append, drop-length-append, leb, if◌then◌else◌,
}

pub record File : Type 0 where
  pub filename : ℕ
  pub contents : Bytes

unfoldable pub put_le32 : ℕ → Bytes
put_le32 n = n % 256 ∷ n / 256 % 256 ∷ n / 2 ^ 16 % 256 ∷ n / 2 ^ 24 % 256 ∷ []

-- `init_t` of a file, then its bytes. A size has 32 bits.
unfoldable pub put_file : File → Bytes
put_file f = put_le32 f.filename ++ put_le32 (length f.contents % 2 ^ 32) ++ f.contents

unfoldable pub pack : List File → Bytes
pack [] = []
pack (f ∷ fs) = put_file f ++ pack fs

unfoldable pub le32 : ℕ → ℕ → ℕ → ℕ → ℕ
le32 a b c d = a + b * 256 + c * 2 ^ 16 + d * 2 ^ 24

-- The file at the pointer, and what lies behind it; `none` where the program reads past the end.
unfoldable pub get_file : Bytes → Option (File × Bytes)
get_file (a ∷ b ∷ c ∷ d ∷ e ∷ f ∷ g ∷ h ∷ rest) =
    let filesize = le32 e f g h in
    if leb filesize (length rest)
    then some
        (record { filename = le32 a b c d; contents = take filesize rest }, drop filesize rest)
    else none
get_file _ = none

unfoldable pub onto : File → Option (List File) → Option (List File)
onto f none = none
onto f (some fs) = some (f ∷ fs)

-- A file and what the next rounds write.
unfoldable pub and_rest : Option (File × Bytes) → (Bytes → Option (List File)) → Option (List File)
and_rest none go = none
and_rest (some (f, rest)) go = onto f (go rest)

-- The files that the loop writes. Each round takes one unit of fuel and eight bytes or more.
unfoldable pub unpack_loop : ℕ → Bytes → Option (List File)
unpack_loop fuel [] = some []
unpack_loop zero (x ∷ xs) = none
unpack_loop (suc fuel) (x ∷ xs) = and_rest (get_file (x ∷ xs)) (unpack_loop fuel)

unfoldable pub unpack : Bytes → Option (List File)
unpack bytes = unpack_loop (length bytes) bytes

-- The same loop in extract.cpp, over a file whose size is kept in 32 bits.
unfoldable pub extract : Bytes → Option (List File)
extract bytes = unpack_loop (length bytes) (take (length bytes % 2 ^ 32) bytes)

-- What 32 bits hold: the number of a file and its size.
abbrev pub FitsInit : File → Type 0
FitsInit f = (f.filename < 2 ^ 32) × (length f.contents < 2 ^ 32)

pub le32_lem :
    (n : ℕ) → n < 2 ^ 32 → le32 (n % 256) (n / 256 % 256) (n / 2 ^ 16 % 256) (n / 2 ^ 24 % 256) ≡ n
unfolding le32
le32_lem n h = omega arith

get_file-put_file :
    (f : File) (rest : Bytes) → FitsInit f → get_file (put_file f ++ rest) ≡ some (f, rest)
unfolding get_file put_file put_le32
get_file-put_file f rest (hn, hs) =
    let size : length f.contents % 2 ^ 32 ≡ length f.contents = omega arith in
    let n = length f.contents in
    rw
      (
        size,
        le32_lem f.filename hn,
        le32_lem n hs,
        take-length-append f.contents rest,
        drop-length-append f.contents rest,
      )
      (ground (arith, length-append f.contents rest))

unpack_loop-get_file :
    (fuel x : ℕ) (xs : Bytes) (f : File) (rest : Bytes)
    → get_file (x ∷ xs) ≡ some (f, rest)
    → unpack_loop (suc fuel) (x ∷ xs) ≡ onto f (unpack_loop fuel rest)
unfolding unpack_loop and_rest
unpack_loop-get_file fuel x xs f rest h = ap (λ o. and_rest o (unpack_loop fuel)) h

unpack_loop-cons :
    (fuel : ℕ) (f : File) (rest : Bytes)
    → FitsInit f
    → unpack_loop (suc fuel) (put_file f ++ rest) ≡ onto f (unpack_loop fuel rest)
unfolding put_file put_le32
unpack_loop-cons fuel f rest h = unpack_loop-get_file fuel _ _ f rest (get_file-put_file f rest h)

unpack_loop-pack :
    (fs : List File) (fuel : ℕ)
    → All FitsInit fs
    → length fs ≤ fuel
    → unpack_loop fuel (pack fs) ≡ some fs
unfolding pack unpack_loop onto
unpack_loop-pack [] zero h le = refl
unpack_loop-pack [] (suc fuel) h le = refl
unpack_loop-pack (f ∷ fs) zero h le = absurd (omega arith)
unpack_loop-pack (f ∷ fs) (suc fuel) h le =
    unpack_loop-cons fuel f (pack fs) h.0 ∙ ap (onto f) (unpack_loop-pack fs fuel h.1 (omega arith))

length-pack : (fs : List File) → length fs ≤ length (pack fs)
unfolding pack put_file put_le32
length-pack [] = omega arith
length-pack (f ∷ fs) =
    let files = length-append (put_file f) (pack fs) in omega (arith, files, length-pack fs)

-- The files that the client packs are the ones that the server writes, in order, where numbers and
-- sizes of files are below 2 ^ 32. The loop never reads past the end of the buffer.
pub unpack-pack : (fs : List File) → All FitsInit fs → unpack (pack fs) ≡ some fs
unfolding unpack
unpack-pack fs h = unpack_loop-pack fs (length (pack fs)) h (length-pack fs)

-- What the client packs is what extract.cpp takes apart, if it has fewer than 2 ^ 32 bytes.
extract-pack :
    (fs : List File) → All FitsInit fs → length (pack fs) < 2 ^ 32 → extract (pack fs) ≡ some fs
unfolding extract
extract-pack fs h small =
    let size : length (pack fs) % 2 ^ 32 ≡ length (pack fs) = omega arith in
    let whole =
      ap (take (length (pack fs))) (sym (append-nil (pack fs))) ∙ take-length-append (pack fs) [] in
    ap (λ n. unpack_loop (length (pack fs)) (take n (pack fs))) size
    ∙ ap (unpack_loop (length (pack fs))) whole
    ∙ unpack_loop-pack fs (length (pack fs)) h (length-pack fs)
