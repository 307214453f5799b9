-- ===== src/Pako/Agree/Unpack.antt =====
-- The entries and files of an archive, as both programs read them.
use nycu_intro_np.Prelude.{
  ℕ, zero, suc, ◌+◌, ◌*◌, ◌%◌, ◌^◌, ◌≤◌, ◌<◌, ◌≡◌, refl, sym, ap, ◌∙◌, subst, List, [], ◌∷◌, Bytes,
  reverse, length, take, drop, Option, none, some, ◌==◌, equal, c_str, All, arith, Bool-cases, inl,
  inr,
}
use nycu_intro_np.Pako.Checksum.{byte_checksum, word_checksum, checksums_agree}
use nycu_intro_np.Pako.Structs
use nycu_intro_np.Pako.Structs.{
  le, be, memory, slice, text_at, pointer, Header, File, ◌>>=◌, Unpacked, done, fault,
  unknown_magic, get_header, finished, unpack_header, magic,
}
use nycu_intro_np.Pako.Plain
use nycu_intro_np.Pako.Plain.{readstr, seek, behind, read_le, read_be, max_size}
use nycu_intro_np.Pako.Agree.Fields.{
  bind-some, some-injective, slice-some, text_at-some, behind-add, length-memory, text_same,
  number_same, struct_field, offset_same, content_same, AreBytes,
}

-- An entry within the file.
get_file_same :
    (bytes : Bytes) (h : Header) (i : ℕ) (f : File)
    → AreBytes bytes
    → length bytes + 8 < 2 ^ 31
    → h.off_str < 2 ^ 32
    → h.off_dat < 2 ^ 32
    → 36 + i * 20 ≤ length bytes
    → Structs.get_file (memory bytes) h i ≡ some f
    → length f.filename < max_size
    → Plain.get_file bytes h.off_str h.off_dat i ≡ f
unfolding Structs.get_file Plain.get_file
get_file_same bytes h i f b small hs hd room e short =
    let p = 16 + i * 20 in
    let mem = memory bytes in
    let (low, high) = length-memory bytes (omega arith) (omega arith) in
    let (meta, e0, k0) = bind-some (slice p 20 mem) _ f e in
    let (name_off, e1, k1) = bind-some (pointer h.off_str (le (take 4 meta))) _ f k0 in
    let (name, e2, k2) = bind-some (text_at name_off mem) _ f k1 in
    let (cont_off, e3, k3) = bind-some (pointer h.off_dat (le (take 4 (drop 8 meta)))) _ f k2 in
    let (cont, e4, k4) = bind-some (slice cont_off (be (take 4 (drop 4 meta))) mem) _ f k3 in
    let (in_mem, m) = slice-some p 20 mem meta e0 in
    let (name_in, _) = text_at-some name_off mem name e2 in
    let (cont_in, _) = slice-some cont_off (be (take 4 (drop 4 meta))) mem cont e4 in
    let at_q : behind bytes p 4 ≡ p + 4 = behind-add bytes p 4 (omega arith) in
    let at_r : behind bytes (behind bytes p 4) 4 ≡ p + 8 =
      ap (λ x. behind bytes x 4) at_q ∙ behind-add bytes (p + 4) 4 (omega arith) ∙ omega arith in
    let at_s : behind bytes (behind bytes (behind bytes p 4) 4) 4 ≡ p + 12 =
      ap (λ x. behind bytes x 4) at_r ∙ behind-add bytes (p + 8) 4 (omega arith) ∙ omega arith in
    let named : _ =
      offset_same bytes (take 4 meta) h.off_str p name_off
        (behind bytes (behind bytes (behind bytes (behind bytes p 4) 4) 4) 8) b hs (omega arith)
        (struct_field bytes meta p 20 0 4 p m in_mem (omega arith) (omega arith)) e1 in
    let placed : _ =
      offset_same bytes (take 4 (drop 8 meta)) h.off_dat (behind bytes (behind bytes p 4) 4)
        cont_off
        (behind bytes
          (seek ((h.off_str + read_le bytes p) % 2 ^ 32)
            (behind bytes (behind bytes (behind bytes (behind bytes p 4) 4) 4) 8))
          max_size)
        b hd (omega arith) (struct_field bytes meta p 20 8 4 _ m in_mem (omega arith) at_r) e3 in
    let held =
      content_same bytes (take 4 (drop 4 meta)) cont (behind bytes p 4) cont_off
        (struct_field bytes meta p 20 4 4 _ m in_mem (omega arith) at_q) e4 in
    let sum = struct_field bytes meta p 20 12 8 _ m in_mem (omega arith) at_s in
    let read : File = record {
      filename = name;
      content = cont;
      checked = equal (byte_checksum cont) (reverse (take 8 (drop 12 meta)));
    } in
    let is_f : read ≡ f = some-injective read f k4 in
    let name_eq : _ ≡ name =
      ap (λ w. c_str (readstr bytes w max_size)) named
      ∙ text_same bytes name name_off e2 (omega (arith, ap (λ g. length g.filename) is_f)) in
    let cont_eq : _ ≡ cont =
      ap
        (λ w.
          take (read_be bytes (behind bytes p 4))
            (readstr bytes w (read_be bytes (behind bytes p 4))))
        placed
      ∙ held in
    let sum_eq = ap word_checksum cont_eq ∙ sym (checksums_agree cont) in
    (λ i. record {
      filename = name_eq i;
      content = cont_eq i;
      checked = equal (sum_eq i) (reverse (sym sum i));
    })
    ∙ is_f

get_files_same :
    (bytes : Bytes) (h : Header) (i n : ℕ) (fs : List File)
    → AreBytes bytes
    → length bytes + 8 < 2 ^ 31
    → h.off_str < 2 ^ 32
    → h.off_dat < 2 ^ 32
    → 16 + (i + n) * 20 ≤ length bytes
    → Structs.get_files (memory bytes) h i n ≡ some fs
    → All (λ f. length f.filename < max_size) fs
    → Plain.get_files bytes h.off_str h.off_dat i n ≡ fs
unfolding Structs.get_files Plain.get_files
get_files_same bytes h i zero fs b small hs hd room e short = some-injective [] fs e
get_files_same bytes h i (suc n) fs b small hs hd room e short =
    let (f, e0, k0) = bind-some (Structs.get_file (memory bytes) h i) _ fs e in
    let (rest, e1, k1) = bind-some (Structs.get_files (memory bytes) h (suc i) n) _ fs k0 in
    let is_fs = some-injective (f ∷ rest) fs k1 in
    let (short_f, short_rest) = subst (All (λ g. length g.filename < max_size)) (sym is_fs) short in
    let first = get_file_same bytes h i f b small hs hd (omega arith) e0 short_f in
    let ih = get_files_same bytes h (suc i) n rest b small hs hd (omega arith) e1 short_rest in
    (λ j. first j ∷ ih j) ∙ is_fs

-- The numbers of the header are read alike.
header_field :
    (bytes start : Bytes) (o pos : ℕ)
    → AreBytes bytes
    → slice 0 16 (memory bytes) ≡ some start
    → o + 4 ≤ 16
    → pos ≡ o
    → 16 ≤ length bytes
    → (read_le bytes pos ≡ le (take 4 (drop o start))) × (le (take 4 (drop o start)) < 2 ^ 32)
header_field bytes start o pos b h fits e room =
    let (in_mem, m) = slice-some 0 16 (memory bytes) start h in
    let (same, small) = number_same bytes pos b in
    let field = ap le (struct_field bytes start 0 16 o 4 pos m in_mem fits (omega arith)) in
    (omega arith, omega arith)

finished-done : (r : Option (List File)) (fs : List File) → finished r ≡ done fs → r ≡ some fs
unfolding finished
finished-done none fs h = cc
finished-done (some gs) fs h = cc

unpack_header-done :
    (mem : Bytes) (read : Option Bytes) (fs : List File)
    → unpack_header mem read ≡ done fs
    → (start : Bytes) × (read ≡ some start)
      × (Structs.get_files mem (get_header start) 0 (get_header start).n_files ≡ some fs)
unfolding unpack_header
unpack_header-done mem none fs h = cc
unpack_header-done mem (some start) fs h = elim (Bool-cases (le (take 4 start) == magic)) [
  | inl known ↦ (
    start,
    refl,
    finished-done (Structs.get_files mem (get_header start) 0 (get_header start).n_files) fs
        (simp known at h),
  )
  | inr unknown ↦ let h' : unknown_magic ≡ done fs = simp unknown at h in cc
]

-- Where unpacker-struct.c deals with all files of an archive of less than 2 GiB that has all entries
-- and names shorter than 1024 bytes, unpacker.c gives the same files, contents and outcomes of the
-- checksum.
pub unpack_agree :
    (bytes : Bytes) (fs : List File)
    → AreBytes bytes
    → length bytes + 8 < 2 ^ 31
    → 16 + read_le bytes 12 * 20 ≤ length bytes
    → All (λ f. length f.filename < max_size) fs
    → Structs.unpack bytes ≡ done fs
    → Plain.unpack bytes ≡ fs
unfolding Structs.unpack Plain.unpack get_header
unpack_agree bytes fs b small room short e =
    let (start, h, files) = unpack_header-done (memory bytes) (slice 0 16 (memory bytes)) fs e in
    let at_8 : behind bytes 4 4 ≡ 8 = behind-add bytes 4 4 (omega arith) ∙ omega arith in
    let at_12 : behind bytes (behind bytes 4 4) 4 ≡ 12 =
      ap (λ x. behind bytes x 4) at_8 ∙ behind-add bytes 8 4 (omega arith) ∙ omega arith in
    let (str, str_small) = header_field bytes start 4 4 b h (omega arith) refl (omega arith) in
    let (dat, dat_small) =
      header_field bytes start 8 (behind bytes 4 4) b h (omega arith) at_8 (omega arith) in
    let (count, _) = header_field bytes start 12 _ b h (omega arith) at_12 (omega arith) in
    let n_12 = ap (read_le bytes) at_12 in
    (λ i. Plain.get_files bytes (str i) (dat i) 0 (count i))
    ∙ get_files_same bytes (get_header start) 0 (get_header start).n_files fs b small str_small
        dat_small (omega arith) files short
