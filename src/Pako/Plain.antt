-- ===== src/Pako/Plain.antt =====
-- unpacker.c: every number and text is read from the file by itself. A size
-- of 2 ^ 31 or more, which is negative as an int, is taken as it stands.
use nycu_intro_np.Prelude.{
  ℕ, zero, suc, ◌+◌, ◌-◌, ◌*◌, ◌%◌, ◌^◌, List, [], ◌∷◌, ◌++◌, Bytes, reverse, length, take, drop,
  replicate, ltb, equal, if◌then◌else◌, c_str,
}
use nycu_intro_np.Pako.Checksum.{word_checksum}
use nycu_intro_np.Pako.Structs.{le, be, File}

abbrev pub max_size : ℕ
max_size = 1024

-- `readstr`: n bytes from a position, in a buffer of zeros that is 32 bytes longer.
unfoldable pub readstr : Bytes → ℕ → ℕ → Bytes
readstr bytes pos n =
    let part = take n (drop pos bytes) in part ++ replicate (n + 32 - length part) 0

-- The position of a read at an offset that is passed as an int: a negative one leaves it as it is.
unfoldable pub seek : ℕ → ℕ → ℕ
seek offset pos = if ltb offset (2 ^ 31) then offset else pos

-- The position behind a read of n bytes.
unfoldable pub behind : Bytes → ℕ → ℕ → ℕ
behind bytes pos n = pos + length (take n (drop pos bytes))

-- `readint` of 4 bytes, as they stand and swapped; it reads on from the position.
unfoldable pub read_le : Bytes → ℕ → ℕ
read_le bytes pos = le (take 8 (readstr bytes pos 4)) % 2 ^ 32

unfoldable pub read_be : Bytes → ℕ → ℕ
read_be bytes pos = be (take 4 (readstr bytes pos 4))

-- The round of the loop for the file i. Each read goes on where the one before it ended.
unfoldable pub get_file : Bytes → ℕ → ℕ → ℕ → File
get_file bytes str_sec cont_sec i =
    let p = 16 + i * 20 in
    let q = behind bytes p 4 in
    let r = behind bytes q 4 in
    let s = behind bytes r 4 in
    let name_pos = seek ((str_sec + read_le bytes p) % 2 ^ 32) (behind bytes s 8) in
    let cont_pos = seek ((cont_sec + read_le bytes r) % 2 ^ 32) (behind bytes name_pos max_size) in
    let fsize = read_be bytes q in
    let cont = take fsize (readstr bytes cont_pos fsize) in
    record {
      filename = c_str (readstr bytes name_pos max_size);
      content = cont;
      checked = equal (word_checksum cont) (reverse (take 8 (readstr bytes s 8)));
    }

unfoldable pub get_files : Bytes → ℕ → ℕ → ℕ → ℕ → List File
get_files bytes str_sec cont_sec i zero = []
get_files bytes str_sec cont_sec i (suc n) =
    get_file bytes str_sec cont_sec i ∷ get_files bytes str_sec cont_sec (suc i) n

-- No magic number is looked at.
unfoldable pub unpack : Bytes → List File
unpack bytes =
    let r = behind bytes 4 4 in
    get_files bytes (read_le bytes 4) (read_le bytes r) 0 (read_le bytes (behind bytes r 4))
