-- ===== src/Pako/Structs.antt =====
-- unpacker-struct.c: the whole file is read to memory, where the structs and texts are pointed at.
use nycu_intro_np.Prelude.{
  ℕ, zero, suc, ◌+◌, ◌-◌, ◌*◌, ◌/◌, ◌%◌, ◌^◌, List, [], ◌∷◌, ◌++◌, Bytes, reverse, length, take,
  drop, replicate, Option, none, some, Bool, ◌==◌, leb, ltb, equal, if◌then◌else◌, c_str,
}
use nycu_intro_np.Pako.Checksum.{byte_checksum}

-- A number as memory has it, and one with its bytes swapped.
unfoldable pub le : Bytes → ℕ
le [] = 0
le (b ∷ bs) = b + 256 * le bs

unfoldable pub be : Bytes → ℕ
be bs = le (reverse bs)

abbrev pub magic : ℕ
magic = 0x4F4B4150

pub record Header : Type 0 where
  pub off_str : ℕ
  pub off_dat : ℕ
  pub n_files : ℕ

-- What is printed and written for a file; it is written where its checksum is right.
pub record File : Type 0 where
  pub filename : Bytes
  pub content : Bytes
  pub checked : Bool

-- `readstr` with no buffer: the memory is filled up with zeros to a multiple of eight bytes.
unfoldable pub memory : Bytes → Bytes
memory bytes =
    bytes
    ++ replicate (((length bytes + 2 ^ 64 - 1) % 2 ^ 64 / 8 + 1) * 8 % 2 ^ 64 - length bytes) 0

-- A read in memory; `none` past its end.
unfoldable pub slice : ℕ → ℕ → Bytes → Option Bytes
slice off n mem = if leb (off + n) (length mem) then some (take n (drop off mem)) else none

-- A C string in memory; `none` where no NUL ends it.
unfoldable pub text_at : ℕ → Bytes → Option Bytes
text_at off mem =
    let text = c_str (drop off mem) in
    if ltb (off + length text) (length mem) then some text else none

-- Two numbers of 32 bits with a sign, added to a pointer to the memory's start; `none` before it.
abbrev biased : ℕ → ℕ
biased a = if ltb a (2 ^ 31) then a + 2 ^ 32 else a

unfoldable pub pointer : ℕ → ℕ → Option ℕ
pointer a b =
    if leb (2 ^ 33) (biased a + biased b) then some (biased a + biased b - 2 ^ 33) else none

infixl 5 ◌>>=◌
abbrev pub ◌>>=◌ {ℓ κ} : {A : Type ℓ} {B : Type κ} → Option A → (A → Option B) → Option B
none >>= f = none
some a >>= f = f a

-- The entry of a file, of 20 bytes: the numbers off_file and off_data, the size and the checksum with
-- their bytes swapped.
unfoldable pub get_file : Bytes → Header → ℕ → Option File
get_file mem h i = do
  meta ← slice (16 + i * 20) 20 mem
  off_name ← pointer h.off_str (le (take 4 meta))
  filename ← text_at off_name mem
  off_content ← pointer h.off_dat (le (take 4 (drop 8 meta)))
  content ← slice off_content (be (take 4 (drop 4 meta))) mem
  some (record {
    filename = filename;
    content = content;
    checked = equal (byte_checksum content) (reverse (take 8 (drop 12 meta)));
  })

-- The files i, ..., i + n - 1.
unfoldable pub get_files : Bytes → Header → ℕ → ℕ → Option (List File)
get_files mem h i zero = some []
get_files mem h i (suc n) = do f ← get_file mem h i; fs ← get_files mem h (suc i) n; some (f ∷ fs)

-- How the program ends: the wrong magic number, undefined behaviour, or all files dealt with.
pub data Unpacked : Type 0 where
  unknown_magic : Unpacked
  fault : Unpacked
  done : List File → Unpacked

unfoldable pub get_header : Bytes → Header
get_header start = record {
  off_str = le (take 4 (drop 4 start));
  off_dat = le (take 4 (drop 8 start));
  n_files = le (take 4 (drop 12 start));
}

unfoldable pub finished : Option (List File) → Unpacked
finished none = fault
finished (some fs) = done fs

unfoldable pub unpack_header : Bytes → Option Bytes → Unpacked
unpack_header mem none = fault
unpack_header mem (some start) =
    let h = get_header start in
    if le (take 4 start) == magic then finished (get_files mem h 0 h.n_files) else unknown_magic

unfoldable pub unpack : Bytes → Unpacked
unpack bytes = unpack_header (memory bytes) (slice 0 16 (memory bytes))
