-- ===== src/Pako/Tests.antt =====
-- Runs of both unpackers of Lab/2/PAKO-File-Unpacker on a small archive.
use nycu_intro_np.Prelude.{
  zero, suc, ◌≡◌, refl, Bytes, [], ◌∷◌, ◌++◌, byte_at, List, true, arith, c_str, ltb, Bool, true,
  if◌then◌else◌, false, equal,
}
use nycu_intro_np.Pako.Checksum.{byte_checksum, sum_bytes, xor_into}
use nycu_intro_np.Pako.Structs
use nycu_intro_np.Pako.Structs.{File, done}
use nycu_intro_np.Pako.Plain
use nycu_intro_np.Pako.Agree.Fields.{AreBytes}
use nycu_intro_np.Pako.Agree.Unpack.{unpack_agree}

-- One file "a" with the content "hi".
abbrev archive : Bytes
archive =
    (80 ∷ 65 ∷ 75 ∷ 79 ∷ 36 ∷ 0 ∷ 0 ∷ 0 ∷ 40 ∷ 0 ∷ 0 ∷ 0 ∷ 1 ∷ 0 ∷ 0 ∷ 0 ∷ [])
    ++ (0 ∷ 0 ∷ 0 ∷ 0 ∷ 0 ∷ 0 ∷ 0 ∷ 2 ∷ 0 ∷ 0 ∷ 0 ∷ 0 ∷ 0 ∷ 0 ∷ 0 ∷ 0 ∷ 0 ∷ 0 ∷ 105 ∷ 104 ∷ [])
    ++ (97 ∷ 0 ∷ 0 ∷ 0 ∷ 104 ∷ 105 ∷ [])

abbrev files : List File
files = record { filename = 97 ∷ []; content = 104 ∷ 105 ∷ []; checked = true } ∷ []

all_bytes : Bytes → Bool
all_bytes [] = true
all_bytes (x ∷ xs) = let rest = all_bytes xs in if ltb x 256 then rest else false

all_bytes-AreBytes : (xs : Bytes) → all_bytes xs ≡ true → AreBytes xs
unfolding all_bytes byte_at
all_bytes-AreBytes [] h k = omega arith
all_bytes-AreBytes (x ∷ xs) h zero = ground arith
all_bytes-AreBytes (x ∷ xs) h (suc k) = all_bytes-AreBytes xs (ground (arith, h)) k

archive-AreBytes : AreBytes archive
unfolding all_bytes
archive-AreBytes = all_bytes-AreBytes archive refl

unpack-archive : Structs.unpack archive ≡ done files
unfolding Structs.unpack Structs.unpack_header Structs.memory Structs.slice Structs.le Structs.be
    Structs.text_at Structs.pointer Structs.get_file Structs.get_files Structs.finished
    Structs.get_header byte_checksum sum_bytes xor_into c_str equal
unpack-archive = refl

counted : Plain.read_le archive 12 ≡ 1
unfolding Plain.read_le Plain.readstr Structs.le
counted = refl

unpack_agree_example : Plain.unpack archive ≡ files
unpack_agree_example =
    unpack_agree archive files archive-AreBytes (omega arith) (omega (arith, counted))
      (omega arith, tt) unpack-archive
