-- ===== src/Dnsd/Word.antt =====
-- Sixteen and thirty-two bit words in network order: `operator+=` of
-- Homework/2/dnsd/include/utils.hpp, `data2uint16` and `data2uint32` of src/header.cpp.
use nycu_intro_np.Prelude.{
  ℕ, ◌+◌, ◌*◌, ◌/◌, ◌%◌, ◌^◌, ◌<◌, ◌≡◌, [], ◌∷◌, ◌++◌, Bytes, Option, none, some, arith, ap,
}

unfoldable pub put16 : ℕ → Bytes
put16 t = t / 256 % 256 ∷ t % 256 ∷ []

unfoldable pub put32 : ℕ → Bytes
put32 t = t / 2 ^ 24 % 256 ∷ t / 2 ^ 16 % 256 ∷ t / 256 % 256 ∷ t % 256 ∷ []

-- `none` where the read passes the end of the message.
unfoldable pub data2uint16 : Bytes → Option (ℕ × Bytes)
data2uint16 (a ∷ b ∷ rest) = some (a * 256 + b, rest)
data2uint16 _ = none

unfoldable pub data2uint32 : Bytes → Option (ℕ × Bytes)
data2uint32 (a ∷ b ∷ c ∷ d ∷ rest) = some (((a * 256 + b) * 256 + c) * 256 + d, rest)
data2uint32 _ = none

-- A word is read back from what it was written as, with what follows.
pub data2uint16-put16 :
    (t : ℕ) (rest : Bytes) → t < 2 ^ 16 → data2uint16 (put16 t ++ rest) ≡ some (t, rest)
unfolding data2uint16 put16
data2uint16-put16 t rest h =
    let e : t / 256 % 256 * 256 + t % 256 ≡ t = omega arith in ap (λ n. some (n, rest)) e

pub data2uint32-put32 :
    (t : ℕ) (rest : Bytes) → t < 2 ^ 32 → data2uint32 (put32 t ++ rest) ≡ some (t, rest)
unfolding data2uint32 put32
data2uint32-put32 t rest h =
    let e : ((t / 2 ^ 24 % 256 * 256 + t / 2 ^ 16 % 256) * 256 + t / 256 % 256) * 256 + t % 256
        ≡ t =
      omega arith in
    ap (λ n. some (n, rest)) e
