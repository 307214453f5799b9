-- ===== src/Prelude/Memory.antt =====
-- Memory: the bytes of a text by their index, and a buffer that is written piece by piece.
use Prim.Native.Nat.{ℕ, zero, suc, ◌+◌, ◌-◌, ◌<◌}
use mathlib.Core.Path.{◌≡◌, refl, ap, ◌∙◌}
use mathlib.Core.Bool.{◌&&◌}
use mathlib.Core.Option.{Option, none, some}
use mathlib.Core.List.{[], ◌∷◌, ◌++◌}
use native.Mathlib.Omega.{arith}
use nycu_intro_np.Prelude.Tests.{ltb, leb, if◌then◌else◌}
use nycu_intro_np.Prelude.Lists.{length, take, drop, replicate}
use nycu_intro_np.Prelude.Text.{Bytes}

-- The byte at an index, 0 behind the end.
unfoldable pub byte_at : Bytes → ℕ → ℕ
byte_at [] k = 0
byte_at (c ∷ bytes) zero = c
byte_at (c ∷ bytes) (suc k) = byte_at bytes k

-- A buffer as `new` gives it: no byte is known until it is written.
abbrev pub Buffer : Type 0
Buffer = ℕ → Option ℕ

unfoldable pub copy : ℕ → Buffer → ℕ → Bytes → Buffer
copy size buf off frag =
    λ x. if leb off x && ltb x (off + size) then some (byte_at frag (x - off)) else buf x

unfoldable pub and_byte : Option ℕ → Option Bytes → Option Bytes
and_byte none rest = none
and_byte (some c) none = none
and_byte (some c) (some rest) = some (c ∷ rest)

-- The n bytes of a buffer from x on, `none` where one was never written.
unfoldable pub read_from : ℕ → ℕ → Buffer → Option Bytes
read_from zero x buf = some []
read_from (suc n) x buf = and_byte (buf x) (read_from n (suc x) buf)

byte_at_zeros : (n k : ℕ) → byte_at (replicate n 0) k ≡ 0
unfolding byte_at
byte_at_zeros zero k = refl
byte_at_zeros (suc n) zero = refl
byte_at_zeros (suc n) (suc k) = byte_at_zeros n k

pub byte_at_padded : (n : ℕ) (xs : Bytes) (k : ℕ) → byte_at (xs ++ replicate n 0) k ≡ byte_at xs k
unfolding byte_at
byte_at_padded n [] k = byte_at_zeros n k
byte_at_padded n (x ∷ xs) zero = refl
byte_at_padded n (x ∷ xs) (suc k) = byte_at_padded n xs k

pub byte_at-take : (n : ℕ) (xs : Bytes) (k : ℕ) → k < n → byte_at (take n xs) k ≡ byte_at xs k
unfolding byte_at
byte_at-take zero xs k h = absurd (omega arith)
byte_at-take (suc n) [] k h = refl
byte_at-take (suc n) (x ∷ xs) zero h = refl
byte_at-take (suc n) (x ∷ xs) (suc k) h = byte_at-take n xs k (omega arith)

pub byte_at-drop : (n : ℕ) (xs : Bytes) (k : ℕ) → byte_at (drop n xs) k ≡ byte_at xs (n + k)
unfolding byte_at
byte_at-drop zero xs k = ap (byte_at xs) (omega arith)
byte_at-drop (suc n) [] k = refl
byte_at-drop (suc n) (x ∷ xs) k = byte_at-drop n xs k ∙ ground arith

pub read_all :
    (bytes : Bytes) (x : ℕ) (buf : Buffer)
    → ((k : ℕ) → k < length bytes → buf (x + k) ≡ some (byte_at bytes k))
    → read_from (length bytes) x buf ≡ some bytes
unfolding read_from and_byte byte_at
read_all [] x buf h = refl
read_all (c ∷ bytes) x buf h =
    let first : buf x ≡ some c = ap buf (omega arith) ∙ h 0 (omega arith) in
    let rest =
      read_all bytes (suc x) buf (λ k lt. ap buf (omega arith) ∙ h (suc k) (omega arith)) in
    rw (first, rest) refl
