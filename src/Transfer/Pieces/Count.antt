-- ===== src/Transfer/Pieces/Count.antt =====
-- Counting the keys of a map of pieces: one with n different keys out of 1, ..., n has them all.
use nycu_intro_np.Prelude.{
  Distinct, contains-erase, Distinct-erase, length-erase, ℕ, zero, suc, ◌+◌, ◌≤◌, ◌<◌, ◌≡◌, refl,
  [], ◌∷◌, Bytes, Map, contains, erase, nat_eq, length, arith, true, if◌then◌else◌, ◌==◌, ==_iff,
  All, Bool-cases, inl, inr,
}

abbrev pub KeyIn : ℕ → ℕ × Bytes → Type 0
KeyIn n e = (0 < e.0) × (e.0 ≤ n)

-- How many of the keys 1, ..., n a map has.
present : Map ℕ Bytes → ℕ → ℕ
present m zero = 0
present m (suc n) = (if contains (suc n) m then 1 else 0) + present m n

-- Without the key n + 1 the other keys are left.
KeyIn-erase : (n : ℕ) (m : Map ℕ Bytes) → All (KeyIn (suc n)) m → All (KeyIn n) (erase (suc n) m)
unfolding erase
KeyIn-erase n [] h = tt
KeyIn-erase n ((i, v) ∷ m) h = let ih = KeyIn-erase n m h.1 in ground (arith, ih)

present-erase : (n k : ℕ) (m : Map ℕ Bytes) → n < k → present (erase k m) n ≡ present m n
unfolding present
present-erase zero k m h = refl
present-erase (suc n) k m h =
    ground (arith, contains-erase k (suc n) m, present-erase n k m (omega arith))

-- A map of different keys out of 1, ..., n has as many entries as keys of these.
length-present : (n : ℕ) (m : Map ℕ Bytes) → Distinct m → All (KeyIn n) m → length m ≡ present m n
unfolding present
length-present zero [] d h = refl
length-present zero ((i, v) ∷ m) d h = absurd (omega arith)
length-present (suc n) m d h = omega (
  arith,
  length-erase (suc n) m d,
  length-present n (erase (suc n) m) (Distinct-erase (suc n) m d) (KeyIn-erase n m h),
  present-erase n (suc n) m (omega arith),
)

present_most : (n : ℕ) (m : Map ℕ Bytes) → present m n ≤ n
unfolding present
present_most zero m = omega arith
present_most (suc n) m = ground (arith, present_most n m)

present_full :
    (n : ℕ) (m : Map ℕ Bytes) → n ≤ present m n → (i : ℕ) → i < n → contains (suc i) m ≡ true
unfolding present
present_full zero m h i lt = absurd (omega arith)
present_full (suc n) m h i lt = elim (Bool-cases (i == n)) [
  | inl same ↦ rw ((==_iff i n).0 same) (ground (arith, present_most n m))
  | inr other ↦
      let here = present_most n m in present_full n m (ground arith) i (ground (arith, other))
]

present_all :
    (n : ℕ) (m : Map ℕ Bytes) → ((i : ℕ) → i < n → contains (suc i) m ≡ true) → present m n ≡ n
unfolding present
present_all zero m h = refl
present_all (suc n) m h =
    let here = h n (omega arith) in ground (arith, present_all n m (λ i lt. h i (omega arith)))

-- As many different keys out of 1, ..., n as there are means all of them.
pub all_keys :
    (n : ℕ) (m : Map ℕ Bytes)
    → Distinct m
    → All (KeyIn n) m
    → n ≤ length m
    → (i : ℕ) → i < n
    → contains (suc i) m ≡ true
all_keys n m d h le i lt = present_full n m (omega (arith, length-present n m d h)) i lt

-- A map that has all of them, and no other, has n entries.
pub length-all_keys :
    (n : ℕ) (m : Map ℕ Bytes)
    → Distinct m
    → All (KeyIn n) m
    → ((i : ℕ) → i < n → contains (suc i) m ≡ true)
    → length m ≡ n
length-all_keys n m d h all_there = omega (arith, length-present n m d h, present_all n m all_there)
