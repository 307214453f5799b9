-- ===== src/Sudoku/Rules.antt =====
-- The rules of the puzzle, stated without counting, and that `valid` decides them.
pub mod Valid
use nycu_intro_np.Prelude.{
  ℕ, zero, suc, ◌+◌, ◌*◌, ◌/◌, ◌%◌, ◌≤◌, ◌<◌, max, ◌≡◌, ◌≢◌, refl, sym, ◌∙◌, ◌↔◌, true, false, ◌&&◌,
  leb, leb→le, arith, ◌⊎◌, inl, inr, ◌==◌, if◌then◌else◌, Bool-cases, ==_iff, Bool,
}
use nycu_intro_np.Sudoku.{
  Board, bump, tally, clear_empty, max_element, group_valid, row, column, box, groups_valid, valid,
}

-- No digit stands in two of the nine cells of a group.
abbrev pub Lone : (ℕ → ℕ) → Type 0
Lone g = (j k : ℕ) → j < k → k < 9 → 0 < g j → g j ≢ g k

-- Every cell is empty or holds one of the digits 1 to 9.
abbrev pub Digits : Board → Type 0
Digits b = (i j : ℕ) → i < 9 → j < 9 → b i j ≤ 9

-- Two cells that may not hold the same digit: of one row, one column or one of the nine squares.
abbrev pub Sees : ℕ → ℕ → ℕ → ℕ → Type 0
Sees i j k l = (i ≡ k) ⊎ ((j ≡ l) ⊎ ((i / 3 ≡ k / 3) × (j / 3 ≡ l / 3)))

-- Two cells that see each other, the first before the second in the order of the board, do not hold
-- the same digit.
abbrev pub Consistent : Board → Type 0
Consistent b =
    (i j k l : ℕ)
    → i < 9
    → j < 9
    → k < 9
    → l < 9
    → i * 9 + j < k * 9 + l
    → Sees i j k l
    → 0 < b i j
    → b i j ≢ b k l

tally_one : (g : ℕ → ℕ) (n j v : ℕ) → j < n → g j ≡ v → 1 ≤ tally g n v
unfolding tally bump
tally_one g zero j v h e = absurd (omega arith)
tally_one g (suc n) j v h e = elim (Bool-cases (j == n)) [
  | inl same ↦ ground (arith, same)
  | inr other ↦
      let ih : j < n → 1 ≤ tally g n v = λ lt. tally_one g n j v lt e in ground (arith, other, ih)
]

tally_two : (g : ℕ → ℕ) (n j k v : ℕ) → j < k → k < n → g j ≡ v → g k ≡ v → 2 ≤ tally g n v
unfolding tally bump
tally_two g zero j k v h h' e e' = absurd (omega arith)
tally_two g (suc n) j k v h h' e e' = elim (Bool-cases (k == n)) [
  | inl same ↦
      let one : j < n → 1 ≤ tally g n v = λ lt. tally_one g n j v lt e in ground (arith, same, one)
  | inr other ↦
      let ih : k < n → 2 ≤ tally g n v = λ lt. tally_two g n j k v h lt e e' in
      ground (arith, other, ih)
]

tally_found : (g : ℕ → ℕ) (n v : ℕ) → 1 ≤ tally g n v → (j : ℕ) × (j < n) × (g j ≡ v)
unfolding tally bump
tally_found g zero v h = absurd (omega arith)
tally_found g (suc n) v h = elim (Bool-cases (g n == v)) [
  | inl same ↦ (n, omega arith, (==_iff (g n) v).0 same)
  | inr other ↦ let (j, lt, e) = tally_found g n v (ground (arith, other)) in (j, omega arith, e)
]

Lone-tally : (g : ℕ → ℕ) (n v : ℕ) → n ≤ 9 → Lone g → 0 < v → tally g n v ≤ 1
unfolding tally bump
Lone-tally g zero v h lone pos = omega arith
Lone-tally g (suc n) v h lone pos =
    let ih = Lone-tally g n v (omega arith) lone pos in
    elim (Bool-cases (g n == v)) [
      | inl same ↦
          let none_before : 1 ≤ tally g n v → ⊥ = λ le.
            let (j, lt, e) = tally_found g n v le in
            lone j n lt (omega arith) (omega (arith, e)) (e ∙ sym ((==_iff (g n) v).0 same)) in
          ground (arith, same, none_before)
      | inr other ↦ ground (arith, other, ih)
    ]

max_element_above : (f : ℕ → ℕ) (n y : ℕ) → y < n → f y ≤ max_element f n
unfolding max_element
max_element_above f zero y h = absurd (omega arith)
max_element_above f (suc n) y h = elim (Bool-cases (y == n)) [
  | inl same ↦ ground (arith, same)
  | inr other ↦
      let ih : y < n → f y ≤ max_element f n = max_element_above f n y in ground (arith, other, ih)
]

max_element_below : (f : ℕ → ℕ) (n top : ℕ) → ((y : ℕ) → f y ≤ top) → max_element f n ≤ top
unfolding max_element
max_element_below f zero top h = omega arith
max_element_below f (suc n) top h = omega (arith, h n, max_element_below f n top h)

-- One pass over a group finds out whether a digit comes twice.
pub group_valid_lem : (g : ℕ → ℕ) → ((j : ℕ) → j < 9 → g j ≤ 9) → (group_valid g ≡ true) ↔ Lone g
unfolding group_valid clear_empty
group_valid_lem g digits = (forth, back)
  where
    counted : (v : ℕ) → 0 < v → tally g 9 v ≡ clear_empty (tally g 9) v
    counted zero h = absurd (omega arith)
    counted (suc v) h = refl

    forth : group_valid g ≡ true → Lone g
    forth h j k lt lt' pos e =
        let top = leb→le (max_element (clear_empty (tally g 9)) 10) 1 h in
        omega (
          arith,
          top,
          tally_two g 9 j k (g j) lt lt' refl (sym e),
          counted (g j) pos,
          max_element_above (clear_empty (tally g 9)) 10 (g j)
              (omega (arith, digits j (omega arith))),
        )

    small : Lone g → (v : ℕ) → clear_empty (tally g 9) v ≤ 1
    small lone zero = omega arith
    small lone (suc v) = Lone-tally g 9 (suc v) (omega arith) lone (omega arith)

    back : Lone g → group_valid g ≡ true
    back lone = ground (arith, max_element_below (clear_empty (tally g 9)) 10 1 (small lone))
