-- ===== src/Sudoku/Rules/Valid.antt =====
-- `valid` decides the rules.
use nycu_intro_np.Prelude.{
  ℕ, zero, suc, ◌+◌, ◌*◌, ◌/◌, ◌%◌, ◌<◌, ◌≡◌, refl, ◌↔◌, true, arith, inl, inr, ◌==◌, Bool-cases,
  ==_iff, subst, ap, ◌∙◌, sym,
}
use nycu_intro_np.Sudoku.{Board, group_valid, row, column, box, groups_valid, valid}
use nycu_intro_np.Sudoku.Rules.{Lone, Digits, Consistent, group_valid_lem}

-- Every group of a family of nine.
Each : (ℕ → ℕ → ℕ) → ℕ → Type 0
Each group n = (i : ℕ) → i < n → group_valid (group i) ≡ true

groups_valid-Each : (group : ℕ → ℕ → ℕ) (n : ℕ) → groups_valid group n ≡ true → Each group n
unfolding groups_valid Each
groups_valid-Each group zero h i lt = absurd (omega arith)
groups_valid-Each group (suc n) h i lt = elim (Bool-cases (i == n)) [
  | inl same ↦ subst (λ m. group_valid (group m) ≡ true) (sym ((==_iff i n).0 same)) (ground arith)
  | inr other ↦ groups_valid-Each group n (ground arith) i (ground (arith, other))
]

Each-groups_valid : (group : ℕ → ℕ → ℕ) (n : ℕ) → Each group n → groups_valid group n ≡ true
unfolding groups_valid Each
Each-groups_valid group zero h = refl
Each-groups_valid group (suc n) h =
    let here = h n (omega arith) in
    let before = Each-groups_valid group n (λ i lt. h i (omega arith)) in ground arith

box_at :
    (b : Board) (i j : ℕ) → i < 9 → j < 9 → box b (i / 3 * 3 + j / 3) (i % 3 * 3 + j % 3) ≡ b i j
unfolding box
box_at b i j hi hj =
    let e : (i / 3 * 3 + j / 3) / 3 * 3 + (i % 3 * 3 + j % 3) / 3 ≡ i = omega arith in
    let f : (i / 3 * 3 + j / 3) % 3 * 3 + (i % 3 * 3 + j % 3) % 3 ≡ j = omega arith in
    ap (λ m. b m ((i / 3 * 3 + j / 3) % 3 * 3 + (i % 3 * 3 + j % 3) % 3)) e ∙ ap (b i) f

-- All rows, columns and boxes of a board are without a digit that comes twice.
AllLone : Board → Type 0
AllLone b = (i : ℕ) → i < 9 → Lone (row b i) × Lone (column b i) × Lone (box b i)

AllLone-Consistent : (b : Board) → AllLone b → Consistent b
unfolding AllLone row column
AllLone-Consistent b h i j k l hi hj hk hl lt (inl same) pos e =
    (h i hi).0 j l (omega arith) hl pos (e ∙ ap (λ m. b m l) (sym same))
AllLone-Consistent b h i j k l hi hj hk hl lt (inr (inl same)) pos e =
    (h j hj).1 i k (omega arith) hk pos (e ∙ ap (b k) (sym same))
AllLone-Consistent b h i j k l hi hj hk hl lt (inr (inr (p, q))) pos e =
    let same : k / 3 * 3 + l / 3 ≡ i / 3 * 3 + j / 3 = omega arith in
    let there = subst (λ m. box b m (k % 3 * 3 + l % 3) ≡ b k l) same (box_at b k l hk hl) in
    (h (i / 3 * 3 + j / 3) (omega arith)).2 (i % 3 * 3 + j % 3) (k % 3 * 3 + l % 3) (omega arith)
      (omega arith) (omega (arith, box_at b i j hi hj)) (box_at b i j hi hj ∙ e ∙ sym there)

Consistent-AllLone : (b : Board) → Consistent b → AllLone b
unfolding AllLone row column box
Consistent-AllLone b h i hi = (
  λ j k lt hk pos. h i j i k hi (omega arith) hi hk (omega arith) (inl refl) pos,
  λ j k lt hk pos. h j i k i (omega arith) hi hk hi (omega arith) (inr (inl refl)) pos,
  λ j k lt hk pos.
      h (i / 3 * 3 + j / 3) (i % 3 * 3 + j % 3) (i / 3 * 3 + k / 3) (i % 3 * 3 + k % 3)
        (omega arith) (omega arith) (omega arith) (omega arith) (omega arith)
        (inr (inr (omega arith, omega arith))) pos,
)

-- On a board of digits, valid holds exactly where no two cells of one row, one column or one of the
-- nine squares hold the same digit.
pub valid_iff : (b : Board) → Digits b → (valid b ≡ true) ↔ Consistent b
unfolding valid AllLone Each row column box
valid_iff b digits = (forth, back)
  where
    lone_row : (i : ℕ) → i < 9 → (group_valid (row b i) ≡ true) ↔ Lone (row b i)
    lone_row i hi = group_valid_lem (row b i) (λ j hj. digits i j hi hj)

    lone_column : (i : ℕ) → i < 9 → (group_valid (column b i) ≡ true) ↔ Lone (column b i)
    lone_column i hi = group_valid_lem (column b i) (λ j hj. digits j i hj hi)

    lone_box : (i : ℕ) → i < 9 → (group_valid (box b i) ≡ true) ↔ Lone (box b i)
    lone_box i hi =
        group_valid_lem (box b i)
          (λ j hj. digits (i / 3 * 3 + j / 3) (i % 3 * 3 + j % 3) (omega arith) (omega arith))

    forth : valid b ≡ true → Consistent b
    forth h =
        let rows = groups_valid-Each (row b) 9 (ground arith) in
        let columns = groups_valid-Each (column b) 9 (ground arith) in
        let boxes = groups_valid-Each (box b) 9 (ground arith) in
        AllLone-Consistent b (λ i hi. (
          (lone_row i hi).0 (rows i hi),
          (lone_column i hi).0 (columns i hi),
          (lone_box i hi).0 (boxes i hi),
        ))

    back : Consistent b → valid b ≡ true
    back h =
        let lone = Consistent-AllLone b h in
        let rows = Each-groups_valid (row b) 9 (λ i hi. (lone_row i hi).1 (lone i hi).0) in
        let columns = Each-groups_valid (column b) 9 (λ i hi. (lone_column i hi).1 (lone i hi).1) in
        let boxes = Each-groups_valid (box b) 9 (λ i hi. (lone_box i hi).1 (lone i hi).2) in
        ground (arith, rows, columns, boxes)
