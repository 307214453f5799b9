-- ===== src/Sudoku/Client/Moves.antt =====
-- What the moves do to the board: `main` of Lab/9/UNIX Domain Sudoku/solver.cpp.
use nycu_intro_np.Prelude.{
  ℕ, zero, suc, ◌+◌, ◌-◌, ◌*◌, ◌/◌, ◌%◌, ◌≤◌, ◌<◌, ◌≡◌, ◌≢◌, refl, sym, ap, ◌∙◌, ◌==◌, Bool-cases,
  ==_iff, inl, inr, arith, ◌∷◌, subst,
}
use nycu_intro_np.Sudoku.{Board, store}
use nycu_intro_np.Sudoku.Rules.{Digits}
use nycu_intro_np.Sudoku.Search.{store_at, store_else}
use nycu_intro_np.Sudoku.Solve.{Extends, cell-cases}
use nycu_intro_np.Sudoku.Client.{n2c, c2n, moves, play}

c2n-n2c : (x : ℕ) → x ≤ 9 → c2n (n2c x) ≡ x
unfolding c2n n2c
c2n-n2c x h = ground arith

-- A board that has the cells below k from done and the others from init.
Between : ℕ → Board → Board → Board → Type 0
Between k init done cur =
    (i j : ℕ)
    → i < 9
    → j < 9
    → (i * 9 + j < k → cur i j ≡ done i j) × (k ≤ i * 9 + j → cur i j ≡ init i j)

Between-store :
    (k : ℕ) (init done cur : Board) (x : ℕ)
    → x ≡ done (k / 9) (k % 9)
    → Between k init done cur
    → Between (suc k) init done (store cur (k / 9) (k % 9) x)
unfolding Between
Between-store k init done cur x e h i j hi hj = elim (Bool-cases (i * 9 + j == k)) [
  | inl same ↦
      let at = (==_iff (i * 9 + j) k).0 same in
      let p : k / 9 ≡ i = omega arith in
      let q : k % 9 ≡ j = omega arith in
      let here = store_at cur (k / 9) (k % 9) x ∙ e in
      (
        λ lt.
            subst (λ m. store cur (k / 9) (k % 9) x i m ≡ done i m) q
              (subst (λ m. store cur (k / 9) (k % 9) x m (k % 9) ≡ done m (k % 9)) p here),
        λ le. absurd (omega arith),
      )
  | inr other ↦
      let apart : i * 9 + j ≢ k = λ e'. ground (arith, other, e') in
      let same = store_else cur (k / 9) (k % 9) x i j (λ p q. apart (omega arith)) in
      (
        λ lt. same ∙ (h i j hi hj).0 (omega (arith, apart)),
        λ le. same ∙ (h i j hi hj).1 (omega arith),
      )
]

Between-suc :
    (k : ℕ) (init done cur : Board)
    → init (k / 9) (k % 9) ≡ done (k / 9) (k % 9)
    → Between k init done cur
    → Between (suc k) init done cur
unfolding Between
Between-suc k init done cur e h i j hi hj = elim (Bool-cases (i * 9 + j == k)) [
  | inl same ↦
      let at = (==_iff (i * 9 + j) k).0 same in
      let p : k / 9 ≡ i = omega arith in
      let q : k % 9 ≡ j = omega arith in
      (
        λ lt.
            (h i j hi hj).1 (omega arith)
            ∙ subst (λ m. init i m ≡ done i m) q (subst (λ m. init m (k % 9) ≡ done m (k % 9)) p e),
        λ le. absurd (omega arith),
      )
  | inr other ↦
      let apart : i * 9 + j ≢ k = λ e'. ground (arith, other, e') in
      (λ lt. (h i j hi hj).0 (omega (arith, apart)), λ le. (h i j hi hj).1 (omega arith))
]

moves_blank :
    (left : ℕ) (init done : Board)
    → init ((80 - left) / 9) ((80 - left) % 9) ≡ 0
    → moves (suc left) init done
      ≡ ((80 - left) / 9, (80 - left) % 9, n2c (done ((80 - left) / 9) ((80 - left) % 9)))
        ∷ moves left init done
unfolding moves
moves_blank left init done h = rw h refl

moves_given :
    (left : ℕ) (init done : Board)
    → 0 < init ((80 - left) / 9) ((80 - left) % 9)
    → moves (suc left) init done ≡ moves left init done
unfolding moves
moves_given left init done h = ground arith

play_rest :
    (left : ℕ) (init done cur : Board)
    → left ≤ 81
    → Digits done
    → Extends init done
    → Between (81 - left) init done cur
    → (i j : ℕ) → i < 9
    → j < 9
    → play cur (moves left init done) i j ≡ done i j
unfolding moves Between
play_rest zero init done cur le digits ext h i j hi hj = (h i j hi hj).0 (omega arith)
play_rest (suc left) init done cur le digits ext h i j hi hj =
    let a = (80 - left) / 9 in
    let b = (80 - left) % 9 in
    let k : suc (80 - left) ≡ 81 - left = omega arith in
    let k' : 81 - suc left ≡ 80 - left = omega arith in
    let before = subst (λ n. Between n init done cur) k' h in
    elim (cell-cases init a b) [
      | inl blank ↦
          let x = c2n (n2c (done a b)) in
          let x_lem = c2n-n2c (done a b) (digits a b (omega arith) (omega arith)) in
          ap (λ ms. play cur ms i j) (moves_blank left init done blank)
          ∙ play_rest left init done (store cur a b x) (omega arith) digits ext
              (subst (λ n. Between n init done (store cur a b x)) k
                (Between-store (80 - left) init done cur x x_lem before))
              i j hi hj
      | inr given ↦
          ap (λ ms. play cur ms i j) (moves_given left init done given)
          ∙ play_rest left init done cur (omega arith) digits ext
              (subst (λ n. Between n init done cur) k
                (Between-suc (80 - left) init done cur
                  (sym (ext a b (omega arith) (omega arith) given)) before))
              i j hi hj
    ]

-- The moves that main sends for a board of digits and a board that extends it turn the one into the
-- other, each being written in the cell that it names.
pub play-moves :
    (init done : Board)
    → Digits done
    → Extends init done
    → (i j : ℕ) → i < 9
    → j < 9
    → play init (moves 81 init done) i j ≡ done i j
unfolding Between
play-moves init done digits ext i j hi hj =
    play_rest 81 init done init (omega arith) digits ext
      (λ k l hk hl. (λ lt. absurd (omega arith), λ le. refl)) i j hi hj
