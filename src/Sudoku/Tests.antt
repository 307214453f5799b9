-- ===== src/Sudoku/Tests.antt =====
-- The solver on a concrete board.
use nycu_intro_np.Prelude.{
  ℕ, zero, suc, ◌<◌, ◌≡◌, refl, List, [], ◌∷◌, Bool, true, false, arith, none, some, ◌↔◌, ◌⊎◌,
  ==_iff, Bool-cases, inl, inr, leb, ltb, leb→le, ltb→lt, ◌||◌, codes, decimal, ◌&&◌, ◌==◌,
}
use nycu_intro_np.Sudoku.{
  Board, store, valid, dfs, solve, groups_valid, group_valid, row, column, box, tally, bump,
  clear_empty, max_element, try_digits, or_else, attempt,
}
use nycu_intro_np.Sudoku.Client.{moves, render_move, play, n2c}
use nycu_intro_np.Sudoku.Client.Moves.{play-moves}
use nycu_intro_np.Sudoku.Rules.{Digits, Consistent}
use nycu_intro_np.Sudoku.Rules.Valid.{valid_iff}
use nycu_intro_np.Sudoku.Solve.{Extends, Filled, Solution, solve_decides}

-- Cells out of the rows are empty.
abbrev cell_of : List ℕ → ℕ → ℕ
cell_of [] j = 0
cell_of (x ∷ xs) zero = x
cell_of (x ∷ xs) (suc j) = cell_of xs j

abbrev board_of : List (List ℕ) → Board
board_of [] i j = 0
board_of (r ∷ rs) zero j = cell_of r j
board_of (r ∷ rs) (suc i) j = board_of rs i j

abbrev rows : List (List ℕ)
rows =
    (5 ∷ 3 ∷ 4 ∷ 6 ∷ 7 ∷ 8 ∷ 9 ∷ 1 ∷ 2 ∷ [])
    ∷ (6 ∷ 7 ∷ 2 ∷ 1 ∷ 9 ∷ 5 ∷ 3 ∷ 4 ∷ 8 ∷ [])
    ∷ (1 ∷ 9 ∷ 8 ∷ 3 ∷ 4 ∷ 2 ∷ 5 ∷ 6 ∷ 7 ∷ [])
    ∷ (8 ∷ 5 ∷ 9 ∷ 7 ∷ 6 ∷ 1 ∷ 4 ∷ 2 ∷ 3 ∷ [])
    ∷ (4 ∷ 2 ∷ 6 ∷ 8 ∷ 5 ∷ 3 ∷ 7 ∷ 9 ∷ 1 ∷ [])
    ∷ (7 ∷ 1 ∷ 3 ∷ 9 ∷ 2 ∷ 4 ∷ 8 ∷ 5 ∷ 6 ∷ [])
    ∷ (9 ∷ 6 ∷ 1 ∷ 5 ∷ 3 ∷ 7 ∷ 2 ∷ 8 ∷ 4 ∷ [])
    ∷ (2 ∷ 8 ∷ 7 ∷ 4 ∷ 1 ∷ 9 ∷ 6 ∷ 3 ∷ 5 ∷ [])
    ∷ (3 ∷ 4 ∷ 5 ∷ 2 ∷ 8 ∷ 6 ∷ 1 ∷ 7 ∷ 9 ∷ [])
    ∷ []

abbrev full : Board
full = board_of rows

-- Two cells are open.
abbrev puzzle : Board
puzzle = store (store full 0 0 0) 4 4 0

full-valid : valid full ≡ true
unfolding valid groups_valid group_valid row column box tally bump clear_empty max_element
full-valid = refl

puzzle-valid : valid puzzle ≡ true
unfolding valid groups_valid group_valid row column box tally bump clear_empty max_element store
puzzle-valid = refl

puzzle_solved : (dfs 81 puzzle).0 ≡ true
unfolding dfs try_digits or_else attempt valid groups_valid group_valid row column box tally bump
    clear_empty max_element store
puzzle_solved = refl

every : (ℕ → Bool) → ℕ → Bool
every p zero = true
every p (suc n) = every p n && p n

every_lem : (p : ℕ → Bool) (n : ℕ) → every p n ≡ true → (i : ℕ) → i < n → p i ≡ true
unfolding every
every_lem p zero h i lt = absurd (omega arith)
every_lem p (suc n) h i lt = elim (Bool-cases (i == n)) [
  | inl same ↦ rw ((==_iff i n).0 same) (ground arith)
  | inr other ↦ every_lem p n (ground arith) i (ground (arith, other))
]

every_cell : (ℕ → ℕ → Bool) → Bool
every_cell p = every (λ i. every (p i) 9) 9

every_cell_lem : (p : ℕ → ℕ → Bool) → every_cell p ≡ true → (i j : ℕ) → i < 9 → j < 9 → p i j ≡ true
unfolding every_cell
every_cell_lem p h i j hi hj = every_lem (p i) 9 (every_lem (λ k. every (p k) 9) 9 h i hi) j hj

digits_full : every_cell (λ k l. leb (full k l) 9) ≡ true
unfolding every_cell every
digits_full = refl

full-Digits : Digits full
full-Digits i j hi hj =
    leb→le (full i j) 9 (every_cell_lem (λ k l. leb (full k l) 9) digits_full i j hi hj)

digits_puzzle : every_cell (λ k l. leb (puzzle k l) 9) ≡ true
unfolding every_cell every store
digits_puzzle = refl

puzzle-Digits : Digits puzzle
puzzle-Digits i j hi hj =
    leb→le (puzzle i j) 9 (every_cell_lem (λ k l. leb (puzzle k l) 9) digits_puzzle i j hi hj)

filled_full : every_cell (λ k l. ltb 0 (full k l)) ≡ true
unfolding every_cell every
filled_full = refl

full-Filled : Filled 81 full
full-Filled i j hi hj lt =
    ltb→lt 0 (full i j) (every_cell_lem (λ k l. ltb 0 (full k l)) filled_full i j hi hj)

kept : ℕ → ℕ → Bool
kept k l = (puzzle k l == 0) || (full k l == puzzle k l)

kept_all : every_cell kept ≡ true
unfolding every_cell every kept store
kept_all = refl

kept_lem : (p q : ℕ) → ((p == 0) || (q == p)) ≡ true → 0 < p → q ≡ p
kept_lem p q h pos = ground arith

puzzle-Extends : Extends puzzle full
unfolding kept
puzzle-Extends i j hi hj pos =
    kept_lem (puzzle i j) (full i j) (every_cell_lem kept kept_all i j hi hj) pos

full-Consistent : Consistent full
full-Consistent = (valid_iff full full-Digits).0 full-valid

valid_iff_example : (valid puzzle ≡ true) ↔ Consistent puzzle
valid_iff_example = valid_iff puzzle puzzle-Digits

solve_decides_example :
    ((s : Board) × (solve puzzle ≡ some s) × Solution puzzle s)
    ⊎ ((solve puzzle ≡ none) × ((s : Board) → ¬ Solution puzzle s))
solve_decides_example = solve_decides puzzle puzzle-Digits puzzle-valid

play-moves_example : play puzzle (moves 81 puzzle full) 4 4 ≡ full 4 4
play-moves_example =
    play-moves puzzle full full-Digits puzzle-Extends 4 4 (omega arith) (omega arith)

moves_example : moves 81 puzzle full ≡ (0, 0, 53) ∷ (4, 4, 53) ∷ []
unfolding moves store n2c
moves_example = refl

render_move_example : render_move (0, 4, 53) ≡ codes "V 0 4 5\n"
unfolding render_move decimal
render_move_example = refl

-- A board that no digit fits in: the open cell sees all nine.
abbrev stuck : Board
stuck = store (store full 0 0 0) 0 1 5

stuck_fails : (dfs 81 stuck).0 ≡ false
unfolding dfs try_digits or_else attempt valid groups_valid group_valid row column box tally bump
    clear_empty max_element store
stuck_fails = refl
