-- ===== src/Sudoku/Client.antt =====
-- The client that `main` is: the board read from the server's answer, and the moves sent to it.
pub mod Moves
use nycu_intro_np.Prelude.{
  ℕ, zero, suc, ◌+◌, ◌-◌, ◌*◌, ◌/◌, ◌%◌, ◌^◌, ◌≤◌, ◌<◌, ◌≡◌, ◌≢◌, refl, sym, ap, ◌∙◌, Bool, true,
  false, ◌==◌, Bool-cases, ==_iff, ◌↔◌, inl, inr, ◌⊎◌, arith, if◌then◌else◌, ltb, List, [], ◌∷◌,
  ◌++◌, Bytes, codes, decimal, Option, some, none, get_elem?, subst, ◌&&◌, append_assoc,
}
use nycu_intro_np.Sudoku.{Board, Outcome, store, solve}
use nycu_intro_np.Sudoku.Rules.{Digits}
use nycu_intro_np.Sudoku.Search.{store_at, store_else}
use nycu_intro_np.Sudoku.Solve.{Extends, cell-cases}

-- `char(x + '0')`, as a byte.
unfoldable pub n2c : ℕ → ℕ
n2c x = if x == 0 then 46 else (x + 48) % 256

-- A byte above 127 is a negative char, and size_t has 64 bits.
unfoldable pub c2n : ℕ → ℕ
c2n c =
    if c == 46
    then 0
    else if ltb c 128
    then (c + 2 ^ 64 - 48) % 2 ^ 64
    else (c + 2 ^ 64 - 304) % 2 ^ 64

-- The board in the buffer, an array of bytes.
unfoldable pub read_board : (ℕ → ℕ) → Board
read_board buf = λ i j. c2n (buf (4 + i * 9 + j))

-- A line "V i j c": the two indices and the character of a digit.
abbrev pub Move : Type 0
Move = ℕ × ℕ × ℕ

unfoldable pub render_move : Move → Bytes
render_move (i, j, c) =
    codes "V " ++ decimal i ++ codes " " ++ decimal j ++ codes " " ++ c ∷ codes "\n"

-- The two loops over the cells, from the cell 81 - left on.
unfoldable pub moves : ℕ → Board → Board → List Move
moves zero init done = []
moves (suc left) init done =
    let i = (80 - left) / 9 in
    let j = (80 - left) % 9 in
    let rest = moves left init done in if init i j == 0 then (i, j, n2c (done i j)) ∷ rest else rest

unfoldable pub render_moves : List Move → Bytes
render_moves [] = []
render_moves (m ∷ ms) = render_move m ++ render_moves ms

-- The program exits where there is no solution.
unfoldable pub finish_session : Board → Option Board → Bytes
finish_session init none = []
finish_session init (some done) = render_moves (moves 81 init done) ++ codes "C\n"

-- What main writes to the server, `buf` being the buffer behind the first answer; the other answers
-- are only shown.
unfoldable pub session : (ℕ → ℕ) → Bytes
session buf = let init = read_board buf in codes "S\n" ++ finish_session init (solve init)

-- A move as the puzzle's owner makes it: the digit is written in the cell.
abbrev pub play : Board → List Move → Board
play b [] = b
play b ((i, j, c) ∷ ms) = play (store b i j (c2n c)) ms
