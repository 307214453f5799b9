-- ===== src/Sudoku.antt =====
-- The solver of Lab/9/UNIX Domain Sudoku/solver.cpp: the board, `valid`, `dfs` and `solve`.
-- A board is an array of nine arrays of nine cells, here a function of the two indices; the search
-- stays within it. A cell is 0 while it is empty.
mod Client
mod Rules
mod Search
mod Solve
mod Tests
use nycu_intro_np.Prelude.{
  ℕ, zero, suc, ◌+◌, ◌-◌, ◌*◌, ◌/◌, ◌%◌, max, Bool, true, false, ◌&&◌, Option, none, some,
  if◌then◌else◌, ◌==◌, leb, Bytes,
}

abbrev pub Board : Type 0
Board = ℕ → ℕ → ℕ

unfoldable pub store : Board → ℕ → ℕ → ℕ → Board
store mp i j x = λ a b. if (a == i) && (b == j) then x else mp a b

-- `cnt[x]++` on an array of counts.
unfoldable pub bump : (ℕ → ℕ) → ℕ → ℕ → ℕ
bump cnt x = λ y. if x == y then suc (cnt y) else cnt y

-- The counts when the cells `g 0`, ..., `g (n - 1)` have been walked.
unfoldable pub tally : (ℕ → ℕ) → ℕ → ℕ → ℕ
tally g zero = λ _. 0
tally g (suc n) = bump (tally g n) (g n)

-- `cnt[0] = 0`.
unfoldable pub clear_empty : (ℕ → ℕ) → ℕ → ℕ
clear_empty cnt zero = 0
clear_empty cnt (suc y) = cnt (suc y)

-- `max_element` of the first n counts.
unfoldable pub max_element : (ℕ → ℕ) → ℕ → ℕ
max_element cnt zero = 0
max_element cnt (suc n) = max (max_element cnt n) (cnt n)

-- The body of each loop of `valid`: no digit comes twice in the nine cells of a group.
unfoldable pub group_valid : (ℕ → ℕ) → Bool
group_valid g = leb (max_element (clear_empty (tally g 9)) 10) 1

unfoldable pub row : Board → ℕ → ℕ → ℕ
row mp i = λ j. mp i j

unfoldable pub column : Board → ℕ → ℕ → ℕ
column mp i = λ j. mp j i

unfoldable pub box : Board → ℕ → ℕ → ℕ
box mp i = λ j. mp (i / 3 * 3 + j / 3) (i % 3 * 3 + j % 3)

-- A loop over the first n groups, which returns false at a group that is not valid.
unfoldable pub groups_valid : (ℕ → ℕ → ℕ) → ℕ → Bool
groups_valid group zero = true
groups_valid group (suc n) = groups_valid group n && group_valid (group n)

unfoldable pub valid : Board → Bool
valid mp = groups_valid (row mp) 9 && groups_valid (column mp) 9 && groups_valid (box mp) 9

-- A search ends with what it returns and the board as it left it.
abbrev pub Outcome : Type 0
Outcome = Bool × Board

-- `valid(mp) and dfs(mp, k+1)`, the call of dfs being `next`.
unfoldable pub attempt : (Board → Outcome) → Board → Outcome
attempt next mp = when (valid mp)
  where
    when : Bool → Outcome
    when true = next mp
    when false = (false, mp)

-- What is found ends the loop; the loop goes on with the board that an attempt leaves.
unfoldable pub or_else : Outcome → (Board → Outcome) → Outcome
or_else (true, mp) rest = (true, mp)
or_else (false, mp) rest = rest mp

-- The loop over x with n digits left, from 10 - n to 9, and the reset behind it.
unfoldable pub try_digits : (Board → Outcome) → ℕ → ℕ → ℕ → Board → Outcome
try_digits next i j zero mp = (false, store mp i j 0)
try_digits next i j (suc n) mp =
    or_else (attempt next (store mp i j (9 - n))) (try_digits next i j n)

-- `left` is 9 * 9 - k, the number of cells from k on.
unfoldable pub dfs : ℕ → Board → Outcome
dfs zero mp = (true, mp)
dfs (suc left) mp =
    let i = (80 - left) / 9 in let j = (80 - left) % 9 in visit (dfs left) i j mp (mp i j)
  where
    visit : (Board → Outcome) → ℕ → ℕ → Board → ℕ → Outcome
    visit next i j mp zero = try_digits next i j 9 mp
    visit next i j mp (suc x) = next mp

-- `none` where the program exits with "solve fail".
unfoldable pub finish : Outcome → Option Board
finish (true, done) = some done
finish (false, left) = none

unfoldable pub solve : Board → Option Board
solve mp = finish (dfs 81 mp)
