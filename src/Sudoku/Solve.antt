-- ===== src/Sudoku/Solve.antt =====
-- What `dfs` and `solve` find: solutions only, and one wherever there is one.
use nycu_intro_np.Prelude.{
  ℕ, zero, suc, ◌+◌, ◌-◌, ◌*◌, ◌/◌, ◌%◌, ◌≤◌, ◌<◌, ◌≡◌, refl, sym, ap, ◌∙◌, subst, true, false,
  Bool-cases, inl, inr, arith, ◌⊎◌, none, some,
}
use nycu_intro_np.Sudoku.{Board, Outcome, store, valid, attempt, try_digits, dfs, finish, solve}
use nycu_intro_np.Sudoku.Rules.{Digits, Consistent}
use nycu_intro_np.Sudoku.Rules.Valid.{valid_iff}
use nycu_intro_np.Sudoku.Search.{
  Restores, store_same, store_at, store_else, attempt-valid, attempt-invalid, try_digits_failed,
  try_digits_tried, try_digits_found, true≢false-lem,
}

-- A board that keeps what another one has filled in.
abbrev pub Extends : Board → Board → Type 0
Extends b s = (i j : ℕ) → i < 9 → j < 9 → 0 < b i j → s i j ≡ b i j

-- The first n cells are filled in.
abbrev pub Filled : ℕ → Board → Type 0
Filled n b = (i j : ℕ) → i < 9 → j < 9 → i * 9 + j < n → 0 < b i j

-- A full board that keeps the given digits and obeys the rules.
abbrev pub Solution : Board → Board → Type 0
Solution b s = Digits s × Filled 81 s × Extends b s × Consistent s

pub cell-cases : (b : Board) (i j : ℕ) → (b i j ≡ 0) ⊎ (0 < b i j)
cell-cases b i j = ground arith

-- Storing an empty cell over an empty cell changes nothing.
store_blank : (b : Board) (i j : ℕ) → b i j ≡ 0 → store b i j 0 ≡ b
store_blank b i j h = subst (λ x. store b i j x ≡ b) h (store_same b i j)

dfs_given :
    (left : ℕ) (b : Board)
    → 0 < b ((80 - left) / 9) ((80 - left) % 9)
    → dfs (suc left) b ≡ dfs left b
unfolding dfs
dfs_given left b h = ground arith

dfs_blank :
    (left : ℕ) (b : Board)
    → b ((80 - left) / 9) ((80 - left) % 9) ≡ 0
    → dfs (suc left) b
      ≡ try_digits
          (dfs left)
          ((80 - left) / 9)
          ((80 - left) % 9)
          9
          (store b ((80 - left) / 9) ((80 - left) % 9) 0)
unfolding dfs
dfs_blank left b h = rw (store_blank b ((80 - left) / 9) ((80 - left) % 9) h) (ground arith)

dfs-Restores : (left : ℕ) → Restores (dfs left)
unfolding dfs
dfs-Restores zero b h = absurd (true≢false-lem refl h)
dfs-Restores (suc left) b h =
    let i = (80 - left) / 9 in
    let j = (80 - left) % 9 in
    elim (cell-cases b i j) [
      | inl blank ↦
          let e = dfs_blank left b blank in
          ap (λ o. o.1) e
          ∙ try_digits_failed (dfs left) (dfs-Restores left) i j 9 b 0 (sym (ap (λ o. o.0) e) ∙ h)
          ∙ store_blank b i j blank
      | inr given ↦
          let e = dfs_given left b given in
          ap (λ o. o.1) e ∙ dfs-Restores left b (sym (ap (λ o. o.0) e) ∙ h)
    ]

Extends-Consistent : (b s : Board) → Extends b s → Consistent s → Consistent b
Extends-Consistent b s ext h i j k l hi hj hk hl lt sees pos e =
    let here = ext i j hi hj pos in
    h i j k l hi hj hk hl lt sees (omega (arith, here))
      (here ∙ e ∙ sym (ext k l hk hl (omega (arith, e))))

Extends-Digits : (b s : Board) → Extends b s → Digits s → Digits b
Extends-Digits b s ext h i j hi hj = elim (cell-cases b i j) [
  | inl blank ↦ omega arith
  | inr given ↦ omega (arith, ext i j hi hj given, h i j hi hj)
]

-- What a board with the cells below k in order has when the cell k is filled in as well.
Filled-suc : (b : Board) (k : ℕ) → Filled k b → 0 < b (k / 9) (k % 9) → Filled (suc k) b
Filled-suc b k h here i j hi hj lt = elim (cell-cases b i j) [
  | inl blank ↦
      let before : i * 9 + j < k → ⊥ = λ l. omega (arith, blank, h i j hi hj l) in
      let at : i * 9 + j ≡ k = ground arith in
      subst (λ n. 0 < b i n) (omega arith) (subst (λ n. 0 < b n (k % 9)) (omega arith) here)
  | inr given ↦ given
]

-- A digit stored in an empty cell.
Extends-store : (b : Board) (i j x : ℕ) → b i j ≡ 0 → Extends b (store b i j x)
Extends-store b i j x blank k l hk hl pos =
    store_else b i j x k l (λ p q. omega (arith, pos, blank, ap (λ m. b m l) p ∙ ap (b i) q))

Extends-trans : (b p s : Board) → Extends b p → Extends p s → Extends b s
Extends-trans b p s h h' i j hi hj pos =
    let e = h i j hi hj pos in h' i j hi hj (omega (arith, e, pos)) ∙ e

Extends-Filled : (b s : Board) (k : ℕ) → Extends b s → Filled k b → Filled k s
Extends-Filled b s k ext h i j hi hj lt =
    let pos = h i j hi hj lt in omega (arith, pos, ext i j hi hj pos)

Digits-store : (b : Board) (i j x : ℕ) → Digits b → x ≤ 9 → Digits (store b i j x)
unfolding store
Digits-store b i j x h le k l hk hl = let old = h k l hk hl in ground arith

-- What a search from a board ends with when it succeeds.
abbrev Ends : Board → Outcome → Type 0
Ends b o = Digits o.1 × Filled 81 o.1 × Extends b o.1 × (valid o.1 ≡ true)

-- An attempt succeeds where the board is valid and the search behind it succeeds.
attempt_found :
    (next : Board → Outcome) (p : Board)
    → (attempt next p).0 ≡ true
    → (valid p ≡ true) × ((next p).0 ≡ true) × (attempt next p ≡ next p)
attempt_found next p h = elim (Bool-cases (valid p)) [
  | inl v ↦ let e = attempt-valid next p v in (v, sym (ap (λ o. o.0) e) ∙ h, e)
  | inr f ↦ absurd (true≢false-lem h (ap (λ o. o.0) (attempt-invalid next p f)))
]

-- A search that succeeds from a board of digits that is valid, its first cells filled in, ends with a
-- full valid board of digits that keeps the board's.
dfs_sound :
    (left : ℕ) (b : Board)
    → left ≤ 81
    → Digits b
    → valid b ≡ true
    → Filled (81 - left) b
    → (dfs left b).0 ≡ true
    → Ends b (dfs left b)
unfolding dfs
dfs_sound zero b le digits v filled h = (digits, filled, λ i j hi hj pos. refl, v)
dfs_sound (suc left) b le digits v filled h =
    let i = (80 - left) / 9 in
    let j = (80 - left) % 9 in
    let k : suc (80 - left) ≡ 81 - left = omega arith in
    let k' : 81 - suc left ≡ 80 - left = omega arith in
    let before = subst (λ n. Filled n b) k' filled in
    elim (cell-cases b i j) [
      | inl blank ↦
          let e = dfs_blank left b blank in
          let (x, lo, hi, found, same) =
            try_digits_found (dfs left) (dfs-Restores left) i j 9 b 0 (omega arith)
              (sym (ap (λ o. o.0) e) ∙ h) in
          let p = store b i j x in
          let (v', found', e') = attempt_found (dfs left) p found in
          let ext = Extends-store b i j x blank in
          let here : 0 < p i j = omega (arith, store_at b i j x) in
          let filled' = Filled-suc p (80 - left) (Extends-Filled b p (80 - left) ext before) here in
          let (d, f, ext', w) =
            dfs_sound left p (omega arith) (Digits-store b i j x digits hi) v'
              (subst (λ n. Filled n p) k filled') found' in
          subst (Ends b) (sym (e ∙ same ∙ e')) (d, f, Extends-trans b p (dfs left p).1 ext ext', w)
      | inr given ↦
          let e = dfs_given left b given in
          subst (Ends b) (sym e) (
            dfs_sound left b (omega arith) digits v
              (subst (λ n. Filled n b) k (Filled-suc b (80 - left) before given))
              (sym (ap (λ o. o.0) e) ∙ h))
    ]

cell_same : (k i l j : ℕ) → ((k ≡ i) × (l ≡ j)) ⊎ ((k ≡ i) → (l ≡ j) → ⊥)
cell_same k i l j = ground arith

-- A solution of a board is one of the board with a digit of the solution stored.
Extends-store_solution : (b s : Board) (i j : ℕ) → Extends b s → Extends (store b i j (s i j)) s
Extends-store_solution b s i j ext k l hk hl pos = elim (cell_same k i l j) [
  | inl (p, q) ↦
      ap (λ m. s m l) p
      ∙ ap (s i) q
      ∙ sym (
          ap (λ m. store b i j (s i j) m l) p
          ∙ ap (store b i j (s i j) i) q
          ∙ store_at b i j (s i j))
  | inr other ↦
      let e = store_else b i j (s i j) k l other in ext k l hk hl (omega (arith, e, pos)) ∙ sym e
]

-- A search that fails from a board fails since the board has no solution.
dfs_complete : (left : ℕ) (b s : Board) → left ≤ 81 → (dfs left b).0 ≡ false → ¬ Solution b s
unfolding dfs
dfs_complete zero b s le h sol = true≢false-lem refl h
dfs_complete (suc left) b s le h (digits, filled, ext, rules) =
    let i = (80 - left) / 9 in
    let j = (80 - left) % 9 in
    elim (cell-cases b i j) [
      | inl blank ↦
          let x = s i j in
          let p = store b i j x in
          let e = dfs_blank left b blank in
          let failed =
            try_digits_tried (dfs left) (dfs-Restores left) i j 9 b 0 (sym (ap (λ o. o.0) e) ∙ h) x
              (omega (arith, filled i j (omega arith) (omega arith) (omega arith)))
              (digits i j (omega arith) (omega arith)) in
          let ext' = Extends-store_solution b s i j ext in
          let v =
            (valid_iff p (Extends-Digits p s ext' digits)).1 (Extends-Consistent p s ext' rules) in
          dfs_complete left p s (omega arith)
            (sym (ap (λ o. o.0) (attempt-valid (dfs left) p v)) ∙ failed)
            (digits, filled, ext', rules)
      | inr given ↦
          dfs_complete left b s (omega arith) (sym (ap (λ o. o.0) (dfs_given left b given)) ∙ h)
            (digits, filled, ext, rules)
    ]

finish_found : (o : Outcome) → o.0 ≡ true → finish o ≡ some o.1
unfolding finish
finish_found (true, b) h = refl
finish_found (false, b) h = absurd (true≢false-lem h refl)

finish_failed : (o : Outcome) → o.0 ≡ false → finish o ≡ none
unfolding finish
finish_failed (true, b) h = absurd (true≢false-lem refl h)
finish_failed (false, b) h = refl

-- A search that fails leaves the board as it was.
dfs_failed : (left : ℕ) (b : Board) → (dfs left b).0 ≡ false → (dfs left b).1 ≡ b
dfs_failed left b h = dfs-Restores left b h

-- From a valid board of digits, solve returns a solution of the board, a full board of digits that
-- keeps the given ones and in which no two cells of a row, a column or a square are equal, or it
-- gives up and the board has no solution.
pub solve_decides :
    (b : Board)
    → Digits b
    → valid b ≡ true
    → ((s : Board) × (solve b ≡ some s) × Solution b s)
      ⊎ ((solve b ≡ none) × ((s : Board) → ¬ Solution b s))
unfolding solve
solve_decides b digits v = elim (Bool-cases (dfs 81 b).0) [
  | inl t ↦
      let (d, f, ext, w) =
        dfs_sound 81 b (omega arith) digits v (λ i j hi hj lt. absurd (omega arith)) t in
      inl ((dfs 81 b).1, finish_found (dfs 81 b) t, (d, f, ext, (valid_iff (dfs 81 b).1 d).0 w))
  | inr f ↦ inr (finish_failed (dfs 81 b) f, λ s. dfs_complete 81 b s (omega arith) f)
]

-- A board that has a solution is solved: solve returns a solution of it, maybe another one.
solve_finds : (b s : Board) → Solution b s → (t : Board) × (solve b ≡ some t) × Solution b t
solve_finds b s sol =
    let digits = Extends-Digits b s sol.2 sol.0 in
    let v = (valid_iff b digits).1 (Extends-Consistent b s sol.2 sol.3) in
    elim (solve_decides b digits v) [
      | inl found ↦ found
      | inr (gave_up, unsolvable) ↦ absurd (unsolvable s sol)
    ]
