-- ===== src/Sudoku/Search.antt =====
-- The search: a failed one leaves the board as it was, and what a successful one has placed.
use mathlib.Core.Path.{fun_ext}
use nycu_intro_np.Prelude.{
  ℕ, zero, suc, ◌+◌, ◌-◌, ◌≤◌, ◌≡◌, refl, sym, ap, ◌∙◌, subst, Bool, true, false, ◌==◌, ==_iff,
  Bool-cases, inl, inr, arith, ◌⊎◌,
}
use nycu_intro_np.Sudoku.{Board, Outcome, store, valid, attempt, or_else, try_digits}

pub store-store : (b : Board) (i j x y : ℕ) → store (store b i j x) i j y ≡ store b i j y
unfolding store
store-store b i j x y = fun_ext (λ a. fun_ext (λ c. ground arith))

pub store_same : (b : Board) (i j : ℕ) → store b i j (b i j) ≡ b
unfolding store
store_same b i j = fun_ext (λ a. fun_ext (λ c. ground arith))

pub store_at : (b : Board) (i j x : ℕ) → store b i j x i j ≡ x
unfolding store
store_at b i j x = ground arith

pub store_else : (b : Board) (i j x a c : ℕ) → ((a ≡ i) → (c ≡ j) → ⊥) → store b i j x a c ≡ b a c
unfolding store
store_else b i j x a c ne = ground arith

-- A search that leaves the board as it was when it fails.
abbrev pub Restores : (Board → Outcome) → Type 0
Restores next = (b : Board) → (next b).0 ≡ false → (next b).1 ≡ b

or_else_found : (o : Outcome) (f : Board → Outcome) → o.0 ≡ true → or_else o f ≡ o
unfolding or_else
or_else_found (true, b) f h = refl
or_else_found (false, b) f h = ground arith

or_else_failed : (o : Outcome) (f : Board → Outcome) → o.0 ≡ false → or_else o f ≡ f o.1
unfolding or_else
or_else_failed (true, b) f h = ground arith
or_else_failed (false, b) f h = refl

pub attempt-valid : (next : Board → Outcome) (b : Board) → valid b ≡ true → attempt next b ≡ next b
unfolding attempt
attempt-valid next b h = rw h refl

pub attempt-invalid :
    (next : Board → Outcome) (b : Board) → valid b ≡ false → attempt next b ≡ (false, b)
unfolding attempt
attempt-invalid next b h = rw h refl

attempt-Restores : (next : Board → Outcome) → Restores next → Restores (attempt next)
attempt-Restores next r b h = elim (Bool-cases (valid b)) [
  | inl v ↦ rw (attempt-valid next b v) (r b (subst (λ o. o.0 ≡ false) (attempt-valid next b v) h))
  | inr v ↦ rw (attempt-invalid next b v) refl
]

-- The loop with a digit left: the digit 9 - n is found, or the loop goes on with it placed.
try_digits-cases :
    (next : Board → Outcome) (r : Restores next) (i j n : ℕ) (b : Board) (y : ℕ)
    → (((attempt next (store b i j (9 - n))).0 ≡ true)
        × (try_digits next i j (suc n) (store b i j y) ≡ attempt next (store b i j (9 - n))))
      ⊎ (((attempt next (store b i j (9 - n))).0 ≡ false)
          × (try_digits next i j (suc n) (store b i j y)
              ≡ try_digits next i j n (store b i j (9 - n))))
unfolding try_digits
try_digits-cases next r i j n b y =
    let p = store b i j (9 - n) in
    let step =
      ap (λ q. or_else (attempt next q) (try_digits next i j n)) (store-store b i j y (9 - n)) in
    elim (Bool-cases (attempt next p).0) [
      | inl t ↦ inl (t, step ∙ or_else_found (attempt next p) (try_digits next i j n) t)
      | inr f ↦ inr (
        f,
        step
            ∙ or_else_failed (attempt next p) (try_digits next i j n) f
            ∙ ap (try_digits next i j n) (attempt-Restores next r p f),
      )
    ]

pub true≢false-lem : {x : Bool} → x ≡ true → x ≡ false → ⊥
true≢false-lem t f = ground arith

-- A loop that fails empties the cell.
pub try_digits_failed :
    (next : Board → Outcome) (r : Restores next) (i j n : ℕ) (b : Board) (y : ℕ)
    → (try_digits next i j n (store b i j y)).0 ≡ false
    → (try_digits next i j n (store b i j y)).1 ≡ store b i j 0
unfolding try_digits
try_digits_failed next r i j zero b y h = store-store b i j y 0
try_digits_failed next r i j (suc n) b y h = elim (try_digits-cases next r i j n b y) [
  | inl (t, e) ↦ absurd (true≢false-lem (ap (λ o. o.0) e ∙ t) h)
  | inr (f, e) ↦
      ap (λ o. o.1) e ∙ try_digits_failed next r i j n b (9 - n) (sym (ap (λ o. o.0) e) ∙ h)
]

-- A loop that fails has tried every digit from 10 - n to 9 without success.
pub try_digits_tried :
    (next : Board → Outcome) (r : Restores next) (i j n : ℕ) (b : Board) (y : ℕ)
    → (try_digits next i j n (store b i j y)).0 ≡ false
    → (x : ℕ) → 10 ≤ x + n
    → x ≤ 9
    → (attempt next (store b i j x)).0 ≡ false
try_digits_tried next r i j zero b y h x lo hi = absurd (omega arith)
try_digits_tried next r i j (suc n) b y h x lo hi = elim (try_digits-cases next r i j n b y) [
  | inl (t, e) ↦ absurd (true≢false-lem (ap (λ o. o.0) e ∙ t) h)
  | inr (f, e) ↦ elim (Bool-cases (x == 9 - n)) [
    | inl same ↦
        subst (λ d. (attempt next (store b i j d)).0 ≡ false) (sym ((==_iff x (9 - n)).0 same)) f
    | inr other ↦
        try_digits_tried next r i j n b (9 - n) (sym (ap (λ o. o.0) e) ∙ h) x
          (ground (arith, other)) hi
  ]
]

-- A loop that succeeds has placed one of its digits, and ends as the attempt with it.
pub try_digits_found :
    (next : Board → Outcome) (r : Restores next) (i j n : ℕ) (b : Board) (y : ℕ)
    → n ≤ 9
    → (try_digits next i j n (store b i j y)).0 ≡ true
    → (x : ℕ) × (1 ≤ x)
      × (x ≤ 9)
      × ((attempt next (store b i j x)).0 ≡ true)
      × (try_digits next i j n (store b i j y) ≡ attempt next (store b i j x))
unfolding try_digits
try_digits_found next r i j zero b y le h = ground arith
try_digits_found next r i j (suc n) b y le h = elim (try_digits-cases next r i j n b y) [
  | inl (t, e) ↦ (9 - n, omega arith, omega arith, t, e)
  | inr (f, e) ↦
      let (x, lo, hi, found, same) =
        try_digits_found next r i j n b (9 - n) (omega arith) (sym (ap (λ o. o.0) e) ∙ h) in
      (x, lo, hi, found, e ∙ same)
]
