-- ===== src/Transfer/Pieces/Join.antt =====
-- Pieces of one buffer, whatever their order, put together again.
use nycu_intro_np.Prelude.{
  Distinct, Buffer, copy, byte_at, read_from, byte_at_padded, byte_at-take, byte_at-drop, read_all,
  ℕ, zero, suc, ◌+◌, ◌-◌, ◌*◌, ◌/◌, ◌%◌, ◌≤◌, ◌<◌, ◌≡◌, ◌≢◌, refl, sym, ap, ◌∙◌, [], ◌∷◌, Bytes,
  Map, Option, none, some, contains, find, nat_eq, length, take, drop, arith, true, false, ◌==◌,
  ==_iff, All, Bool-cases, inl, inr, ltb, ltb→lt, subst, find-contains-false, length-drop,
}
use nycu_intro_np.Transfer.Pieces.{pad, pieces, join}

drop-nil : (n : ℕ) → drop {A = ℕ} n [] ≡ []
drop-nil zero = refl
drop-nil (suc n) = refl

drop-drop : (n m : ℕ) (xs : Bytes) → drop n (drop m xs) ≡ drop (m + n) xs
drop-drop n zero xs = ap (λ k. drop k xs) (omega arith)
drop-drop n (suc m) [] = drop-nil n ∙ sym (drop-nil (suc m + n))
drop-drop n (suc m) (x ∷ xs) =
    let e : suc (m + n) ≡ suc m + n = omega arith in drop-drop n m xs ∙ ap (λ k. drop k (x ∷ xs)) e

-- The piece 0 begins where the buffer does.
pub drop_start : (size : ℕ) (comp : Bytes) → comp ≡ drop (0 * size) comp
drop_start size comp = let e : 0 ≡ 0 * size = omega arith in ap (λ k. drop k comp) e

mul_mono : (size i k : ℕ) → i ≤ k → i * size ≤ k * size
mul_mono size i k h = grind arith

-- Behind the piece i the piece i + 1 begins.
pub drop_next :
    (size i : ℕ) (comp rest : Bytes)
    → rest ≡ drop (i * size) comp
    → drop size rest ≡ drop (suc i * size) comp
drop_next size i comp rest e =
    let next : i * size + size ≡ suc i * size = grind arith in
    ap (drop size) e ∙ drop-drop size (i * size) comp ∙ ap (λ k. drop k comp) next

-- The piece i of a buffer.
abbrev pub piece : ℕ → Bytes → ℕ → Bytes
piece size comp i = take size (drop (i * size) comp)

-- An entry of the map of pieces that the sender keeps.
abbrev pub IsPiece : ℕ → Bytes → ℕ × Bytes → Type 0
IsPiece size comp e = (i : ℕ) × (e.0 ≡ suc i) × (i * size < length comp) × (e.1 ≡ piece size comp i)

-- An entry of the map of pieces that the receiver keeps.
abbrev pub IsPadded : ℕ → Bytes → ℕ × Bytes → Type 0
IsPadded size comp e =
    (i : ℕ) × (e.0 ≡ suc i) × (i * size < length comp) × (e.1 ≡ pad size (piece size comp i))

pieces_from :
    (size fuel i : ℕ) (comp rest : Bytes)
    → rest ≡ drop (i * size) comp
    → All (IsPiece size comp) (pieces size fuel (suc i) rest)
unfolding pieces
pieces_from size fuel i comp [] e = tt
pieces_from size zero i comp (x ∷ xs) e = tt
pieces_from size (suc fuel) i comp (x ∷ xs) e =
    let here : i * size < length comp = omega (arith, ap length e, length-drop (i * size) comp) in
    (
      (i, refl, here, ap (take size) e),
      pieces_from size fuel (suc i) comp (drop size (x ∷ xs)) (drop_next size i comp (x ∷ xs) e),
    )

-- All pieces of a buffer are pieces of it.
pub pieces-IsPiece :
    (size fuel : ℕ) (comp : Bytes) → All (IsPiece size comp) (pieces size fuel 1 comp)
pieces-IsPiece size fuel comp = pieces_from size fuel 0 comp comp (drop_start size comp)

find_from :
    (size fuel i k : ℕ) (comp rest : Bytes)
    → 0 < size
    → rest ≡ drop (i * size) comp
    → length rest ≤ fuel
    → k * size < length comp
    → i ≤ k
    → find (suc k) (pieces size fuel (suc i) rest) ≡ some (piece size comp k)
unfolding pieces find
find_from size fuel i k comp [] pos e f lt le =
    absurd (omega (arith, ap length e, length-drop (i * size) comp, mul_mono size i k le))
find_from size zero i k comp (x ∷ xs) pos e f lt le = absurd (omega arith)
find_from size (suc fuel) i k comp (x ∷ xs) pos e f lt le = elim (Bool-cases (i == k)) [
  | inl same ↦
      let p = (==_iff i k).0 same in
      let here = ap (take size) e ∙ ap (λ m. take size (drop (m * size) comp)) p in
      ground (arith, same, here)
  | inr other ↦
      let rest = drop size (x ∷ xs) in
      let ih =
        find_from size fuel (suc i) k comp rest pos (drop_next size i comp (x ∷ xs) e)
          (omega (arith, length-drop size (x ∷ xs))) lt (ground (arith, other)) in
      ground (arith, other, ih)
]

-- The sender has every piece.
pub find-pieces :
    (size k : ℕ) (comp : Bytes)
    → 0 < size
    → k * size < length comp
    → find (suc k) (pieces size (length comp) 1 comp) ≡ some (piece size comp k)
find-pieces size k comp pos lt =
    find_from size (length comp) 0 k comp comp pos (drop_start size comp) (omega arith) lt
      (omega arith)

byte_at-piece :
    (size i r : ℕ) (comp : Bytes)
    → r < size
    → byte_at (pad size (piece size comp i)) r ≡ byte_at comp (i * size + r)
unfolding pad
byte_at-piece size i r comp lt =
    byte_at_padded (size - length (piece size comp i)) (piece size comp i) r
    ∙ byte_at-take size (drop (i * size) comp) r lt
    ∙ byte_at-drop (i * size) comp r

-- What the buffer holds at a byte of the piece i.
cell : Option Bytes → Option ℕ → ℕ → Option ℕ
cell none old r = old
cell (some v) old r = some (byte_at v r)

copy_here :
    (size i r : ℕ) (buf : Buffer) (v : Bytes)
    → r < size
    → copy size buf (i * size) v (i * size + r) ≡ some (byte_at v r)
unfolding copy
copy_here size i r buf v lt = let e : i * size + r - i * size ≡ r = omega arith in ground (arith, e)

copy_else :
    (size i k r : ℕ) (buf : Buffer) (v : Bytes)
    → r < size
    → i ≢ k
    → copy size buf (k * size) v (i * size + r) ≡ buf (i * size + r)
unfolding copy
copy_else size i k r buf v lt ne = elim (Bool-cases (ltb i k)) [
  | inl below ↦
      let apart = mul_mono size (suc i) k (ltb→lt i k below) in
      let next : suc i * size ≡ i * size + size = grind arith in ground (arith, apart, next)
  | inr above ↦
      let apart = mul_mono size (suc k) i (ground (arith, above, ne)) in
      let next : suc k * size ≡ k * size + size = grind arith in ground (arith, apart, next)
]

-- One more piece written, and looked up.
cell-cons :
    (size k j r : ℕ) (buf : Buffer) (v : Bytes) (m : Map ℕ Bytes)
    → r < size
    → contains (suc k) m ≡ false
    → cell (find (suc j) m) (copy size buf (k * size) v (j * size + r)) r
      ≡ cell (find (suc j) ((suc k, v) ∷ m)) (buf (j * size + r)) r
unfolding cell find
cell-cons size k j r buf v m le new = elim (Bool-cases (k == j)) [
  | inl here ↦
      let p = (==_iff k j).0 here in
      let absent = find-contains-false (suc k) m new in
      let written = copy_here size k r buf v le in
      subst
        (λ n.
          cell (find (suc n) m) (copy size buf (k * size) v (n * size + r)) r
          ≡ cell (find (suc n) ((suc k, v) ∷ m)) (buf (n * size + r)) r)
        p (ground (arith, absent, written))
  | inr other ↦
      let old = copy_else size j k r buf v le (λ e. ground (arith, other, e)) in
      ground (arith, other, old)
]

-- The loop over the pieces writes none past the end, and leaves at every byte what the piece there
-- has; a byte that no piece covers stays as it was.
join_lem :
    (size cap : ℕ) (comp : Bytes) (m : Map ℕ Bytes) (buf : Buffer)
    → ((i : ℕ) → i * size < length comp → i * size + size ≤ cap)
    → Distinct m
    → All (IsPadded size comp) m
    → (after : Buffer) × (join size cap m buf ≡ some after)
      × ((i r : ℕ) → r < size → after (i * size + r) ≡ cell (find (suc i) m) (buf (i * size + r)) r)
unfolding join cell find
join_lem size cap comp [] buf room d h = (buf, refl, λ i r lt. refl)
join_lem size cap comp ((zero, v) ∷ m) buf room d ((i, e, lt, w), h) = absurd (omega arith)
join_lem size cap comp ((suc k, v) ∷ m) buf room (new, d) ((i, e, lt, w), h) =
    let same : i ≡ k = omega arith in
    let (after, ran, holds) = join_lem size cap comp m (copy size buf (k * size) v) room d h in
    let fits : k * size + size ≤ cap = subst (λ n. n * size + size ≤ cap) same (room i lt) in
    (after, ground (arith, ran, fits), λ j r le. holds j r le ∙ cell-cons size k j r buf v m le new)

All-find {κ} :
    (P : ℕ × Bytes → Type κ) (k : ℕ) (m : Map ℕ Bytes) {v : Bytes}
    → All P m
    → find k m ≡ some v
    → P (k, v)
unfolding find
All-find P k [] h e = absurd (cc)
All-find P k ((j, w) ∷ m) {v} h e = elim (Bool-cases (j == k)) [
  | inl same ↦
      let here : w ≡ v = ground arith in
      subst (λ u. P (k, u)) here (subst (λ n. P (n, w)) ((==_iff j k).0 same) h.0)
  | inr other ↦ All-find P k m h.1 (ground arith)
]

find-some : (k : ℕ) (m : Map ℕ Bytes) → contains k m ≡ true → (v : Bytes) × (find k m ≡ some v)
unfolding find contains
find-some k [] h = absurd (cc)
find-some k ((j, w) ∷ m) h = elim (Bool-cases (j == k)) [
  | inl same ↦ (w, ground arith)
  | inr other ↦ let (v, e) = find-some k m (ground arith) in (v, ground arith)
]

-- The index of a byte's piece, and the byte's place in it.
split_index : (size x : ℕ) → 0 < size → (i : ℕ) × (r : ℕ) × (x ≡ i * size + r) × (r < size)
split_index size x pos = (x / size, x % size, grind arith, grind arith)

-- With all pieces there the buffer holds what was cut up, whatever the order in which they came.
pub read_from-join :
    (size cap : ℕ) (comp : Bytes) (m : Map ℕ Bytes) (buf : Buffer)
    → 0 < size
    → ((i : ℕ) → i * size < length comp → i * size + size ≤ cap)
    → Distinct m
    → All (IsPadded size comp) m
    → ((i : ℕ) → i * size < length comp → contains (suc i) m ≡ true)
    → (after : Buffer) × (join size cap m buf ≡ some after)
      × (read_from (length comp) 0 after ≡ some comp)
unfolding cell
read_from-join size cap comp m buf pos room d h all_there =
    let (after, ran, holds) = join_lem size cap comp m buf room d h in
    (
      after,
      ran,
      read_all comp 0 after (λ x lt.
          let (i, r, e, le) = split_index size x pos in
          let (v, at) = find-some (suc i) m (all_there i (omega arith)) in
          let (i', k', l', w) = All-find (IsPadded size comp) (suc i) m h at in
          let same : i' ≡ i = omega arith in
          let padded : v ≡ pad size (piece size comp i) =
            subst (λ n. v ≡ pad size (piece size comp n)) same w in
          let place : 0 + x ≡ i * size + r = omega arith in
          ap after place
          ∙ holds i r le
          ∙ ap (λ o. cell o (buf (i * size + r)) r) at
          ∙ ap (λ u. some (byte_at u r)) padded
          ∙ ap some (byte_at-piece size i r comp le)
          ∙ ap (λ n. some (byte_at comp n)) (sym e)),
    )
