-- ===== src/Dnsd/Dn/Labels.antt =====
-- Names in messages: `dn2data` and `data2dn`.
use mathlib.Core.List.{reverse-reverse}
use nycu_intro_np.Prelude.{
  ℕ, ◌≤◌, ◌<◌, ◌%◌, suc, zero, ◌≡◌, refl, ◌∙◌, List, [], ◌∷◌, ◌++◌, reverse, some, Bytes, length,
  length-append, take-length-append, drop-length-append, append_assoc, All, arith, append-nil,
}
use nycu_intro_np.Dnsd.Dn.{Dn, put_labels, dn2data, get_labels, data2dn}

-- A label that its length byte describes: not empty, and shorter than 256.
abbrev pub FitsByte : Bytes → Type 0
FitsByte l = (0 < length l) × (length l < 256)

get_labels_end :
    (fuel : ℕ) (acc : Dn) (rest : Bytes) → get_labels (suc fuel) acc (0 ∷ rest) ≡ some (acc, rest)
unfolding get_labels
get_labels_end fuel acc rest = refl

get_labels_label :
    (fuel : ℕ) (acc : Dn) (l more : Bytes)
    → FitsByte l
    → get_labels (suc fuel) acc (length l % 256 ∷ (l ++ more))
      ≡ get_labels fuel (acc ++ l ∷ []) more
unfolding get_labels
get_labels_label fuel acc l more h =
    let e : length l % 256 ≡ length l = omega arith in
    rw (e, take-length-append l more, drop-length-append l more)
      (ground (arith, length-append l more))

get_labels-put_labels :
    (ls : List Bytes) (fuel : ℕ) (acc : Dn) (rest : Bytes)
    → All FitsByte ls
    → length ls < fuel
    → get_labels fuel acc (put_labels ls ++ 0 ∷ rest) ≡ some (acc ++ ls, rest)
unfolding put_labels
get_labels-put_labels [] zero acc rest h f = absurd (omega arith)
get_labels-put_labels [] (suc fuel) acc rest h f = rw append-nil (get_labels_end fuel acc rest)
get_labels-put_labels (l ∷ ls) zero acc rest h f = absurd (omega arith)
get_labels-put_labels (l ∷ ls) (suc fuel) acc rest h f =
    rw (append_assoc l (put_labels ls) (0 ∷ rest)) (
      get_labels_label fuel acc l (put_labels ls ++ 0 ∷ rest) h.0
      ∙ get_labels-put_labels ls fuel (acc ++ l ∷ []) rest h.1 (omega arith)
      ∙ rw append_assoc)

length-put_labels : (ls : List Bytes) → length ls ≤ length (put_labels ls)
unfolding put_labels
length-put_labels [] = omega arith
length-put_labels (l ∷ ls) = omega (arith, length-append l (put_labels ls), length-put_labels ls)

data2dn-some :
    (bytes : Bytes) (ls : List Bytes) (rest : Bytes)
    → get_labels (suc (length bytes)) [] bytes ≡ some (ls, rest)
    → data2dn bytes ≡ some (reverse ls, rest)
unfolding data2dn
data2dn-some bytes ls rest e = ground arith

-- A name is read back from what it was written as, and the pointer then stands behind it. The labels
-- are not empty and shorter than 256.
pub data2dn-dn2data :
    (dn : Dn) (rest : Bytes)
    → All FitsByte (reverse dn)
    → data2dn (dn2data dn ++ rest) ≡ some (dn, rest)
unfolding dn2data
data2dn-dn2data dn rest h =
    let bytes = put_labels (reverse dn) ++ 0 ∷ rest in
    let read = get_labels-put_labels (reverse dn) (suc (length bytes)) [] rest h (
      omega (
        arith,
        length-append (put_labels (reverse dn)) (0 ∷ rest),
        length-put_labels (reverse dn),
      )) in
    rw (append_assoc (put_labels (reverse dn)) (0 ∷ []) rest)
      (data2dn-some bytes (reverse dn) rest read ∙ rw reverse-reverse)
