-- ===== src/Chat/Table.antt =====
-- The table of /who fits into the memory that is set aside for it.
use nycu_intro_np.Prelude.{
  ℕ, zero, suc, ◌+◌, ◌-◌, ◌*◌, ◌≤◌, ◌<◌, max, ◌≡◌, refl, sym, ap, ◌∙◌, subst, [], ◌∷◌, ◌++◌,
  append_assoc, append-nil, Bytes, none, some, Map, length, length-append, length-replicate,
  replicate, ltb, Buffer, copy, read_from, read_all, byte_at, All, arith, Bool-cases, inl, inr,
  ltb→lt,
}
use nycu_intro_np.Chat.State.{Client, Server}
use nycu_intro_np.Chat.Who.{
  pad_left, pad_right, max_name, who_row, write_at, dash_line, write_rows, finish_table, who_table,
  to_client, who,
}
use nycu_intro_np.Chat.Counted.{IsCounted}

byte_at-append_left : (xs ys : Bytes) (k : ℕ) → k < length xs → byte_at (xs ++ ys) k ≡ byte_at xs k
unfolding byte_at
byte_at-append_left [] ys k h = absurd (omega arith)
byte_at-append_left (x ∷ xs) ys zero h = refl
byte_at-append_left (x ∷ xs) ys (suc k) h = byte_at-append_left xs ys k (omega arith)

byte_at-append_right :
    (xs ys : Bytes) (k : ℕ) → length xs ≤ k → byte_at (xs ++ ys) k ≡ byte_at ys (k - length xs)
unfolding byte_at
byte_at-append_right [] ys k h = ap (byte_at ys) (omega arith)
byte_at-append_right (x ∷ xs) ys zero h = absurd (omega arith)
byte_at-append_right (x ∷ xs) ys (suc k) h =
    byte_at-append_right xs ys k (omega arith) ∙ ap (byte_at ys) (omega arith)

-- The buffer begins with a text.
abbrev Holds : Buffer → Bytes → Type 0
Holds buf xs = (k : ℕ) → k < length xs → buf k ≡ some (byte_at xs k)

Holds-copy :
    (buf : Buffer) (xs frag : Bytes)
    → Holds buf xs
    → Holds (copy (length frag) buf (length xs) frag) (xs ++ frag)
unfolding copy
Holds-copy buf xs frag h k lt = elim (Bool-cases (ltb k (length xs))) [
  | inl before ↦
      let e = h k (ltb→lt k (length xs) before) in
      let f = byte_at-append_left xs frag k (ltb→lt k (length xs) before) in
      ground (arith, before, e, f)
  | inr behind ↦
      let f = byte_at-append_right xs frag k (ground (arith, behind)) in
      ground (arith, behind, f, length-append xs frag)
]

Holds-left : (buf : Buffer) (xs ys : Bytes) → Holds buf (xs ++ ys) → Holds buf xs
Holds-left buf xs ys h k lt =
    h k (omega (arith, length-append xs ys)) ∙ ap some (byte_at-append_left xs ys k lt)

-- A write behind what the buffer begins with.
write_at_end :
    (size off : ℕ) (buf : Buffer) (xs frag : Bytes)
    → Holds buf xs
    → off ≡ length xs
    → off + length frag ≤ size
    → (after : Buffer) × (write_at size off frag buf ≡ some after) × Holds after (xs ++ frag)
unfolding write_at
write_at_end size off buf xs frag h e room = (
  copy (length frag) buf off frag,
  ground arith,
  subst (λ n. Holds (copy (length frag) buf n frag) (xs ++ frag)) (sym e)
      (Holds-copy buf xs frag h),
)

-- The rows one behind the other.
pub rows : ℕ → ℕ → Map ℕ Client → Bytes
rows connfd mxname [] = []
rows connfd mxname ((fd, c) ∷ m) = who_row connfd mxname fd c ++ rows connfd mxname m

abbrev pub Fits : ℕ → ℕ × Client → Type 0
Fits mxname entry = (length entry.1.name ≤ mxname) × (length entry.1.info ≤ 21)

length-who_row :
    (connfd mxname fd : ℕ) (c : Client)
    → Fits mxname (fd, c)
    → length (who_row connfd mxname fd c) ≡ mxname + 25
unfolding who_row
length-who_row connfd mxname fd c h =
    let name = length-append c.name (replicate (mxname - length c.name) b' ') in
    let info = length-append (replicate (21 - length c.info) b' ') c.info in
    let all_name =
      length-append (pad_right mxname c.name) (b' ' ∷ (pad_left 21 c.info ++ b'\n' ∷ [])) in
    let all_info = length-append (pad_left 21 c.info) (b'\n' ∷ []) in
    let a = length-replicate {A = ℕ} (mxname - length c.name) b' ' in
    let b = length-replicate {A = ℕ} (21 - length c.info) b' ' in omega arith

mul_suc : (len k : ℕ) → len * suc k ≡ len * k + len
mul_suc len k = grind arith

write_rows_lem :
    (size len connfd mxname k : ℕ) (m : Map ℕ Client) (buf : Buffer) (xs : Bytes)
    → len ≡ mxname + 25
    → All (Fits mxname) m
    → Holds buf xs
    → length xs ≡ len * suc k
    → len * (suc k + length m) + 1 ≤ size
    → (after : Buffer) × (write_rows size len connfd mxname k m (some buf) ≡ some after)
      × Holds after (xs ++ rows connfd mxname m)
      × (length (xs ++ rows connfd mxname m) ≡ len * (suc k + length m))
unfolding write_rows rows
write_rows_lem size len connfd mxname k [] buf xs l fit h e room = (
  buf,
  refl,
  subst (Holds buf) (sym (append-nil xs)) h,
  ap length (append-nil xs) ∙ e ∙ ap (◌*◌ len) (omega arith),
)
write_rows_lem size len connfd mxname k ((fd, c) ∷ m) buf xs l fit h e room =
    let row = who_row connfd mxname fd c in
    let row_length = length-who_row connfd mxname fd c fit.0 in
    let here : len * (suc k + suc (length m)) ≡ len * suc k + len + len * length m = grind arith in
    let (next, wrote, holds) =
      write_at_end size (len * suc k) buf xs (row ++ 0 ∷ []) h (sym e)
        (omega (arith, length-append row (0 ∷ []))) in
    let holds' =
      Holds-left next (xs ++ row) (0 ∷ [])
        (subst (Holds next) (sym (append_assoc xs row (0 ∷ []))) holds) in
    let count : suc (suc k) + length m ≡ suc k + suc (length m) = omega arith in
    let (after, ran, done, total) =
      write_rows_lem size len connfd mxname (suc k) m next (xs ++ row) l fit.1 holds'
        (omega (arith, length-append xs row, mul_suc len (suc k)))
        (subst (λ n. len * n + 1 ≤ size) (sym count) room) in
    let regroup = append_assoc xs row (rows connfd mxname m) in
    (
      after,
      ap (write_rows size len connfd mxname (suc k) m) wrote ∙ ran,
      subst (Holds after) regroup done,
      ap length (sym regroup) ∙ total ∙ ap (◌*◌ len) count,
    )

max_name-le : (mx : ℕ) (m : Map ℕ Client) → mx ≤ max_name mx m
unfolding max_name
max_name-le mx [] = omega arith
max_name-le mx ((fd, c) ∷ m) = omega (arith, max_name-le (max mx (length c.name)) m)

names_fit :
    (mx : ℕ) (m : Map ℕ Client)
    → All (λ entry. length entry.1.info ≤ 21) m
    → All (Fits (max_name mx m)) m
unfolding max_name
names_fit mx [] h = tt
names_fit mx ((fd, c) ∷ m) h = (
  (omega (arith, max_name-le (max mx (length c.name)) m), h.0),
  names_fit (max mx (length c.name)) m h.1,
)

length-dash_line : (len : ℕ) → 0 < len → length (dash_line len) ≡ len
unfolding dash_line
length-dash_line len h = omega (
  arith,
  length-append {A = ℕ} (replicate (len - 1) b'-') (b'\n' ∷ []),
  length-replicate {A = ℕ} (len - 1) b'-',
)

finish_table_lem :
    (size len : ℕ) (buf : Buffer) (xs : Bytes)
    → 0 < len
    → Holds buf xs
    → size ≡ length xs + len
    → finish_table size len (some buf) ≡ some (xs ++ dash_line len)
unfolding finish_table
finish_table_lem size len buf xs pos h e =
    let dashes = length-dash_line len pos in
    let (after, wrote, holds) =
      write_at_end size (size - len) buf xs (dash_line len) h (omega arith) (omega arith) in
    let total : length (xs ++ dash_line len) ≡ size =
      omega (arith, length-append xs (dash_line len)) in
    let all_read =
      read_all (xs ++ dash_line len) 0 after (λ k lt. ap after (omega arith) ∙ holds k lt) in
    let all_read' = subst (λ n. read_from n 0 after ≡ some (xs ++ dash_line len)) total all_read in
    rw (wrote, finish_table) all_read'

-- The answer to /who: a row for each client between two lines of dashes. The child of the server
-- writes it without a byte out of place, as the count is that of the clients and the text of an
-- address has at most 21 characters.
pub who_lem :
    (connfd : ℕ) (s : Server)
    → IsCounted s
    → All (λ entry. length entry.1.info ≤ 21) s.cliinfo
    → who connfd s.clicnt s.cliinfo
      ≡ some (
          (
            connfd,
            dash_line (max_name 0 s.cliinfo + 25)
                ++ (rows connfd (max_name 0 s.cliinfo) s.cliinfo
                    ++ dash_line (max_name 0 s.cliinfo + 25)),
          )
          ∷ [])
unfolding who who_table to_client
who_lem connfd s (count, distinct) infos =
    let mx = max_name 0 s.cliinfo in
    let len = 2 + mx + 22 + 1 in
    let l : len ≡ mx + 25 = omega arith in
    let dashes = length-dash_line len (omega arith) in
    let size = len * (s.clicnt + 2) in
    let n = length s.cliinfo in
    let whole : size ≡ len * (1 + n) + len = grind arith in
    let one_line : len * 1 ≡ len = omega arith in
    let least : len * 1 ≤ len * (1 + n) = grind arith in
    let (start, wrote, holds) =
      write_at_end size 0 (λ _. none) [] (dash_line len) (λ k lt. absurd (omega arith)) refl
        (omega arith) in
    let (after, ran, rows_hold, total) =
      write_rows_lem size len connfd mx 0 s.cliinfo start (dash_line len) l
        (names_fit 0 s.cliinfo infos) holds (omega arith) (omega arith) in
    let table =
      ap (λ b. finish_table size len (write_rows size len connfd mx 0 s.cliinfo b)) wrote
      ∙ ap (finish_table size len) ran
      ∙ finish_table_lem size len after (dash_line len ++ rows connfd mx s.cliinfo) (omega arith)
          rows_hold (omega arith)
      ∙ ap some (append_assoc (dash_line len) (rows connfd mx s.cliinfo) (dash_line len)) in
    ap (to_client connfd) table
    ∙ ap (λ k. some ((connfd, dash_line k ++ (rows connfd mx s.cliinfo ++ dash_line k)) ∷ [])) l
