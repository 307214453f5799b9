-- ===== src/Chat/Who.antt =====
-- The table of /who.
use nycu_intro_np.Prelude.{
  ℕ, suc, ◌+◌, ◌-◌, ◌*◌, max, [], ◌∷◌, ◌++◌, Bytes, Option, none, some, Map, length, replicate,
  ◌==◌, leb, if◌then◌else◌, Buffer, copy, read_from,
}
use nycu_intro_np.Chat.State.{Client, Job}

abbrev pub pad_right : ℕ → Bytes → Bytes
pad_right n s = s ++ replicate (n - length s) b' '

abbrev pub pad_left : ℕ → Bytes → Bytes
pad_left n s = replicate (n - length s) b' ' ++ s

unfoldable pub max_name : ℕ → Map ℕ Client → ℕ
max_name mx [] = mx
max_name mx ((fd, c) ∷ m) = max_name (max mx (length c.name)) m

-- `sprintf(…, "%c %-*s %21s\n", …)`.
unfoldable pub who_row : ℕ → ℕ → ℕ → Client → Bytes
who_row connfd mxname fd c =
    (if fd == connfd then b'*' else b' ')
    ∷ b' '
    ∷ (pad_right mxname c.name ++ (b' ' ∷ (pad_left 21 c.info ++ b'\n' ∷ [])))

-- A write of some bytes to the table; `none` past its end.
unfoldable pub write_at : ℕ → ℕ → Bytes → Buffer → Option Buffer
write_at size off frag buf =
    if leb (off + length frag) size then some (copy (length frag) buf off frag) else none

-- `memset` with '-', and the newline at the end of the line.
unfoldable pub dash_line : ℕ → Bytes
dash_line len = replicate (len - 1) b'-' ++ b'\n' ∷ []

-- The loop over the clients: `sprintf` writes the row and a NUL.
unfoldable pub write_rows : ℕ → ℕ → ℕ → ℕ → ℕ → Map ℕ Client → Option Buffer → Option Buffer
write_rows size len connfd mxname k m none = none
write_rows size len connfd mxname k [] (some buf) = some buf
write_rows size len connfd mxname k ((fd, c) ∷ m) (some buf) =
    write_rows size len connfd mxname (suc k) m
      (write_at size (len * suc k) (who_row connfd mxname fd c ++ 0 ∷ []) buf)

unfoldable pub finish_table : ℕ → ℕ → Option Buffer → Option Bytes
finish_table size len none = none
finish_table size len (some buf) = elim (write_at size (size - len) (dash_line len) buf) [
  | none ↦ none
  | some full ↦ read_from size 0 full
]

-- The bytes that are sent; `none` where a write lies outside the table, or a byte was never written.
unfoldable pub who_table : ℕ → ℕ → Map ℕ Client → Option Bytes
who_table connfd clicnt m =
    let mxname = max_name 0 m in
    let len = 2 + mxname + 22 + 1 in
    let size = len * (clicnt + 2) in
    finish_table size len
      (write_rows size len connfd mxname 0 m (write_at size 0 (dash_line len) (λ _. none)))

unfoldable pub to_client : ℕ → Option Bytes → Job
to_client connfd none = none
to_client connfd (some table) = some ((connfd, table) ∷ [])

-- What the child of /who does.
unfoldable pub who : ℕ → ℕ → Map ℕ Client → Job
who connfd clicnt m = to_client connfd (who_table connfd clicnt m)
