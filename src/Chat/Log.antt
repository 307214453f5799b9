-- ===== src/Chat/Log.antt =====
-- Lines of the chat: `msg2log`, `sock_info`, `randstr`, and `strtok` as far as the server uses it.
use nycu_intro_np.Prelude.{
  ℕ, ◌+◌, ◌%◌, ◌*◌, List, [], ◌∷◌, ◌++◌, Bytes, codes, c_str, decimal, Option, none, some, length,
  Bool, ◌&&◌, ◌||◌, ◌==◌, ltb, if◌then◌else◌, is_empty,
}

abbrev pub max_line : ℕ
max_line = 1024

-- The sender of a line: the pointer SYSTEM, or a name.
pub data Sender : Type 0 where
  system : Sender
  user : Bytes → Sender

-- `frombuf`.
unfoldable pub from_text : Sender → Bytes
from_text system = codes "***"
from_text (user name) = codes "<" ++ name ++ codes ">"

unfoldable pub log_text : Bytes → Sender → Bytes → Bytes
log_text time from msg = time ++ codes " " ++ from_text from ++ codes " " ++ msg ++ codes "\n"

-- `msg2log`, `time` being the text of the clock; `none` where one of the three buffers is too short
-- for its text and NUL.
unfoldable pub msg2log : Bytes → Sender → Bytes → Option Bytes
msg2log time from msg =
    if ltb (length msg) max_line
      && ltb (length (from_text from)) 512
      && ltb (length (log_text time from msg)) (max_line * 2)
    then some (log_text time from msg)
    else none

-- `sock_info`, with the text of the address that inet_ntop gives.
unfoldable pub sock_info : Bytes → ℕ → Bytes
sock_info host port = host ++ codes ":" ++ decimal port

-- `randstr`: seven letters from seven calls of rand. The eighth byte of the buffer is not set:
-- `behind` is what the memory has from there on.
unfoldable pub randstr : List ℕ → Bytes → Bytes
randstr rands behind = letters rands ++ c_str behind
  where
    letters : List ℕ → Bytes
    letters [] = []
    letters (r ∷ rs) = (r % 26 + b'a') ∷ letters rs

-- The bytes before the first of the separators.
unfoldable pub until : (ℕ → Bool) → Bytes → Bytes
until sep [] = []
until sep (c ∷ cs) = if sep c then [] else c ∷ until sep cs

unfoldable pub skip : (ℕ → Bool) → Bytes → Bytes
skip sep [] = []
skip sep (c ∷ cs) = if sep c then skip sep cs else c ∷ cs

-- The first call of `strtok` on a C string; `none` is NULL.
unfoldable pub strtok : (ℕ → Bool) → Bytes → Option Bytes
strtok sep text =
    let token = until sep (skip sep text) in if is_empty token then none else some token

abbrev pub is_newline : ℕ → Bool
is_newline c = c == b'\n'

abbrev pub is_blank : ℕ → Bool
is_blank c = c == b' ' || c == b'\n'
