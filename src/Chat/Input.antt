-- ===== src/Chat/Input.antt =====
-- What a client writes: `handle_client_input`, and the events of the loop of `main`.
use nycu_intro_np.Prelude.{
  ℕ, ◌+◌, ◌-◌, [], ◌∷◌, ◌++◌, Bytes, codes, c_str, equal, Option, none, some, find, erase, nat_eq,
  length, drop, Bool, false, ◌&&◌, ◌==◌, ltb, leb, if◌then◌else◌,
}
use nycu_intro_np.Chat.Log.{max_line, system, user, strtok, is_newline, is_blank}
use nycu_intro_np.Chat.State.{
  Client, Server, Outcome, returns, exits, fault, assign, sendexp, say, handle_new_client,
}
use nycu_intro_np.Chat.Who.{who}

-- `read` returned 0 or less. A descriptor without a client has no info to print.
unfoldable pub leave : Bytes → ℕ → Option Client → Server → Outcome
leave time connfd none s = fault
leave time connfd (some c) s = returns (
    sendexp time connfd system (codes "User <" ++ c.name ++ codes "> has left the server")
      (record s { clicnt = s.clicnt - 1; cliinfo = erase connfd s.cliinfo }))

-- The new name is told to the client and to the others, then set.
unfoldable pub tell_rename : Bytes → ℕ → Client → Bytes → Outcome → Outcome
tell_rename time connfd c name (returns s) =
    let s' =
      sendexp time connfd system
        (codes "User <" ++ c.name ++ codes "> renamed to <" ++ name ++ codes ">") s in
    returns (record s' { cliinfo = assign connfd (record c { name = name }) s'.cliinfo })
tell_rename time connfd c name exits = exits
tell_rename time connfd c name fault = fault

-- /name, with what `strtok` finds behind it: NULL is passed to strdup.
unfoldable pub rename : Bytes → ℕ → Client → Option Bytes → Server → Outcome
rename time connfd c none s = fault
rename time connfd c (some name) s =
    tell_rename time connfd c name
      (say time connfd (codes "Nickname changed to <" ++ name ++ codes ">") s)

-- The second `strtok` too needs a NUL.
unfoldable pub name_behind : Bytes → ℕ → Client → Bytes → Server → Outcome
name_behind time connfd c text s =
    if leb max_line (6 + length text)
    then fault
    else rename time connfd c (strtok is_newline text) s

-- A line that begins with a slash; `buf` is all that was read.
unfoldable pub command : Bytes → ℕ → Client → Bytes → Bytes → Server → Outcome
command time connfd c buf token s =
    if equal token (codes "/exit")
    then exits
    else if equal token (codes "/name") && ltb 7 (length buf)
    then name_behind time connfd c (c_str (drop 6 buf)) s
    else if equal token (codes "/who")
    then returns (record s { jobs = s.jobs ++ who connfd s.clicnt s.cliinfo ∷ [] })
    else say time connfd (codes "Unknown or incomplete command <" ++ token ++ codes ">") s

unfoldable pub chat : Bytes → ℕ → Client → Option Bytes → Server → Outcome
chat time connfd c none s = returns s
chat time connfd c (some token) s = returns (sendexp time connfd (user c.name) token s)

-- The token of a line that begins with a slash is not NULL.
unfoldable pub slash : Bytes → ℕ → Client → Bytes → Option Bytes → Server → Outcome
slash time connfd c buf none s = fault
slash time connfd c buf (some token) s = command time connfd c buf token s

unfoldable pub starts_slash : Bytes → Bool
starts_slash [] = false
starts_slash (c ∷ buf) = c == b'/'

-- What was read from a client. `strtok` needs a NUL, which a full buffer has only if one was read.
unfoldable pub said : Bytes → ℕ → Option Client → Bytes → Server → Outcome
said time connfd none buf s = fault
said time connfd (some c) buf s =
    if leb max_line (length (c_str buf))
    then fault
    else if starts_slash buf
    then slash time connfd c buf (strtok is_blank (c_str buf)) s
    else chat time connfd c (strtok is_newline (c_str buf)) s

unfoldable pub handle_client_input : Bytes → ℕ → Option Bytes → Server → Outcome
handle_client_input time connfd none s = leave time connfd (find connfd s.cliinfo) s
handle_client_input time connfd (some buf) s = said time connfd (find connfd s.cliinfo) buf s

-- What `epoll_wait` reports.
pub data Event : Type 0 where
  arrives : ℕ → Bytes → Bytes → Event
  readable : ℕ → Option Bytes → Event

-- The body of the loop of `main`.
unfoldable pub step : Bytes → Event → Server → Outcome
step time (arrives connfd name info) s = handle_new_client time connfd name info s
step time (readable connfd input) s = handle_client_input time connfd input s
