-- ===== src/Chat/State.antt =====
-- The state of the server, and what it sends. `fork` copies the state: the child writes to the
-- clients that were there, while the server goes on.
use nycu_intro_np.Prelude.{
  ℕ, ◌+◌, List, [], ◌∷◌, ◌++◌, Bytes, codes, decimal, Option, none, some, Map, erase, nat_eq, not,
  ◌==◌, map, keep,
}
use nycu_intro_np.Chat.Log.{Sender, system, msg2log}

pub record Client : Type 0 where
  pub name : Bytes
  pub info : Bytes

-- What a forked child writes, to which descriptors; `none` where it runs into undefined behaviour.
abbrev pub Job : Type 0
Job = Option (List (ℕ × Bytes))

-- `sent` is what the server process itself has written, `jobs` its children in the order of their
-- forks; how the writes of different processes interleave is open.
pub record Server : Type 0 where
  pub clicnt : ℕ
  pub cliinfo : Map ℕ Client
  pub sent : List (ℕ × Bytes)
  pub jobs : List Job

-- How a handler ends: it returns, the process exits, or undefined behaviour.
pub data Outcome : Type 0 where
  returns : Server → Outcome
  exits : Outcome
  fault : Outcome

-- `cliinfo[fd] = c`.
unfoldable pub assign : ℕ → Client → Map ℕ Client → Map ℕ Client
assign fd c m = (fd, c) ∷ erase fd m

unfoldable pub to_others : ℕ → Bytes → Map ℕ Client → List (ℕ × Bytes)
to_others skip log m = map (λ entry. (entry.0, log)) (keep (λ entry. not (entry.0 == skip)) m)

-- What the child of `sendexp` does, once it has formatted its arguments to `msg`.
unfoldable pub broadcast : Bytes → ℕ → Sender → Bytes → Map ℕ Client → Job
broadcast time skip from msg m = elim (msg2log time from msg) [
  | none ↦ none
  | some log ↦ some (to_others skip log m)
]

unfoldable pub sendexp : Bytes → ℕ → Sender → Bytes → Server → Server
sendexp time skip from msg s = record s {
  jobs = s.jobs ++ broadcast time skip from msg s.cliinfo ∷ [];
}

-- `msg2log`, `sendstr` and `free`.
unfoldable pub say : Bytes → ℕ → Bytes → Server → Outcome
say time fd msg s = elim (msg2log time system msg) [
  | none ↦ fault
  | some log ↦ returns (record s { sent = s.sent ++ (fd, log) ∷ [] })
]

-- `handle_new_client`, for a connection that `accept` returned, with the name that `randstr` made.
unfoldable pub handle_new_client : Bytes → ℕ → Bytes → Bytes → Server → Outcome
handle_new_client time connfd name info s =
    let landed = codes "User <" ++ name ++ codes "> has just landed on the server" in
    let s' = sendexp time connfd system landed (record s { clicnt = s.clicnt + 1 }) in
    let welcome =
      codes "Welcome to the simple CHAT server\nTotal "
      ++ decimal s'.clicnt
      ++ codes " users online now. Your name is <"
      ++ name
      ++ codes ">" in
    say time connfd welcome
      (record s' { cliinfo = assign connfd (record { name = name; info = info }) s'.cliinfo })
