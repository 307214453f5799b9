-- ===== src/Mircd/Dispatch.antt =====
-- Homework/1/mircd/src/controller.cpp: USERS, the table of commands, and `Controller::call`.
pub mod Gate
pub mod Rows
use nycu_intro_np.Prelude.{
  c_str, ℕ, ◌+◌, ◌-◌, max, Bool, true, false, not, ◌&&◌, ltb, List, [], ◌∷◌, ◌++◌, none, some,
  Bytes, codes, replicate, if◌then◌else◌, Map, find, length, bytes_eq, equal,
}
use nycu_intro_np.Mircd.Wire.{CmdMsg, Rpl, Err, error, reply, welcome_cmds}
use nycu_intro_np.Mircd.State.{Client, has_regist}
use nycu_intro_np.Mircd.Monad.{
  M, ◌>>=◌, ◌>>◌, return, throw, undefined, when, get_world, getuser, sendcmds,
}
use nycu_intro_np.Mircd.Client.{regist}
use nycu_intro_np.Mircd.Controller.{nick, user, quit, join, part, topic, names, list, privmsg, ping}

-- `%-*s`.
abbrev pub pad_right : ℕ → Bytes → Bytes
pad_right n s = s ++ replicate (n - length s) b' '

-- `sprintf(buf, "%-*s %-8s %-21s", …)`.
unfoldable pub users_row : ℕ → Bytes → Bytes → Bytes → Bytes
users_row mxname name term host =
    pad_right mxname name ++ (b' ' ∷ (pad_right 8 term ++ (b' ' ∷ pad_right 21 host)))

-- The first loop of `users`.
unfoldable pub max_name : ℕ → Map ℕ Client → ℕ
max_name mx [] = mx
max_name mx ((fd, c) ∷ m) = max_name (max mx (length c.nickname)) m

-- `mxname + 1 + 8 + 1 + 11 + 1`.
abbrev pub row_size : ℕ → ℕ
row_size mxname = mxname + 1 + 8 + 1 + 11 + 1

-- `append`: the row and its NUL are written to a buffer of `size` bytes.
unfoldable pub append_row : ℕ → ℕ → Rpl → Bytes → Bytes → Bytes → M CmdMsg
append_row size mxname r name term host =
    let row = users_row mxname name term host in
    if ltb (length row) size then return (reply r (row ∷ [])) else undefined

unfoldable pub users_rows : ℕ → ℕ → Map ℕ Client → M (List CmdMsg)
users_rows size mxname [] = return []
users_rows size mxname ((fd, c) ∷ m) =
    append_row size mxname Rpl.users (c_str c.nickname) (codes "-") c.host >>= λ row.
    users_rows size mxname m >>= λ rows. return (row ∷ rows)

unfoldable pub users : ℕ → List Bytes → M (Unit {0})
users fd argv = do
  w ← get_world
  let mxname = max_name 6 w.clients
  let size = row_size mxname
  head ← append_row size mxname Rpl.usersstart (codes "UserID") (codes "Terminal") (codes "Host")
  rows ← users_rows size mxname w.clients
  c ← getuser fd
  sendcmds c.connfd (head ∷ rows) []

-- A pointer to a member function of the controller.
pub data Handler : Type 0 where
  nick_h user_h quit_h join_h part_h topic_h names_h list_h privmsg_h ping_h users_h : Handler

-- `CmdItem`.
pub record CmdItem : Type 0 where
  pub parm_min : ℕ
  pub fp : Handler

abbrev item : ℕ → Handler → CmdItem
item n h = record { parm_min = n; fp = h }

-- `Controller::cmds` and `Controller::unreg_allow`.
abbrev pub cmds : Map Bytes CmdItem
cmds =
    (codes "NICK", item 0 nick_h)
    ∷ (codes "USER", item 4 user_h)
    ∷ (codes "QUIT", item 0 quit_h)
    ∷ (codes "JOIN", item 1 join_h)
    ∷ (codes "PART", item 1 part_h)
    ∷ (codes "TOPIC", item 1 topic_h)
    ∷ (codes "NAMES", item 0 names_h)
    ∷ (codes "LIST", item 0 list_h)
    ∷ (codes "PRIVMSG", item 0 privmsg_h)
    ∷ (codes "PING", item 0 ping_h)
    ∷ (codes "USERS", item 0 users_h)
    ∷ []

abbrev pub unreg_allow : List Bytes
unreg_allow = codes "NICK" ∷ codes "USER" ∷ codes "QUIT" ∷ []

unfoldable pub count : Bytes → List Bytes → Bool
count k [] = false
count k (s ∷ l) = if equal s k then true else count k l

-- `(this->*item.fp)(client, argv)`.
unfoldable pub run_handler : Handler → ℕ → List Bytes → M (Unit {0})
run_handler nick_h = nick
run_handler user_h = user
run_handler quit_h = quit
run_handler join_h = join
run_handler part_h = part
run_handler topic_h = topic
run_handler names_h = names
run_handler list_h = list
run_handler privmsg_h = privmsg
run_handler ping_h = ping
run_handler users_h = users

-- `if (!regist and client.regist()) sendcmds(connfd, WELCOME_CMDS, client.nickname)`.
unfoldable pub welcome : ℕ → Bool → M (Unit {0})
welcome fd true = return tt
welcome fd false = do
  done ← regist fd
  when done (getuser fd >>= λ c. sendcmds fd welcome_cmds c.nickname)

-- The part of `call` behind the look-up of the command.
unfoldable pub call_item : ℕ → Bytes → List Bytes → CmdItem → M (Unit {0})
call_item fd cmd argv item = do
  c ← getuser fd
  when (not (has_regist c) && not (count cmd unreg_allow))
      (throw (error Err.notregistered (codes "You have not registered" ∷ [])))
  when (ltb (length argv) item.parm_min)
      (throw (error Err.needmoreparams (cmd ∷ codes "Not enough parameters" ∷ [])))
  run_handler item.fp fd argv
  welcome fd (has_regist c)

unfoldable pub call : ℕ → List Bytes → M (Unit {0})
call fd [] = return tt
call fd (cmd ∷ argv) = elim (find cmd cmds) [
  | none ↦ throw (error Err.unknowncommand (cmd ∷ codes "Unknown command" ∷ []))
  | some item ↦ call_item fd cmd argv item
]
