-- ===== src/Mircd/Controller.antt =====
-- Homework/1/mircd/src/controller.cpp: one function for each command, and the dispatch.
pub mod Flags
pub mod Nicks
pub mod InStep
pub mod Talk
use nycu_intro_np.Prelude.{
  ℕ, suc, Bool, true, false, not, ◌==◌, ltb, List, [], ◌∷◌, ◌++◌, map, keep, none, some, Bytes,
  codes, decimal, if◌then◌else◌, Map, find, contains, emplace, erase, length, nat_eq, bytes_eq,
}
use nycu_intro_np.Mircd.Wire.{CmdMsg, Rpl, Err, error, say, reply}
use nycu_intro_np.Mircd.State.{
  Channel, World, new_client, has_nick, has_regist, add_flag, flag_user,
}
use nycu_intro_np.Mircd.Monad.{
  M, ok, disconnect, ◌>>=◌, ◌>>◌, return, throw, when, get_world, arg, getuser, set_user, sendstr,
  sendcmd, sendcmds, broadcast,
}
use nycu_intro_np.Mircd.Client.{change_nick, in_channel, join_channel, part_channel}
use nycu_intro_np.Mircd.Channel.{
  default_part_msg, has_channel, getchannel, fds, add, del, change_topic, gettopic, getusers,
}

-- `client_add`: `try_emplace` makes no node if the descriptor is there.
unfoldable pub client_add : ℕ → Bytes → Bytes → World → World
client_add connfd info host w = if contains connfd w.clients then w else record w {
  clients = emplace connfd (new_client w.next_ref connfd info host) w.clients;
  next_ref = suc w.next_ref;
}

-- `client_del`: the client's node and nick go; the channels are not looked at.
unfoldable pub client_del : ℕ → World → World × Bool
client_del connfd w = elim (find connfd w.clients) [
  | none ↦ (w, false)
  | some c ↦
      (record w { clients = erase connfd w.clients; nick_mp = erase c.nickname w.nick_mp }, true)
]

abbrev put_nick : Bytes → ℕ → M (Unit {0})
put_nick nick r w = ok tt (record w { nick_mp = emplace nick r w.nick_mp })

abbrev drop_nick : Bytes → M (Unit {0})
drop_nick nick w = ok tt (record w { nick_mp = erase nick w.nick_mp })

-- `nickInUse`.
unfoldable pub nick_in_use : Bytes → World → Bool
nick_in_use nick w = contains nick w.nick_mp

-- The part of `nick` that is reached with a nick given.
unfoldable pub take_nick : ℕ → Bytes → M (Unit {0})
take_nick fd nickname = do
  w ← get_world
  when (nick_in_use nickname w)
      (throw (error Err.nickcollision (nickname ∷ codes "Nickname collision KILL" ∷ [])))
  c ← getuser fd
  when (has_nick c) (drop_nick c.nickname)
  put_nick nickname c.ref
  change_nick fd nickname

unfoldable pub nick : ℕ → List Bytes → M (Unit {0})
nick fd [] = throw (error Err.nonicknamegiven (codes "No nickname given" ∷ []))
nick fd (nickname ∷ argv) = take_nick fd nickname

unfoldable pub user : ℕ → List Bytes → M (Unit {0})
user fd argv = do
  c ← getuser fd
  when (has_regist c) (throw (error Err.alreadyregistred (codes "You may not reregister" ∷ [])))
  username ← arg argv 0
  hostname ← arg argv 1
  servername ← arg argv 2
  realname ← arg argv 3
  set_user fd (λ c. record c {
    status = add_flag flag_user c.status;
    username = username;
    hostname = hostname;
    servername = servername;
    realname = realname;
  })

unfoldable pub quit : ℕ → List Bytes → M (Unit {0})
quit fd argv w = disconnect w

-- The loop of `names` over all channels.
unfoldable pub all_users : Map Bytes Channel → M (List CmdMsg)
all_users [] = return []
all_users ((name, ch) ∷ m) = getusers ch >>= λ out. all_users m >>= λ more. return (out ++ more)

unfoldable pub names_out : List Bytes → M (List CmdMsg)
unfolding all_users
names_out [] = get_world >>= λ w. all_users w.channels
names_out (name ∷ argv) = getchannel name >>= getusers

unfoldable pub names : ℕ → List Bytes → M (Unit {0})
unfolding names_out
names fd argv = do out ← names_out argv; c ← getuser fd; sendcmds c.connfd out c.nickname

unfoldable pub join : ℕ → List Bytes → M (Unit {0})
join fd argv = do
  name ← arg argv 0
  getchannel name
  join_channel fd name
  add name fd
  channel ← getchannel name
  c ← getuser fd
  sendcmd c.connfd (gettopic channel) name
  names fd (channel.name ∷ [])

-- The two checks that `part` and `topic` begin with.
unfoldable pub member_check : ℕ → Bytes → M (Unit {0})
member_check fd name = do
  w ← get_world
  when (not (has_channel name w))
      (throw (error Err.nosuchchannel (name ∷ codes "No such channel" ∷ [])))
  channel ← getchannel name
  c ← getuser fd
  when (not (in_channel c channel.name))
      (throw (error Err.notonchannel (name ∷ codes "You're not on that channel" ∷ [])))

-- `argv.size() >= 2 ? argv[1] : default_part_msg`.
abbrev pub part_msg : List Bytes → Bytes
part_msg (name ∷ msg ∷ argv) = msg
part_msg argv = default_part_msg

unfoldable pub part : ℕ → List Bytes → M (Unit {0})
part fd argv = do
  name ← arg argv 0
  member_check fd name
  part_channel fd name
  c ← getuser fd
  del name c.connfd (part_msg argv)

unfoldable pub topic : ℕ → List Bytes → M (Unit {0})
topic fd argv = do
  name ← arg argv 0
  member_check fd name
  channel ← getchannel name
  c ← getuser fd
  if ltb (length argv) 2
      then sendcmd c.connfd (gettopic channel) c.nickname
      else (arg argv 1 >>= change_topic name c.nickname)

-- The loop of `list` over the names.
abbrev list_rows : World → List Bytes → List CmdMsg
list_rows w [] = []
list_rows w (name ∷ names) = elim (find name w.channels) [
  | none ↦ list_rows w names
  | some ch ↦
      reply Rpl.list (ch.name ∷ decimal (length ch.users) ∷ ch.topic ∷ []) ∷ list_rows w names
]

abbrev list_names : World → List Bytes → List Bytes
list_names w [] = map (λ e. e.0) w.channels
list_names w (name ∷ argv) = name ∷ []

unfoldable pub list : ℕ → List Bytes → M (Unit {0})
list fd argv = do
  w ← get_world
  c ← getuser fd
  let rows = list_rows w (list_names w argv)
  let out =
      reply Rpl.liststart (codes "Channel :Users  Name" ∷ [])
      ∷ (rows ++ reply Rpl.listend (codes "End of LIST" ∷ []) ∷ [])
  sendcmds c.connfd out c.nickname

-- The part of `privmsg` that is reached with both arguments.
unfoldable pub deliver : ℕ → Bytes → Bytes → M (Unit {0})
deliver fd name text = do
  w ← get_world
  when (not (has_channel name w))
      (throw (error Err.nosuchnick (name ∷ codes "No such nick/channel" ∷ [])))
  channel ← getchannel name
  c ← getuser fd
  broadcast (keep (λ fd. not (fd == c.connfd)) (fds channel.users))
      (say (codes "PRIVMSG") (name ∷ text ∷ [])) c.nickname

unfoldable pub privmsg : ℕ → List Bytes → M (Unit {0})
privmsg fd [] = throw (error Err.norecipient (codes "No recipient given (PRIVMSG)" ∷ []))
privmsg fd (name ∷ []) = throw (error Err.notexttosend (codes "No text to send" ∷ []))
privmsg fd (name ∷ text ∷ argv) = deliver fd name text

unfoldable pub ping : ℕ → List Bytes → M (Unit {0})
ping fd [] = throw (error Err.noorigin (codes "No origin specified" ∷ []))
ping fd (a ∷ argv) = do c ← getuser fd; sendstr c.connfd (codes "PONG\n")
