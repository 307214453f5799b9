-- ===== src/Mircd/Channel.antt =====
-- Homework/1/mircd/src/{channel,database}.cpp. A `Channel&` is the name under which the table of
-- channels holds it.
use nycu_intro_np.Prelude.{
  ℕ, Bool, false, not, ◌&&◌, ◌||◌, ◌==◌, ltb, List, [], ◌∷◌, ◌++◌, map, none, some, Bytes, codes,
  is_empty, if◌then◌else◌, Map, find, contains, emplace, erase, modify, length, nat_eq, bytes_eq,
}
use nycu_intro_np.Mircd.Wire.{CmdMsg, Rpl, Err, error, say, reply}
use nycu_intro_np.Mircd.State.{Channel, World}
use nycu_intro_np.Mircd.Monad.{
  M, ok, ◌>>=◌, ◌>>◌, return, throw, from_option, getuser, load, broadcast,
}

abbrev pub default_part_msg : Bytes
default_part_msg = codes "Leave channel"

-- `name[0]` is one of the three marks.
abbrev pub has_mark : Bytes → Bool
has_mark [] = false
has_mark (c ∷ cs) = c == b'#' || c == b'&' || c == b'+'

-- The names that the constructor takes.
abbrev pub is_channel_name : Bytes → Bool
is_channel_name name = not (is_empty name) && (not (ltb 50 (length name)) && has_mark name)

-- `Channel::Channel`.
unfoldable pub new_channel : Bytes → M Channel
new_channel name =
    if is_channel_name name
    then return (record { name = name; topic = []; users = [] })
    else throw (error Err.nosuchchannel (name ∷ codes "No such channel" ∷ []))

unfoldable pub has_channel : Bytes → World → Bool
has_channel name w = contains name w.channels

abbrev put_channel : Bytes → Channel → M (Unit {0})
put_channel name ch w = ok tt (record w { channels = emplace name ch w.channels })

-- `Database::getchannel`: a channel that is not there is made.
unfoldable pub getchannel : Bytes → M Channel
unfolding new_channel
getchannel name w = elim (find name w.channels) [
  | some ch ↦ ok ch w
  | none ↦ (do ch ← new_channel name; put_channel name ch; return ch) w
]

abbrev pub set_channel : Bytes → (Channel → Channel) → M (Unit {0})
set_channel name f w = ok tt (record w { channels = modify name f w.channels })

abbrev pub fds : Map ℕ ℕ → List ℕ
fds = map (λ u. u.0)

-- `Channel::add`.
unfoldable pub add : Bytes → ℕ → M (Unit {0})
add name fd = do
  c ← getuser fd
  set_channel name (λ ch. record ch { users = emplace c.connfd c.ref ch.users })
  ch ← getchannel name
  broadcast (fds ch.users) (say (codes "JOIN") (ch.name ∷ [])) c.nickname

-- `Channel::del`: the member is looked up, and its nick read through the reference kept there.
unfoldable pub del : Bytes → ℕ → Bytes → M (Unit {0})
del name connfd msg = do
  ch ← getchannel name
  r ← from_option (find connfd ch.users)
  c ← load r
  broadcast (fds ch.users) (say (codes "PART") (ch.name ∷ msg ∷ [])) c.nickname
  set_channel name (λ ch. record ch { users = erase connfd ch.users })

-- `Channel::changeTopic`.
unfoldable pub change_topic : Bytes → Bytes → Bytes → M (Unit {0})
change_topic name nick new_topic = do
  set_channel name (λ ch. record ch { topic = new_topic })
  ch ← getchannel name
  broadcast (fds ch.users) (say (codes "TOPIC") (ch.name ∷ new_topic ∷ [])) nick

-- `Channel::gettopic`.
unfoldable pub gettopic : Channel → CmdMsg
gettopic ch =
    if is_empty ch.topic
    then reply Rpl.notopic (ch.name ∷ codes "No topic is set" ∷ [])
    else reply Rpl.topic (ch.name ∷ ch.topic ∷ [])

-- The loop of `Channel::usersstr`.
unfoldable pub usersstr_onto : Bytes → Map ℕ ℕ → M Bytes
usersstr_onto str [] = return str
usersstr_onto str ((fd, r) ∷ users) = load r >>= λ c.
    usersstr_onto ((if is_empty str then str else str ++ b' ' ∷ []) ++ c.nickname) users

unfoldable pub usersstr : Channel → M Bytes
unfolding usersstr_onto
usersstr ch = usersstr_onto [] ch.users

-- `Channel::getusers`.
unfoldable pub getusers : Channel → M (List CmdMsg)
getusers ch = do
  let last = reply Rpl.endofnames (ch.name ∷ codes "End of /NAMES list" ∷ [])
  if is_empty ch.users
      then return (last ∷ [])
      else (usersstr ch >>= λ s. return (reply Rpl.namreply (ch.name ∷ s ∷ []) ∷ last ∷ []))
