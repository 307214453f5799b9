-- ===== src/Mircd/Wire.antt =====
-- Homework/1/mircd/src/utils.cpp and include/{utils,enums}.hpp: the messages, the way they are
-- written to a socket, and the way a line that a client sent is split into words.
pub mod Words
use nycu_intro_np.Prelude.{
  c_str, ℕ, ◌≡◌, refl, Bool, ◌||◌, List, [], ◌∷◌, ◌++◌, Bytes, codes, is_empty, ◌==◌, if◌then◌else◌,
  length, decimal, replicate, ◌-◌, reverse,
}

-- `enum RPL`.
pub data Rpl : Type 0 where
  welcome luserclient liststart list listend notopic topic : Rpl
  namreply endofnames motd motdstart endofmotd usersstart users endofusers : Rpl

-- The value of a reply; the octal `001` is 1.
unfoldable pub rpl_number : Rpl → ℕ
rpl_number Rpl.welcome = 1
rpl_number Rpl.luserclient = 251
rpl_number Rpl.liststart = 321
rpl_number Rpl.list = 322
rpl_number Rpl.listend = 323
rpl_number Rpl.notopic = 331
rpl_number Rpl.topic = 332
rpl_number Rpl.namreply = 353
rpl_number Rpl.endofnames = 366
rpl_number Rpl.motd = 372
rpl_number Rpl.motdstart = 375
rpl_number Rpl.endofmotd = 376
rpl_number Rpl.usersstart = 392
rpl_number Rpl.users = 393
rpl_number Rpl.endofusers = 394

-- `enum ERR`.
pub data Err : Type 0 where
  nosuchnick nosuchchannel noorigin norecipient notexttosend unknowncommand : Err
  nonicknamegiven erroneusnickname nickcollision notonchannel notregistered : Err
  needmoreparams alreadyregistred : Err

unfoldable pub err_number : Err → ℕ
err_number Err.nosuchnick = 401
err_number Err.nosuchchannel = 403
err_number Err.noorigin = 409
err_number Err.norecipient = 411
err_number Err.notexttosend = 412
err_number Err.unknowncommand = 421
err_number Err.nonicknamegiven = 431
err_number Err.erroneusnickname = 432
err_number Err.nickcollision = 436
err_number Err.notonchannel = 442
err_number Err.notregistered = 451
err_number Err.needmoreparams = 461
err_number Err.alreadyregistred = 462

-- `CMD`: a word or a number.
pub data Cmd : Type 0 where
  word : Bytes → Cmd
  number : ℕ → Cmd

-- `CMD_MSG`.
pub record CmdMsg : Type 0 where
  pub cmd : Cmd
  pub argv : List Bytes

abbrev pub say : Bytes → List Bytes → CmdMsg
say c argv = record { cmd = word c; argv = argv }

abbrev pub reply : Rpl → List Bytes → CmdMsg
reply r argv = record { cmd = number (rpl_number r); argv = argv }

abbrev pub error : Err → List Bytes → CmdMsg
error e argv = record { cmd = number (err_number e); argv = argv }

-- `%03d`.
pub pad3 : ℕ → Bytes
pad3 n = replicate (3 - length (decimal n)) b'0' ++ decimal n

-- ` nick`, where a nick is to be shown.
abbrev nick_part : Bytes → Bytes
nick_part nick = if is_empty nick then [] else b' ' ∷ nick

-- What stands in front of the arguments. A nick given is shown once, on either side of the command.
pub render_cmd : Bytes → Cmd → Bytes
render_cmd nick (word c) = b':' ∷ (nick ++ (b' ' ∷ c))
render_cmd nick (number n) = pad3 n ++ nick_part nick

-- The last argument is marked by a colon.
pub render_args : List Bytes → Bytes
render_args [] = []
render_args (a ∷ []) = b' ' ∷ b':' ∷ a
render_args (a ∷ b ∷ args) = b' ' ∷ (a ++ render_args (b ∷ args))

unfoldable pub render_msg : Bytes → CmdMsg → Bytes
unfolding render_cmd render_args pad3
render_msg nick m = render_cmd nick m.cmd ++ (render_args m.argv ++ (b'\n' ∷ []))

-- The buffer that `sendcmds` builds.
unfoldable pub render_msgs : Bytes → List CmdMsg → Bytes
render_msgs nick [] = []
render_msgs nick (m ∷ ms) = render_msg nick m ++ render_msgs nick ms

-- `if (buf[j]) cmds.emplace_back(buf+j)`: the word read so far, if there is one.
abbrev push_word : Bytes → List Bytes → List Bytes
push_word cur rest = if is_empty cur then rest else cur ∷ rest

-- The loop of `parse` over the bytes from `i` on; `cur` is `buf[j..i)`.
parse_loop : Bytes → Bytes → List Bytes
parse_loop cur [] = push_word cur []
parse_loop cur (c ∷ cs) =
    let next = parse_loop [] cs in
    let more = parse_loop (cur ++ c ∷ []) cs in
    if c == b' ' || c == 0
    then push_word cur next
    else if c == b':'
    then push_word cur (c_str cs ∷ [])
    else more

abbrev is_eol : ℕ → Bool
is_eol c = c == b'\r' || c == b'\n'

-- `while (size and (buf[size-1] is CR or LF)) size--`, over the reversed bytes.
strip_eol : Bytes → Bytes
strip_eol [] = []
strip_eol (c ∷ cs) = if is_eol c then strip_eol cs else c ∷ cs

unfoldable pub parse : Bytes → List Bytes
unfolding parse_loop strip_eol c_str
parse buf = parse_loop [] (reverse (strip_eol (reverse buf)))

-- `WELCOME_CMDS`.
abbrev pub welcome_cmds : List CmdMsg
welcome_cmds =
    reply Rpl.welcome (codes "Welcome to the minimized IRC daemon!" ∷ [])
    ∷ reply Rpl.luserclient (codes "There are ? users and ? invisible on ? servers" ∷ [])
    ∷ reply Rpl.motdstart (codes "-  Hello, World!                       " ∷ [])
    ∷ reply Rpl.motdstart (codes "-               @                    _ " ∷ [])
    ∷ reply Rpl.motdstart (codes "-   ____  ___   _   _ _   ____.     | |" ∷ [])
    ∷ reply Rpl.motdstart (codes "-  /  _ `'_  \\ | | | '_/ /  __|  ___| |" ∷ [])
    ∷ reply Rpl.motdstart (codes "-  | | | | | | | | | |   | |    /  _  |" ∷ [])
    ∷ reply Rpl.motdstart (codes "-  | | | | | | | | | |   | |__  | |_| |" ∷ [])
    ∷ reply Rpl.motdstart (codes "-  |_| |_| |_| |_| |_|   \\____| \\___,_|" ∷ [])
    ∷ reply Rpl.motdstart (codes "-  minimized internet relay chat daemon" ∷ [])
    ∷ reply Rpl.motdstart (codes "-                                      " ∷ [])
    ∷ reply Rpl.endofmotd (codes "End of message of the day" ∷ [])
    ∷ []
