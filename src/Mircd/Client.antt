-- ===== src/Mircd/Client.antt =====
-- Homework/1/mircd/src/client.cpp. A member function takes the descriptor under which the table of
-- clients holds `*this`.
use nycu_intro_np.Prelude.{
  ℕ, Bool, true, false, not, ◌&&◌, ◌||◌, [], ◌∷◌, Bytes, codes, leb, if◌then◌else◌, emplace, erase,
  contains, bytes_eq,
}
use nycu_intro_np.Mircd.Wire.{Err, error, say}
use nycu_intro_np.Mircd.State.{
  Client, has_nick, has_regist, can_regist, add_flag, flag_nick, flag_welcome,
}
use nycu_intro_np.Mircd.Monad.{M, ◌>>=◌, ◌>>◌, return, throw, when, getuser, set_user, sendcmd}

-- `isalpha` in the C locale.
abbrev pub is_alpha : ℕ → Bool
is_alpha c = leb b'a' c && leb c b'z' || leb b'A' c && leb c b'Z'

-- `!nick.empty() and isalpha(nick[0])`.
abbrev pub starts_alpha : Bytes → Bool
starts_alpha [] = false
starts_alpha (c ∷ cs) = is_alpha c

abbrev pub set_nick : Bytes → Client → Client
set_nick nick c = record c { status = add_flag flag_nick c.status; nickname = nick }

-- `Client::regist`.
unfoldable pub regist : ℕ → M Bool
regist fd = do
  c ← getuser fd
  if has_regist c || not (can_regist c)
      then return false
      else (set_user fd (λ c. record c { status = add_flag flag_welcome c.status }) >> return true)

-- `Client::changeNick`.
unfoldable pub change_nick : ℕ → Bytes → M (Unit {0})
change_nick fd nick = do
  when (not (starts_alpha nick))
      (throw (error Err.erroneusnickname (nick ∷ codes "Erroneous nickname" ∷ [])))
  c ← getuser fd
  when (has_nick c) (sendcmd c.connfd (say (codes "NICK") (nick ∷ [])) c.nickname)
  set_user fd (set_nick nick)

-- `Client::in`.
abbrev pub in_channel : Client → Bytes → Bool
in_channel c name = contains name c.channels

-- `Client::join` and `Client::part`.
abbrev pub join_channel : ℕ → Bytes → M (Unit {0})
join_channel fd name = set_user fd (λ c. record c { channels = emplace name name c.channels })

abbrev pub part_channel : ℕ → Bytes → M (Unit {0})
part_channel fd name = set_user fd (λ c. record c { channels = erase name c.channels })
