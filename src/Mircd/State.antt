-- ===== src/Mircd/State.antt =====
-- The data of Homework/1/mircd/include/{client,channel,database}.hpp. A `Client&` is the address of
-- a node of `Database::clients`; addresses are serial numbers here, so a node that was erased is
-- told from a later one under the same descriptor. A `Channel&` is the channel's name, since no
-- channel is ever erased.
use nycu_intro_np.Prelude.{
  ℕ, Bool, ◌==◌, List, [], ◌∷◌, Option, none, some, Bytes, Map, bit_and, bit_or, if◌then◌else◌,
}

pub record Client : Type 0 where
  -- where the node lies
  pub ref : ℕ
  pub status : ℕ
  pub connfd : ℕ
  pub info : Bytes
  pub host : Bytes
  pub nickname : Bytes
  pub username : Bytes
  pub hostname : Bytes
  pub servername : Bytes
  pub realname : Bytes
  pub channels : Map Bytes Bytes

pub record Channel : Type 0 where
  pub name : Bytes
  pub topic : Bytes
  pub users : Map ℕ ℕ

-- `Database`, the address that the next client's node gets, and what was written to the sockets.
pub record World : Type 0 where
  pub clients : Map ℕ Client
  pub nick_mp : Map Bytes ℕ
  pub channels : Map Bytes Channel
  pub next_ref : ℕ
  pub sent : List (ℕ × Bytes)

-- `Client::HAS`.
abbrev pub flag_nick : ℕ
flag_nick = 1

abbrev pub flag_user : ℕ
flag_user = 2

abbrev pub flag_welcome : ℕ
flag_welcome = 4

abbrev pub flag_regist : ℕ
flag_regist = 3

-- `(status & flag) == flag` and `status |= flag`.
unfoldable pub has_flag : ℕ → ℕ → Bool
has_flag flag status = bit_and status flag == flag

unfoldable pub add_flag : ℕ → ℕ → ℕ
add_flag flag status = bit_or status flag

-- `Client::hasNick`, `hasRegist` and `canRegist`.
abbrev pub has_nick : Client → Bool
has_nick c = has_flag flag_nick c.status

abbrev pub has_regist : Client → Bool
has_regist c = has_flag flag_welcome c.status

abbrev pub can_regist : Client → Bool
can_regist c = has_flag flag_regist c.status

-- `Client::Client`.
unfoldable pub new_client : ℕ → ℕ → Bytes → Bytes → Client
new_client ref connfd info host = record {
  ref = ref;
  status = 0;
  connfd = connfd;
  info = info;
  host = host;
  nickname = [];
  username = [];
  hostname = [];
  servername = [];
  realname = [];
  channels = [];
}

-- What a `Client&` refers to; `none` if its node was erased.
unfoldable pub deref : ℕ → Map ℕ Client → Option Client
deref r [] = none
deref r ((fd, c) ∷ m) = if c.ref == r then some c else deref r m
