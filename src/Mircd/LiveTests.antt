-- ===== src/Mircd/LiveTests.antt =====
-- The invariant of the tables of mircd on concrete inputs.
use nycu_intro_np.Prelude.{
  ◌≡◌, refl, subst, true, false, List, [], ◌∷◌, some, Bytes, codes, find, contains, nat_eq,
  bytes_eq, All, arith, equal, emplace,
}
use nycu_intro_np.Mircd.Wire.{parse}
use nycu_intro_np.Mircd.State.{Client, World}
use nycu_intro_np.Mircd.Dispatch.{call}
use nycu_intro_np.Mircd.Server.{
  Server, Event, arrives, readable, step, run, tokens, handle_new_client,
}
use nycu_intro_np.Mircd.Controller.{client_add}
use nycu_intro_np.Mircd.Live.{IsLiveWorld, has_member}
use nycu_intro_np.Mircd.Live.Names.{IsAfter, Stays}
use nycu_intro_np.Mircd.Live.Calls.{call-IsAfter, special_name}
use nycu_intro_np.Mircd.Live.Runs.{IsLiveServer, AreTame, run-IsLive, is_plain}

-- No client, no channel, no connection.
abbrev fresh_server : Server
fresh_server = record {
  world = record { clients = []; nick_mp = []; channels = []; next_ref = 0; sent = [] };
  watched = [];
}

fresh_server-IsLive : IsLiveServer fresh_server
unfolding find contains has_member
fresh_server-IsLive = record {
  tables = record {
    connfds = λ fd c h. absurd (cc);
    members = tt;
    distinct = tt;
    both = λ fd c name h. absurd (cc);
  };
  watches = λ g. refl;
}

abbrev lines : Bytes
lines = codes "NICK al\r\nUSER a b c d\r\nJOIN #x\r\n"

abbrev events : List Event
events = arrives 5 (codes "i") (codes "h") ∷ readable 5 (some lines) ∷ []

connected : Server
connected = handle_new_client 5 (codes "i") (codes "h") fresh_server

lines_plain : All (λ t. is_plain (parse t) ≡ true) (tokens lines)
unfolding tokens parse equal
lines_plain = (refl, (refl, (refl, tt)))

connected_there : contains 5 connected.world.clients ≡ true
unfolding connected handle_new_client client_add contains emplace
connected_there = refl

connected_next :
    (t : Server) → step (arrives 5 (codes "i") (codes "h")) fresh_server ≡ some t → connected ≡ t
unfolding step connected
connected_next t e = cc

events-AreTame : AreTame fresh_server events
unfolding contains
events-AreTame = (
  refl,
  λ t e. (
    (
      subst (λ s. contains 5 s.world.clients ≡ true) (connected_next t e) connected_there,
      omega arith,
      lines_plain,
    ),
    λ t' e'. tt,
  ),
)

run-IsLive_example : (t : Server) × (run events fresh_server ≡ some t) × IsLiveServer t
run-IsLive_example = run-IsLive events fresh_server fresh_server-IsLive events-AreTame

-- One registered client and no channel.
abbrev member : Client
member = record {
  ref = 0;
  status = 7;
  connfd = 5;
  info = codes "i";
  host = codes "h";
  nickname = codes "al";
  username = codes "a";
  hostname = codes "b";
  servername = codes "c";
  realname = codes "d";
  channels = [];
}

abbrev small_world : World
small_world = record {
  clients = (5, member) ∷ [];
  nick_mp = (codes "al", 0) ∷ [];
  channels = [];
  next_ref = 1;
  sent = [];
}

small_world-IsLiveWorld : IsLiveWorld small_world
unfolding find contains has_member
small_world-IsLiveWorld = record {
  connfds = λ fd c h. ground arith;
  members = tt;
  distinct = tt;
  both = λ fd c name h. ground arith;
}

member_there : find 5 small_world.clients ≡ some member
unfolding find
member_there = refl

join_plain : special_name (codes "JOIN") ≡ false
unfolding equal
join_plain = refl

call-IsAfter_example :
    Stays (IsAfter small_world) (call 5 (codes "JOIN" ∷ codes "#x" ∷ []) small_world)
call-IsAfter_example =
    call-IsAfter 5 (codes "JOIN") (codes "#x" ∷ []) small_world member member_there
      small_world-IsLiveWorld join_plain
