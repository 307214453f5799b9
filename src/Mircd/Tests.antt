-- ===== src/Mircd/Tests.antt =====
-- The IRC daemon on concrete inputs.
use nycu_intro_np.Prelude.{
  ◌≡◌, refl, [], ◌∷◌, none, some, Bytes, codes, find, contains, equal, nat_eq, bytes_eq, arith,
  decimal, ℕ, List, ◌==◌, if◌then◌else◌, Bool-cases, inl, inr, equal_iff,
}
use nycu_intro_np.Mircd.Wire.{
  Rpl, number, parse, render_msg, render_msgs, reply, say, rpl_number, pad3,
}
use nycu_intro_np.Mircd.Wire.Words.{parse-render_msg}
use nycu_intro_np.Mircd.State.{Client, Channel, World, has_flag}
use nycu_intro_np.Mircd.Monad.{ok, thrown, fault, sendcmd, ◌>>◌}
use nycu_intro_np.Mircd.Controller.{take_nick, names, client_del, deliver, topic, nick_in_use}
use nycu_intro_np.Mircd.Controller.Nicks.{HoldsNicks, Leaves, RefsDiffer, nick_stolen, erroneous}
use nycu_intro_np.Mircd.Controller.InStep.{OwnsNicks, IsInStep, take_nick-IsInStep}
use nycu_intro_np.Mircd.Controller.Talk.{copies, occurs, deliver_once, topic_round_trip, with_topic}
use nycu_intro_np.Mircd.Dispatch.{users}
use nycu_intro_np.Mircd.Dispatch.Rows.{users_overflows}
use nycu_intro_np.Mircd.Server.{Server, handle_tokens}
use nycu_intro_np.Mircd.Server.Dangling.{names_dangle, quit_then_command}

abbrev lobby : Bytes
lobby = codes "#lobby"

-- A client that has registered, and one that has just connected.
abbrev alice : Client
alice = record {
  ref = 0;
  status = 7;
  connfd = 5;
  info = codes "10.0.0.1:4000";
  host = codes "10.0.0.1";
  nickname = codes "alice";
  username = codes "a";
  hostname = codes "h";
  servername = codes "s";
  realname = codes "Alice";
  channels = (lobby, lobby) ∷ [];
}

abbrev guest : Client
guest = record {
  ref = 1;
  status = 0;
  connfd = 6;
  info = codes "10.0.0.2:4001";
  host = codes "10.0.0.2";
  nickname = [];
  username = [];
  hostname = [];
  servername = [];
  realname = [];
  channels = [];
}

abbrev room : Channel
room = record { name = lobby; topic = []; users = (6, 1) ∷ (5, 0) ∷ [] }

abbrev world : World
world = record {
  clients = (5, alice) ∷ (6, guest) ∷ [];
  nick_mp = (codes "alice", 0) ∷ [];
  channels = (lobby, room) ∷ [];
  next_ref = 2;
  sent = [];
}

parse_words :
    parse (codes "JOIN  #a b:c d:e\r\n")
    ≡ codes "JOIN" ∷ codes "#a" ∷ codes "b" ∷ codes "c d:e" ∷ []
unfolding parse
parse_words = refl

render_topic :
    render_msg (codes "bob") (reply Rpl.topic (codes "#a" ∷ codes "hi you" ∷ []))
    ≡ codes "332 bob #a :hi you\n"
unfolding render_msg rpl_number decimal
render_topic = refl

render_join :
    render_msg (codes "bob") (say (codes "JOIN") (codes "#a" ∷ [])) ≡ codes ":bob JOIN :#a\n"
unfolding render_msg
render_join = refl

parse-render_msg_example :
    parse (
      render_msg
        (codes "bob")
        (record { cmd = number 332; argv = codes "#a" ∷ codes "hi: you" ∷ [] }))
    ≡ pad3 332 ∷ codes "bob" ∷ codes "#a" ∷ codes "hi: you" ∷ []
parse-render_msg_example =
    (parse-render_msg 332 (codes "bob") (codes "#a" ∷ []) (codes "hi: you") (λ e. cc, omega arith)
      ((λ e. cc, omega arith), tt) (omega arith) (omega arith)).0

world-RefsDiffer : RefsDiffer world
unfolding find
world-RefsDiffer fd gd c d p q r = ground arith

world-HoldsNicks : HoldsNicks world
unfolding find has_flag equal
world-HoldsNicks fd c p q = ground arith

world-OwnsNicks : OwnsNicks world
unfolding find has_flag equal
world-OwnsNicks k r found = elim (Bool-cases (equal (codes "alice") k)) [
  | inl e ↦ (5, alice, refl, refl, (equal_iff (codes "alice") k).0 e, ground arith)
  | inr e ↦ absurd (ground arith)
]

take_nick-IsInStep_example : Leaves IsInStep (take_nick 5 (codes "al") world)
unfolding find
take_nick-IsInStep_example =
    take_nick-IsInStep 5 alice (codes "al") world refl refl world-RefsDiffer
      (world-HoldsNicks, world-OwnsNicks)

nick_stolen_example :
    (u : World) × (v : World) × (c' : Client) × (d' : Client) × (take_nick 5 (codes "9") world
      ≡ thrown (erroneous (codes "9")) u)
    × (take_nick 6 (codes "alice") u ≡ ok tt v)
    × (find 5 v.clients ≡ some c')
    × (find 6 v.clients ≡ some d')
    × (c'.nickname ≡ codes "alice")
    × (d'.nickname ≡ codes "alice")
unfolding find has_flag nick_in_use contains equal
nick_stolen_example =
    nick_stolen 5 6 alice guest (codes "9") world refl refl refl refl refl refl refl refl

deliver_once_example :
    (l : List ℕ) × (deliver 5 lobby (codes "hi") world
      ≡ ok tt (record world {
        sent =
            copies
              (render_msgs (codes "alice") (say (codes "PRIVMSG") (lobby ∷ codes "hi" ∷ []) ∷ []))
              l;
      }))
    × ((g : ℕ) → occurs g l ≡ (if g == 5 then 0 else if contains g room.users then 1 else 0))
unfolding find equal contains
deliver_once_example =
    (deliver_once 5 lobby (codes "hi") world alice refl).0 room refl (refl, (refl, tt))

topic_round_trip_example :
    (topic 5 (lobby ∷ codes "news" ∷ []) >> topic 5 (lobby ∷ [])) world
    ≡ sendcmd 5
        (reply Rpl.topic (lobby ∷ codes "news" ∷ []))
        (codes "alice")
        (with_topic alice room lobby (codes "news") world)
unfolding find equal contains
topic_round_trip_example =
    topic_round_trip 5 lobby (codes "news") world alice room refl refl refl refl

names_dangle_example : names 5 (lobby ∷ []) (client_del 6 world).0 ≡ fault
unfolding find equal
names_dangle_example = names_dangle 6 5 guest lobby [] room world refl (omega arith) refl refl

abbrev server : Server
server = record { world = world; watched = 5 ∷ 6 ∷ [] }

quit_then_command_example : handle_tokens 5 (codes "QUIT" ∷ codes "PING x" ∷ []) server ≡ none
unfolding find equal parse
quit_then_command_example =
    quit_then_command 5 (codes "QUIT") (codes "PING x") (codes "PING") [] (codes "x" ∷ []) _ []
      server alice refl refl refl refl

users_overflows_example : users 5 [] world ≡ fault
users_overflows_example = users_overflows 5 [] world
