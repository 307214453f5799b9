-- ===== src/Mircd/Live/Runs.antt =====
-- The event loop of mircd over a run in which no member of a channel goes.
use nycu_intro_np.Prelude.{
  ℕ, ◌<◌, ◌≡◌, refl, sym, ap, ◌∙◌, Bool, true, false, not, ◌==◌, List, [], ◌∷◌, none, some, Bytes,
  bytes_eq, subst, keep, find, contains, erase, nat_eq, length, All, arith, if◌then◌else◌,
  find-some, contains-emplace, contains-erase,
}
use nycu_intro_np.Mircd.Wire.{parse}
use nycu_intro_np.Mircd.State.{Client, World, new_client}
use nycu_intro_np.Mircd.Monad.{Outcome, ok, thrown, disconnect, fault, sendcmd, sendcmds, sendstr}
use nycu_intro_np.Mircd.Controller.{client_add, client_del}
use nycu_intro_np.Mircd.Dispatch.{call}
use nycu_intro_np.Mircd.Server.{
  Server, max_line, handle_new_client, close_client, tokens, settle, handle_token, handle_tokens,
  handle_client_input, Event, arrives, readable, step, run,
}
use nycu_intro_np.Mircd.Live.{IsLiveWorld}
use nycu_intro_np.Mircd.Live.Members.{add-IsLive, erase-IsLive}
use nycu_intro_np.Mircd.Live.Names.{IsAfter, Stays}
use nycu_intro_np.Mircd.Live.Calls.{special_name, call-IsAfter}

abbrev pub listed : ℕ → List ℕ → Bool
listed g [] = false
listed g (fd ∷ fds) = if fd == g then true else listed g fds

-- The tables are in step, and the connections that epoll watches are those of the clients.
pub record IsLiveServer (s : Server) : Type 0 where
  pub tables : IsLiveWorld s.world
  pub watches : (g : ℕ) → listed g s.watched ≡ contains g s.world.clients

-- A line that is empty, or a command but QUIT and USERS.
abbrev pub is_plain : List Bytes → Bool
is_plain [] = true
is_plain (cmd ∷ argv) = not (special_name cmd)

-- The state behind some lines of a client.
abbrev IsNext : Server → Server → Type 0
IsNext s t = IsAfter s.world t.world × (t.watched ≡ s.watched)

settle-IsNext :
    (fd : ℕ) (s : Server) (o : Outcome (Unit {0}))
    → Stays (IsAfter s.world) o
    → (t : Server) × (settle fd s o ≡ some t) × IsNext s t
unfolding settle sendcmd sendcmds sendstr
settle-IsNext fd s (ok a w) h = (record s { world = w }, refl, (h, refl))
settle-IsNext fd s (thrown e w) h = (_, refl, (h, refl))
settle-IsNext fd s (disconnect w) h = elim h [ ]
settle-IsNext fd s fault h = elim h [ ]

call-plain :
    (fd : ℕ) (argv : List Bytes) (w : World)
    → contains fd w.clients ≡ true
    → IsLiveWorld w
    → is_plain argv ≡ true
    → Stays (IsAfter w) (call fd argv w)
unfolding call
call-plain fd [] w there live plain = (live, λ g. refl)
call-plain fd (cmd ∷ argv) w there live plain =
    let (c, here) = find-some fd w.clients there in
    call-IsAfter fd cmd argv w c here live (ground arith)

handle_tokens-IsNext :
    (fd : ℕ) (ts : List Bytes) (s : Server)
    → contains fd s.world.clients ≡ true
    → IsLiveWorld s.world
    → All (λ t. is_plain (parse t) ≡ true) ts
    → (t : Server) × (handle_tokens fd ts s ≡ some t) × IsNext s t
unfolding handle_tokens handle_token
handle_tokens-IsNext fd [] s there live plain = (s, refl, ((live, λ g. refl), refl))
handle_tokens-IsNext fd (line ∷ ts) s there live (first, plain) =
    let (t, e, ((live', same), watched)) =
      settle-IsNext fd s (call fd (parse line) s.world)
        (call-plain fd (parse line) s.world there live first) in
    let (u, e', ((live'', same'), watched')) =
      handle_tokens-IsNext fd ts t (same fd ∙ there) live' plain in
    (u, ground (arith, e, e'), ((live'', λ g. same' g ∙ same g), watched' ∙ watched))

listed-keep :
    (fd g : ℕ) (l : List ℕ)
    → listed g (keep (λ x. not (x == fd)) l) ≡ (if fd == g then false else listed g l)
listed-keep fd g [] = ground arith
listed-keep fd g (x ∷ l) = ground (arith, listed-keep fd g l)

arrives-IsLive :
    (fd : ℕ) (info host : Bytes) (s : Server)
    → contains fd s.world.clients ≡ false
    → IsLiveServer s
    → IsLiveServer (handle_new_client fd info host s)
unfolding handle_new_client client_add new_client
arrives-IsLive fd info host s new h = record {
  tables = rw new (
      add-IsLive fd (new_client s.world.next_ref fd info host) s.world.clients s.world.channels new
        refl refl h.tables);
  watches = λ g. ground (
    arith,
    new,
    h.watches g,
    contains-emplace fd g (new_client s.world.next_ref fd info host) s.world.clients,
  );
}

-- The server behind a client that is in the table.
abbrev without_client : ℕ → Client → Server → Server
without_client fd c s = record {
  world = record s.world {
    clients = erase fd s.world.clients;
    nick_mp = erase c.nickname s.world.nick_mp;
  };
  watched = keep (λ x. not (x == fd)) s.watched;
}

close_client_lem :
    (fd : ℕ) (c : Client) (s : Server)
    → find fd s.world.clients ≡ some c
    → close_client fd s ≡ without_client fd c s
unfolding close_client client_del
close_client_lem fd c s here = ground arith

leaves-IsLive :
    (fd : ℕ) (c : Client) (s : Server)
    → find fd s.world.clients ≡ some c
    → c.channels ≡ []
    → IsLiveServer s
    → IsLiveServer (close_client fd s)
leaves-IsLive fd c s here nowhere h =
    subst IsLiveServer (sym (close_client_lem fd c s here)) (record {
      tables = erase-IsLive fd c s.world.clients s.world.channels here nowhere h.tables;
      watches = λ g.
          ground
            (arith, h.watches g, listed-keep fd g s.watched, contains-erase fd g s.world.clients);
    })

-- A new connection has a descriptor of its own; a client that goes is in no channel; a client that
-- says something is there, and sends less than a full buffer of plain commands.
abbrev pub IsTame : Server → Event → Type 0
IsTame s (arrives fd info host) = contains fd s.world.clients ≡ false
IsTame s (readable fd none) = (c : Client) × (find fd s.world.clients ≡ some c) × (c.channels ≡ [])
IsTame s (readable fd (some buf)) =
    (contains fd s.world.clients ≡ true)
    × (length buf < max_line)
    × All (λ t. is_plain (parse t) ≡ true) (tokens buf)

abbrev pub AreTame : Server → List Event → Type 0
AreTame s [] = Unit
AreTame s (e ∷ es) = IsTame s e × ((t : Server) → step e s ≡ some t → AreTame t es)

step-IsLive :
    (e : Event) (s : Server)
    → IsLiveServer s
    → IsTame s e
    → (t : Server) × (step e s ≡ some t) × IsLiveServer t
unfolding step handle_client_input
step-IsLive (arrives fd info host) s h new = (_, refl, arrives-IsLive fd info host s new h)
step-IsLive (readable fd none) s h (c, here, nowhere) =
    (_, refl, leaves-IsLive fd c s here nowhere h)
step-IsLive (readable fd (some buf)) s h (there, short, plain) =
    let (t, e, ((live, same), watched)) =
      handle_tokens-IsNext fd (tokens buf) s there h.tables plain in
    (
      t,
      ground (arith, e),
      record { tables = live; watches = λ g. ap (listed g) watched ∙ h.watches g ∙ sym (same g) },
    )

-- From a state in which the tables of clients, channels and watched connections are in step, the event
-- loop goes through any run of the kind that IsTame describes without undefined behaviour, and ends in
-- such a state.
pub run-IsLive :
    (es : List Event) (s : Server)
    → IsLiveServer s
    → AreTame s es
    → (t : Server) × (run es s ≡ some t) × IsLiveServer t
unfolding run
run-IsLive [] s h tame = (s, refl, h)
run-IsLive (e ∷ es) s h (first, rest) =
    let (t, stepped, h') = step-IsLive e s h first in
    let (u, ran, h'') = run-IsLive es t h' (rest t stepped) in
    (u, ground (arith, stepped, ran), h'')
