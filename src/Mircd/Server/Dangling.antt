-- ===== src/Mircd/Server/Dangling.antt =====
-- What is left of a client that has gone.
use nycu_intro_np.Prelude.{
  ℕ, ◌≡◌, refl, false, List, [], ◌∷◌, ◌++◌, none, some, Bytes, equal, codes, is_empty,
  if◌then◌else◌, Map, find, erase, nat_eq, bytes_eq, ◌==◌, arith, All, find-erase, Bool-cases, inl,
  inr, ◌⊎◌, Option-cases,
}
use nycu_intro_np.Mircd.Wire.{parse}
use nycu_intro_np.Mircd.State.{Client, Channel, World, deref}
use nycu_intro_np.Mircd.Monad.{fault, disconnect, load, getuser}
use nycu_intro_np.Mircd.Channel.{getchannel, getusers, usersstr, usersstr_onto}
use nycu_intro_np.Mircd.Controller.{names, client_del, quit}
use nycu_intro_np.Mircd.Dispatch.{CmdItem, cmds, call, call_item, run_handler, count}
use nycu_intro_np.Mircd.Server.{Server, handle_token, handle_tokens, settle, close_client}

-- No node but those under `gd` lies at `r`.
abbrev pub OnlyAt : ℕ → ℕ → Map ℕ Client → Type 0
OnlyAt r gd = All (λ e. e.1.ref ≡ r → e.0 ≡ gd)

deref-erase : (r gd : ℕ) (m : Map ℕ Client) → OnlyAt r gd m → deref r (erase gd m) ≡ none
unfolding deref erase
deref-erase r gd [] h = refl
deref-erase r gd ((fd, c) ∷ m) h = ground (arith, deref-erase r gd m h.1, h.0)

client_del_lem :
    (gd : ℕ) (w : World) (g : Client)
    → find gd w.clients ≡ some g
    → (client_del gd w).0
      ≡ record w { clients = erase gd w.clients; nick_mp = erase g.nickname w.nick_mp }
unfolding client_del
client_del_lem gd w g h = ground arith

-- Some member of the list is kept as the address `r`.
abbrev HasRef : ℕ → Map ℕ ℕ → Type 0
HasRef r [] = ⊥
HasRef r ((fd, x) ∷ users) = (x ≡ r) ⊎ HasRef r users

HasRef-find : (fd r : ℕ) (users : Map ℕ ℕ) → find fd users ≡ some r → HasRef r users
unfolding find
HasRef-find fd r [] h = absurd (ground arith)
HasRef-find fd r ((gd, x) ∷ users) h = elim (Bool-cases (gd == fd)) [
  | inl e ↦ inl (ground arith)
  | inr e ↦ inr (HasRef-find fd r users (ground arith))
]

usersstr_onto-fault :
    (r : ℕ) (str : Bytes) (users : Map ℕ ℕ) (w : World)
    → deref r w.clients ≡ none
    → HasRef r users
    → usersstr_onto str users w ≡ fault
unfolding usersstr_onto load
usersstr_onto-fault r str [] w gone h = absurd h
usersstr_onto-fault r str ((fd, x) ∷ users) w gone h = elim (Option-cases (deref x w.clients)) [
  | inl e ↦ ground arith
  | inr (c, e) ↦ elim h [
    | inl same ↦ absurd (ground arith)
    | inr later ↦ ground (
      arith,
      usersstr_onto-fault r ((if is_empty str then str else str ++ b' ' ∷ []) ++ c.nickname) users w
          gone later,
    )
  ]
]

usersstr-fault :
    (r : ℕ) (ch : Channel) (w : World)
    → deref r w.clients ≡ none
    → HasRef r ch.users
    → usersstr ch w ≡ fault
unfolding usersstr
usersstr-fault r ch w gone h = usersstr_onto-fault r [] ch.users w gone h

not_empty : (r : ℕ) (users : Map ℕ ℕ) → HasRef r users → is_empty users ≡ false
not_empty r [] h = absurd h
not_empty r (u ∷ users) h = refl

getusers-fault :
    (r : ℕ) (ch : Channel) (w : World)
    → deref r w.clients ≡ none
    → HasRef r ch.users
    → getusers ch w ≡ fault
unfolding getusers
getusers-fault r ch w gone h = ground (arith, not_empty r ch.users h, usersstr-fault r ch w gone h)

names-fault :
    (r fd : ℕ) (name : Bytes) (argv : List Bytes) (ch : Channel) (w : World)
    → find name w.channels ≡ some ch
    → deref r w.clients ≡ none
    → HasRef r ch.users
    → names fd (name ∷ argv) w ≡ fault
unfolding names getchannel
names-fault r fd name argv ch w e gone h = ground (arith, getusers-fault r ch w gone h)

-- When a client that is in a channel goes, the channel keeps a reference to it, and the next NAMES
-- of that channel, whoever asks, reads through the reference.
pub names_dangle :
    (gd fd : ℕ) (g : Client) (name : Bytes) (argv : List Bytes) (ch : Channel) (w : World)
    → find gd w.clients ≡ some g
    → OnlyAt g.ref gd w.clients
    → find name w.channels ≡ some ch
    → find gd ch.users ≡ some g.ref
    → names fd (name ∷ argv) (client_del gd w).0 ≡ fault
names_dangle gd fd g name argv ch w h only e m = rw (client_del_lem gd w g h) (
    names-fault g.ref fd name argv ch _ e (deref-erase g.ref gd w.clients only)
      (HasRef-find gd g.ref ch.users m))

call_gone :
    (fd : ℕ) (cmd : Bytes) (argv : List Bytes) (item : CmdItem) (w : World)
    → find fd w.clients ≡ none
    → find cmd cmds ≡ some item
    → call fd (cmd ∷ argv) w ≡ fault
unfolding call call_item getuser
call_gone fd cmd argv item w h e = ground arith

call_quit :
    (fd : ℕ) (argv : List Bytes) (w : World) (c : Client)
    → find fd w.clients ≡ some c
    → call fd (codes "QUIT" ∷ argv) w ≡ disconnect w
unfolding call call_item getuser run_handler quit find equal count
call_quit fd argv w c h = ground arith

close_client_gone :
    (fd : ℕ) (s : Server) (c : Client)
    → find fd s.world.clients ≡ some c
    → find fd (close_client fd s).world.clients ≡ none
unfolding close_client client_del
close_client_gone fd s c h = ground (arith, find-erase fd fd s.world.clients)

handle_token-quit :
    (fd : ℕ) (t : Bytes) (argv : List Bytes) (s : Server) (c : Client)
    → find fd s.world.clients ≡ some c
    → parse t ≡ codes "QUIT" ∷ argv
    → handle_token fd t s ≡ some (close_client fd s)
unfolding handle_token settle
handle_token-quit fd t argv s c h p = rw (p, call_quit fd argv s.world c h)

handle_token_gone :
    (fd : ℕ) (u cmd : Bytes) (rest : List Bytes) (item : CmdItem) (s : Server)
    → find fd s.world.clients ≡ none
    → parse u ≡ cmd ∷ rest
    → find cmd cmds ≡ some item
    → handle_token fd u s ≡ none
unfolding handle_token settle
handle_token_gone fd u cmd rest item s h q e = rw (q, call_gone fd cmd rest item s.world h e)

-- A connected client that sends QUIT and any command of the table in one read makes the daemon read
-- the client's entry after it was erased.
pub quit_then_command :
    (fd : ℕ) (t u cmd : Bytes) (argv rest : List Bytes) (item : CmdItem) (ts : List Bytes)
    (s : Server) (c : Client)
    → find fd s.world.clients ≡ some c
    → parse t ≡ codes "QUIT" ∷ argv
    → parse u ≡ cmd ∷ rest
    → find cmd cmds ≡ some item
    → handle_tokens fd (t ∷ u ∷ ts) s ≡ none
unfolding handle_tokens
quit_then_command fd t u cmd argv rest item ts s c h p q e = ground (
  arith,
  handle_token-quit fd t argv s c h p,
  handle_token_gone fd u cmd rest item (close_client fd s) (close_client_gone fd s c h) q e,
)
