-- ===== src/Mircd/Live/Handlers.antt =====
-- Each command keeps the tables of mircd in step, and does not run into undefined behaviour.
use nycu_intro_np.Prelude.{
  ℕ, ◌≤◌, ◌≡◌, refl, sym, subst, true, false, List, [], ◌∷◌, ◌++◌, none, some, Bytes, codes, find,
  length, emplace, modify, nat_eq, bytes_eq, All-find, arith, Bool-cases, inl, inr, contains-modify,
  contains-find-none, Option-cases,
}
use nycu_intro_np.Mircd.Wire.{CmdMsg, Err, error, render_msgs}
use nycu_intro_np.Mircd.State.{add_flag, flag_user, has_regist, Client, Channel, World}
use nycu_intro_np.Mircd.Monad.{set_user, Outcome, ok, thrown, getuser, sendcmds, sendstr, arg}
use nycu_intro_np.Mircd.Client.{starts_alpha, set_nick}
use nycu_intro_np.Mircd.Channel.{is_channel_name}
use nycu_intro_np.Mircd.Controller.{nick, take_nick, nick_in_use, user, names, names_out}
use nycu_intro_np.Mircd.Controller.Nicks.{take_nick-collides, take_nick-erroneous, take_nick-taken}
use nycu_intro_np.Mircd.Live.{IsChannel, IsLiveWorld, emplace-IsLive, modify-IsLive}
use nycu_intro_np.Mircd.Live.Names.{
  Stays, IsAfter, getusers-ok, all_users-ok, getchannel-there, getchannel-new, getchannel-bad,
  fresh,
}

-- A command that ends with a known outcome.
pub ends :
    (w : World) (o o' : Outcome (Unit {0})) → o ≡ o' → Stays (IsAfter w) o' → Stays (IsAfter w) o
ends w o o' e h = subst (Stays (IsAfter w)) (sym e) h

-- What USER sets.
abbrev as_user : Bytes → Bytes → Bytes → Bytes → Client → Client
as_user username hostname servername realname c = record c {
  status = add_flag flag_user c.status;
  username = username;
  hostname = hostname;
  servername = servername;
  realname = realname;
}

module _ (fd : ℕ) (w : World) (c : Client) (here : find fd w.clients ≡ some c)
    (live : IsLiveWorld w) where
  pub take_nick-IsAfter : (name : Bytes) → Stays (IsAfter w) (take_nick fd name w)
  take_nick-IsAfter name = elim (Bool-cases (nick_in_use name w)) [
    | inl used ↦ ends w _ _ (take_nick-collides fd c name w here used) (live, λ g. refl)
    | inr free ↦ elim (Bool-cases (starts_alpha name)) [
      | inl good ↦ ends w _ _ (take_nick-taken fd c name w here free good) (
        modify-IsLive fd (set_nick name) (record { ref = λ d. refl; connfd = λ d. refl }) w.clients
            (λ d. refl) w.channels live,
        λ g. contains-modify fd g (set_nick name) w.clients,
      )
      | inr bad ↦ ends w _ _ (take_nick-erroneous fd c name w here free bad) (live, λ g. refl)
    ]
  ]

  pub nick-IsAfter : (argv : List Bytes) → Stays (IsAfter w) (nick fd argv w)
  unfolding nick
  nick-IsAfter [] = (live, λ g. refl)
  nick-IsAfter (name ∷ argv) = take_nick-IsAfter name

  names_said :
      (argv : List Bytes) (out : List CmdMsg) (w' : World)
      → names_out argv w ≡ ok out w'
      → find fd w'.clients ≡ some c
      → names fd argv w
        ≡ ok tt (record w' { sent = w'.sent ++ (c.connfd, render_msgs c.nickname out) ∷ [] })
  unfolding names getuser sendcmds sendstr
  names_said argv out w' e here' = ground arith

  -- NAMES of a channel that is there, of a new one, and of a name that is none.
  pub names_there :
      (name : Bytes) (argv : List Bytes) (ch : Channel)
      → find name w.channels ≡ some ch
      → (s : List (ℕ × Bytes)) × (names fd (name ∷ argv) w ≡ ok tt (record w { sent = s }))
  unfolding names_out
  names_there name argv ch at =
      let (named, users) = All-find (IsChannel w.clients) name w.channels ch live.members at in
      let (out, e) = getusers-ok w ch users in
      let got = getchannel-there name ch w at in
      (_, names_said (name ∷ argv) out w (ground (arith, got, e)) here)

  names_new :
      (name : Bytes) (argv : List Bytes)
      → find name w.channels ≡ none
      → is_channel_name name ≡ true
      → (s : List (ℕ × Bytes)) × (names fd (name ∷ argv) w
          ≡ ok tt (record w { channels = emplace name (fresh name) w.channels; sent = s }))
  unfolding names_out
  names_new name argv absent good =
      let w' = record w { channels = emplace name (fresh name) w.channels } in
      let (out, e) = getusers-ok w' (fresh name) tt in
      let got = getchannel-new name w absent good in
      (_, names_said (name ∷ argv) out w' (ground (arith, got, e)) here)

  names_bad :
      (name : Bytes) (argv : List Bytes)
      → find name w.channels ≡ none
      → is_channel_name name ≡ false
      → (e : CmdMsg) × (names fd (name ∷ argv) w ≡ thrown e w)
  unfolding names names_out
  names_bad name argv absent bad = (
    error Err.nosuchchannel (name ∷ codes "No such channel" ∷ []),
    ground (arith, getchannel-bad name w absent bad),
  )

  pub names-IsAfter : (argv : List Bytes) → Stays (IsAfter w) (names fd argv w)
  unfolding names_out
  names-IsAfter [] =
      let (out, e) = all_users-ok w w.channels live.members in
      ends w _ _ (names_said [] out w (ground (arith, e)) here) (live, λ g. refl)
  names-IsAfter (name ∷ argv) = elim (Option-cases (find name w.channels)) [
    | inr (ch, at) ↦ let (s, e) = names_there name argv ch at in ends w _ _ e (live, λ g. refl)
    | inl absent ↦ elim (Bool-cases (is_channel_name name)) [
      | inl good ↦
          let (s, e) = names_new name argv absent good in
          ends w _ _ e (
            emplace-IsLive name (fresh name) w.clients w.channels refl refl
                (contains-find-none name w.channels absent) live,
            λ g. refl,
          )
      | inr bad ↦ let (m, e) = names_bad name argv absent bad in ends w _ _ e (live, λ g. refl)
    ]
  ]

  -- USER with the four arguments that `call` asks for.
  pub user-IsAfter : (argv : List Bytes) → 4 ≤ length argv → Stays (IsAfter w) (user fd argv w)
  unfolding user getuser arg set_user
  user-IsAfter [] few = absurd (omega arith)
  user-IsAfter (a ∷ []) few = absurd (omega arith)
  user-IsAfter (a ∷ b ∷ []) few = absurd (omega arith)
  user-IsAfter (a ∷ b ∷ d ∷ []) few = absurd (omega arith)
  user-IsAfter (a ∷ b ∷ d ∷ e ∷ argv) few = elim (Bool-cases (has_regist c)) [
    | inl again ↦
        ends w _ (thrown (error Err.alreadyregistred (codes "You may not reregister" ∷ [])) w)
          (ground arith) (live, λ g. refl)
    | inr new ↦
        ends w _ (ok tt (record w { clients = modify fd (as_user a b d e) w.clients }))
          (ground arith)
          (
            modify-IsLive fd (as_user a b d e) (record { ref = λ x. refl; connfd = λ x. refl })
                w.clients (λ x. refl) w.channels live,
            λ g. contains-modify fd g (as_user a b d e) w.clients,
          )
  ]
