-- ===== src/Mircd/Live/Parts.antt =====
-- PART, TOPIC and the commands that change no table keep those of mircd in step, and do not run into
-- undefined behaviour.
use nycu_intro_np.Prelude.{
  ℕ, ◌≤◌, ◌≡◌, refl, sym, ap, ◌∙◌, true, List, [], ◌∷◌, ◌++◌, some, Bytes, codes, find, length,
  contains, modify, nat_eq, bytes_eq, All-find, arith, Bool-cases, inl, inr, ◌⊎◌, find-modify_self,
  contains-modify, contains-find-none, contains-find-some, find-some, Option-cases,
}
use nycu_intro_np.Mircd.Wire.{CmdMsg, Err, error, say, render_msgs}
use nycu_intro_np.Mircd.State.{Client, Channel, World}
use nycu_intro_np.Mircd.Monad.{
  load, set_user, ok, thrown, ◌>>=◌, getuser, sendcmd, sendcmds, sendstr, bind-ok, arg,
}
use nycu_intro_np.Mircd.Client.{part_channel, in_channel}
use nycu_intro_np.Mircd.Channel.{has_channel, fds, del}
use nycu_intro_np.Mircd.Controller.{topic, list, privmsg, ping, part, part_msg, member_check}
use nycu_intro_np.Mircd.Controller.Talk.{
  member_check-passes, copies, broadcast_lem, deliver_lem, topic_get, topic_set, retitled,
}
use nycu_intro_np.Mircd.Live.{
  topic-IsLive, has_member, HasClient-modify, HasClient, IsChannel, IsLiveWorld,
}
use nycu_intro_np.Mircd.Live.Members.{parted-Keeps, parted, without_user, part-IsLive}
use nycu_intro_np.Mircd.Live.Names.{load-member, Stays, IsAfter, getchannel-there}
use nycu_intro_np.Mircd.Live.Handlers.{ends}

del_lem :
    (fd r : ℕ) (name msg : Bytes) (w : World) (ch : Channel) (d : Client)
    → find name w.channels ≡ some ch
    → find fd ch.users ≡ some r
    → load r w ≡ ok d w
    → (s : List (ℕ × Bytes)) × (del name fd msg w
        ≡ ok tt (record w { channels = modify name (without_user fd) w.channels; sent = s }))
unfolding del
del_lem fd r name msg w ch d at member loaded = (
  w.sent
      ++ copies (render_msgs d.nickname (say (codes "PART") (ch.name ∷ msg ∷ []) ∷ []))
          (fds ch.users),
  ground (
    arith,
    getchannel-there name ch w at,
    member,
    loaded,
    broadcast_lem (fds ch.users) (say (codes "PART") (ch.name ∷ msg ∷ [])) d.nickname w,
  ),
)

-- The member that PART looks up, in the world behind `part_channel`.
member_loads :
    (fd : ℕ) (name : Bytes) (w : World) (c : Client) (ch : Channel)
    → find fd w.clients ≡ some c
    → IsLiveWorld w
    → find name w.channels ≡ some ch
    → contains name c.channels ≡ true
    → (r : ℕ) × (d : Client) × (find fd ch.users ≡ some r)
      × (load r (record w { clients = modify fd (parted name) w.clients })
          ≡ ok d (record w { clients = modify fd (parted name) w.clients }))
unfolding has_member
member_loads fd name w c ch here live at in_it =
    let w2 = record w { clients = modify fd (parted name) w.clients } in
    let inside : contains fd ch.users ≡ true =
      sym (ap (has_member fd) at) ∙ sym (live.both fd c name here) ∙ in_it in
    let (r, member) = find-some fd ch.users inside in
    let (named, users) = All-find (IsChannel w.clients) name w.channels ch live.members at in
    let known = All-find (HasClient w.clients) fd ch.users r users member in
    let (d, loaded) =
      load-member w2 (fd, r)
        (HasClient-modify fd (parted name) (parted-Keeps name) w.clients (fd, r) known) in
    (r, d, member, loaded)

part_lem :
    (fd : ℕ) (name : Bytes) (argv : List Bytes) (w : World) (c : Client) (ch : Channel)
    → find fd w.clients ≡ some c
    → IsLiveWorld w
    → find name w.channels ≡ some ch
    → contains name c.channels ≡ true
    → (s : List (ℕ × Bytes)) × (part fd (name ∷ argv) w
        ≡ ok tt (record w {
          clients = modify fd (parted name) w.clients;
          channels = modify name (without_user fd) w.channels;
          sent = s;
        }))
unfolding part arg getuser set_user
part_lem fd name argv w c ch here live at in_it =
    let w2 = record w { clients = modify fd (parted name) w.clients } in
    let (named, _) = All-find (IsChannel w.clients) name w.channels ch live.members at in
    let checked =
      member_check-passes fd name w c ch here at (ap (λ n. contains n c.channels) named ∙ in_it) in
    let me = find-modify_self fd (parted name) w.clients c here in
    let mine = live.connfds fd c here in
    let (r, d, member, loaded) = member_loads fd name w c ch here live at in_it in
    let (s, gone) = del_lem fd r name (part_msg (name ∷ argv)) w2 ch d at member loaded in
    (
      s,
      bind-ok (member_check fd name)
            (λ _. part_channel fd name >>= λ _.
              getuser fd >>= λ c. del name c.connfd (part_msg (name ∷ argv)))
            w w tt checked
          ∙ ground (arith, me, ap (λ n. del name n (part_msg (name ∷ argv)) w2) mine, gone),
    )

-- The checks of PART and TOPIC refuse, or let a member of a channel pass.
member_check-cases :
    (fd : ℕ) (name : Bytes) (w : World) (c : Client)
    → find fd w.clients ≡ some c
    → IsLiveWorld w
    → ((e : CmdMsg) × (member_check fd name w ≡ thrown e w))
      ⊎ ((ch : Channel) × (find name w.channels ≡ some ch) × (contains name c.channels ≡ true))
unfolding member_check has_channel getuser
member_check-cases fd name w c here live = elim (Option-cases (find name w.channels)) [
  | inl absent ↦ inl (
    error Err.nosuchchannel (name ∷ codes "No such channel" ∷ []),
    ground (arith, contains-find-none name w.channels absent),
  )
  | inr (ch, at) ↦
      let (named, _) = All-find (IsChannel w.clients) name w.channels ch live.members at in
      let same = ap (λ n. contains n c.channels) named in
      elim (Bool-cases (contains name c.channels)) [
        | inl in_it ↦ inr (ch, at, in_it)
        | inr outside ↦ inl (
          error Err.notonchannel (name ∷ codes "You're not on that channel" ∷ []),
          ground (
            arith,
            contains-find-some name w.channels {v = ch} at,
            getchannel-there name ch w at,
            same,
            outside,
          ),
        )
      ]
]

part_refused :
    (fd : ℕ) (name : Bytes) (argv : List Bytes) (w : World) (e : CmdMsg)
    → member_check fd name w ≡ thrown e w
    → part fd (name ∷ argv) w ≡ thrown e w
unfolding part arg
part_refused fd name argv w e h = ground arith

topic_refused :
    (fd : ℕ) (name : Bytes) (argv : List Bytes) (w : World) (e : CmdMsg)
    → member_check fd name w ≡ thrown e w
    → topic fd (name ∷ argv) w ≡ thrown e w
unfolding topic arg
topic_refused fd name argv w e h = ground arith

module _ (fd : ℕ) (w : World) (c : Client) (here : find fd w.clients ≡ some c)
    (live : IsLiveWorld w) where
  pub part-IsAfter : (argv : List Bytes) → 1 ≤ length argv → Stays (IsAfter w) (part fd argv w)
  part-IsAfter [] few = absurd (omega arith)
  part-IsAfter (name ∷ argv) few = elim (member_check-cases fd name w c here live) [
    | inl (e, refused) ↦ ends w _ _ (part_refused fd name argv w e refused) (live, λ g. refl)
    | inr (ch, at, in_it) ↦
        let (s, left) = part_lem fd name argv w c ch here live at in_it in
        ends w _ _ left (
          part-IsLive fd name w.clients w.channels live,
          λ g. contains-modify fd g (parted name) w.clients,
        )
  ]

  pub topic-IsAfter : (argv : List Bytes) → 1 ≤ length argv → Stays (IsAfter w) (topic fd argv w)
  unfolding sendcmd sendcmds sendstr
  topic-IsAfter [] few = absurd (omega arith)
  topic-IsAfter (name ∷ argv) few = elim (member_check-cases fd name w c here live) [
    | inl (e, refused) ↦ ends w _ _ (topic_refused fd name argv w e refused) (live, λ g. refl)
    | inr (ch, at, in_it) ↦
        let (named, _) = All-find (IsChannel w.clients) name w.channels ch live.members at in
        told argv ch at (ap (λ n. contains n c.channels) named ∙ in_it)
  ]
    where
      told :
          (argv : List Bytes) (ch : Channel)
          → find name w.channels ≡ some ch
          → in_channel c ch.name ≡ true
          → Stays (IsAfter w) (topic fd (name ∷ argv) w)
      told [] ch at in_it = ends w _ _ (topic_get fd name w c ch here at in_it) (live, λ g. refl)
      told (t ∷ argv) ch at in_it = ends w _ _ (topic_set fd name t argv w c ch here at in_it) (
        topic-IsLive name (retitled t) w.clients w.channels (λ x. refl) (λ x. refl) live,
        λ g. refl,
      )

  pub list-IsAfter : (argv : List Bytes) → Stays (IsAfter w) (list fd argv w)
  unfolding list getuser sendcmds sendstr
  list-IsAfter argv = rw (here, Stays) (live, λ g. refl)

  pub privmsg-IsAfter : (argv : List Bytes) → Stays (IsAfter w) (privmsg fd argv w)
  unfolding privmsg
  privmsg-IsAfter [] = (live, λ g. refl)
  privmsg-IsAfter (name ∷ []) = (live, λ g. refl)
  privmsg-IsAfter (name ∷ text ∷ argv) = elim (Option-cases (find name w.channels)) [
    | inl absent ↦ ends w _ _ ((deliver_lem fd name text w c here).1 absent) (live, λ g. refl)
    | inr (ch, at) ↦ ends w _ _ ((deliver_lem fd name text w c here).0 ch at) (live, λ g. refl)
  ]

  pub ping-IsAfter : (argv : List Bytes) → Stays (IsAfter w) (ping fd argv w)
  unfolding ping getuser sendstr
  ping-IsAfter [] = (live, λ g. refl)
  ping-IsAfter (a ∷ argv) = rw (here, Stays) (live, λ g. refl)
