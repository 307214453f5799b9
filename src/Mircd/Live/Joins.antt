-- ===== src/Mircd/Live/Joins.antt =====
-- JOIN keeps the tables of mircd in step, and does not run into undefined behaviour.
use nycu_intro_np.Prelude.{
  ℕ, ◌≤◌, ◌≡◌, refl, sym, ap, ◌∙◌, subst, false, List, [], ◌∷◌, ◌++◌, none, some, Bytes, codes,
  find, length, contains, emplace, modify, nat_eq, bytes_eq, All-find, arith, Bool-cases, inl, inr,
  find-emplace, find-modify_self, contains-modify, contains-find-none, contains-find-some,
  Option-cases, beq_refl,
}
use nycu_intro_np.Mircd.Wire.{Err, error, say, render_msgs}
use nycu_intro_np.Mircd.State.{Client, Channel, World}
use nycu_intro_np.Mircd.Monad.{
  set_user, ok, thrown, ◌>>=◌, getuser, sendcmd, sendcmds, sendstr, bind-ok, arg,
}
use nycu_intro_np.Mircd.Client.{join_channel}
use nycu_intro_np.Mircd.Channel.{getchannel, is_channel_name, fds, add, gettopic}
use nycu_intro_np.Mircd.Controller.{names, join}
use nycu_intro_np.Mircd.Controller.Talk.{copies, broadcast_lem}
use nycu_intro_np.Mircd.Live.{IsChannel, IsLive, IsLiveWorld, emplace-IsLive}
use nycu_intro_np.Mircd.Live.Members.{joined, with_user, join-IsLive}
use nycu_intro_np.Mircd.Live.Names.{
  Stays, IsAfter, getchannel-there, getchannel-new, getchannel-bad, fresh,
}
use nycu_intro_np.Mircd.Live.Handlers.{ends, names_there}

add_lem :
    (fd : ℕ) (w : World) (c : Client) (name : Bytes) (ch : Channel)
    → find fd w.clients ≡ some c
    → find name w.channels ≡ some ch
    → (s : List (ℕ × Bytes)) × (add name fd w
        ≡ ok tt
            (record w { channels = modify name (with_user c.connfd c.ref) w.channels; sent = s }))
unfolding add getuser
add_lem fd w c name ch here at = (
  w.sent
      ++ copies (render_msgs c.nickname (say (codes "JOIN") (ch.name ∷ []) ∷ []))
          (fds (emplace c.connfd c.ref ch.users)),
  ground (
    arith,
    find-modify_self name (with_user c.connfd c.ref) w.channels ch at,
    getchannel-there name (with_user c.connfd c.ref ch)
        (record w { channels = modify name (with_user c.connfd c.ref) w.channels })
        (find-modify_self name (with_user c.connfd c.ref) w.channels ch at),
    broadcast_lem (fds (emplace c.connfd c.ref ch.users)) (say (codes "JOIN") (ch.name ∷ []))
        c.nickname (record w { channels = modify name (with_user c.connfd c.ref) w.channels }),
  ),
)

-- The world behind `join_channel` and `Channel::add`.
abbrev with_member : ℕ → Bytes → Client → List (ℕ × Bytes) → World → World
with_member fd name c s w = record w {
  clients = modify fd (joined name) w.clients;
  channels = modify name (with_user c.connfd c.ref) w.channels;
  sent = s;
}

-- JOIN up to NAMES, from the world that getchannel leaves.
join_step :
    (fd : ℕ) (name : Bytes) (argv : List Bytes) (w w' : World) (c : Client) (ch : Channel)
    → getchannel name w ≡ ok ch w'
    → find fd w'.clients ≡ some c
    → find name w'.channels ≡ some ch
    → IsLiveWorld w'
    → (s : List (ℕ × Bytes)) × (join fd (name ∷ argv) w
        ≡ names fd (name ∷ []) (with_member fd name c s w'))
unfolding join arg getuser set_user sendcmd sendcmds sendstr
join_step fd name argv w w' c ch got here at live =
    let w2 = record w' { clients = modify fd (joined name) w'.clients } in
    let me : find fd w2.clients ≡ some (joined name c) =
      find-modify_self fd (joined name) w'.clients c here in
    let (s, added) = add_lem fd w2 (joined name c) name ch me at in
    let w3 = with_member fd name c s w' in
    let ch' = with_user c.connfd c.ref ch in
    let there : find name w3.channels ≡ some ch' =
      find-modify_self name (with_user c.connfd c.ref) w'.channels ch at in
    let (named, _) = All-find (IsChannel w'.clients) name w'.channels ch live.members at in
    (
      s ++ (c.connfd, render_msgs name (gettopic ch' ∷ [])) ∷ [],
      bind-ok (getchannel name)
            (λ _. join_channel fd name >>= λ _. add name fd >>= λ _. getchannel name >>= λ channel.
              getuser fd >>= λ d.
              sendcmd d.connfd (gettopic channel) name >>= λ _. names fd (channel.name ∷ []))
            w w' ch got
          ∙ bind-ok (add name fd)
              (λ _. getchannel name >>= λ channel. getuser fd >>= λ d.
                sendcmd d.connfd (gettopic channel) name >>= λ _. names fd (channel.name ∷ []))
              w2 w3 tt added
          ∙ bind-ok (getchannel name)
              (λ channel. getuser fd >>= λ d.
                sendcmd d.connfd (gettopic channel) name >>= λ _. names fd (channel.name ∷ []))
              w3 w3 ch' (getchannel-there name ch' w3 there)
          ∙ ground (arith, me, ap (λ n. names fd (n ∷ [])) named),
    )

with_member-IsAfter :
    (fd : ℕ) (name : Bytes) (argv : List Bytes) (w w' : World) (c : Client) (ch : Channel)
    → getchannel name w ≡ ok ch w'
    → find fd w'.clients ≡ some c
    → find name w'.channels ≡ some ch
    → IsLiveWorld w'
    → ((g : ℕ) → contains g w'.clients ≡ contains g w.clients)
    → Stays (IsAfter w) (join fd (name ∷ argv) w)
with_member-IsAfter fd name argv w w' c ch got here at live same =
    let (s, e) = join_step fd name argv w w' c ch got here at live in
    let w4 = with_member fd name c s w' in
    let mine = live.connfds fd c here in
    let known = contains-find-some name w'.channels {v = ch} at in
    let live4 : IsLiveWorld w4 =
      subst
        (λ n.
          IsLive (modify fd (joined name) w'.clients) (modify name (with_user n c.ref) w'.channels))
        (sym mine) (join-IsLive fd name c w'.clients w'.channels here known live) in
    let me = find-modify_self fd (joined name) w'.clients c here in
    let there = find-modify_self name (with_user c.connfd c.ref) w'.channels ch at in
    let (s', e') =
      names_there fd w4 (joined name c) me live4 name [] (with_user c.connfd c.ref ch) there in
    ends w _ _ (e ∙ e') (live4, λ g. contains-modify fd g (joined name) w'.clients ∙ same g)

module _ (fd : ℕ) (w : World) (c : Client) (here : find fd w.clients ≡ some c)
    (live : IsLiveWorld w) where
  pub join-IsAfter : (argv : List Bytes) → 1 ≤ length argv → Stays (IsAfter w) (join fd argv w)
  join-IsAfter [] few = absurd (omega arith)
  join-IsAfter (name ∷ argv) few = elim (Option-cases (find name w.channels)) [
    | inr (ch, at) ↦
        with_member-IsAfter fd name argv w w c ch (getchannel-there name ch w at) here at live
          (λ g. refl)
    | inl absent ↦ elim (Bool-cases (is_channel_name name)) [
      | inl good ↦
          let new = contains-find-none name w.channels absent in
          with_member-IsAfter fd name argv w
            (record w { channels = emplace name (fresh name) w.channels }) c (fresh name)
            (getchannel-new name w absent good) here
            (ground (arith, find-emplace name name (fresh name) w.channels, new, beq_refl name))
            (emplace-IsLive name (fresh name) w.clients w.channels refl refl new live) (λ g. refl)
      | inr bad ↦
          ends w _ (thrown (error Err.nosuchchannel (name ∷ codes "No such channel" ∷ [])) w)
            (bad_join name argv absent bad) (live, λ g. refl)
    ]
  ]
    where
      bad_join :
          (name : Bytes) (argv : List Bytes)
          → find name w.channels ≡ none
          → is_channel_name name ≡ false
          → join fd (name ∷ argv) w
            ≡ thrown (error Err.nosuchchannel (name ∷ codes "No such channel" ∷ [])) w
      bad_join name argv absent bad =
          unfold join arg in ground (arith, getchannel-bad name w absent bad)
