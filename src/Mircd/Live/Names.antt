-- ===== src/Mircd/Live/Names.antt =====
-- NAMES, and what getchannel does, in a state in which the tables of mircd are in step.
use nycu_intro_np.Prelude.{
  ℕ, ◌≡◌, refl, true, false, ◌==◌, List, [], ◌∷◌, ◌++◌, none, some, Bytes, codes, Map, find,
  contains, emplace, nat_eq, bytes_eq, All, arith, Bool-cases, inl, inr, is_empty, if◌then◌else◌,
}
use nycu_intro_np.Mircd.Wire.{CmdMsg, Rpl, Err, error, reply}
use nycu_intro_np.Mircd.State.{Client, Channel, World, deref}
use nycu_intro_np.Mircd.Monad.{Outcome, ok, thrown, disconnect, fault, load}
use nycu_intro_np.Mircd.Channel.{
  getchannel, new_channel, is_channel_name, usersstr, usersstr_onto, getusers,
}
use nycu_intro_np.Mircd.Controller.{all_users}
use nycu_intro_np.Mircd.Live.{HasClient, IsChannel, IsLiveWorld}

-- A world that is in step and has the same clients under the same descriptors.
abbrev pub IsAfter : World → World → Type 0
IsAfter w w' = IsLiveWorld w' × ((g : ℕ) → contains g w'.clients ≡ contains g w.clients)

-- `P` holds of the world that a member function leaves when it returns or throws a reply; it does not
-- end in another way.
abbrev pub Stays {ℓ} : {A : Type ℓ} → (World → Type 0) → Outcome A → Type 0
Stays P (ok a w) = P w
Stays P (thrown e w) = P w
Stays P (disconnect w) = ⊥
Stays P fault = ⊥

deref-some :
    (fd r : ℕ) (c : Client) (clients : Map ℕ Client)
    → find fd clients ≡ some c
    → c.ref ≡ r
    → (d : Client) × (deref r clients ≡ some d)
unfolding find deref
deref-some fd r c [] here same = absurd (cc)
deref-some fd r c ((gd, d) ∷ clients) here same = elim (Bool-cases (d.ref == r)) [
  | inl it ↦ (d, rw it refl)
  | inr other ↦ let (x, e) = deref-some fd r c clients (ground arith) same in (x, rw other e)
]

module _ (w : World) where
  pub load-member : (u : ℕ × ℕ) → HasClient w.clients u → (d : Client) × (load u.1 w ≡ ok d w)
  unfolding load
  load-member u (c, here, same) =
      let (d, e) = deref-some u.0 u.1 c w.clients here same in (d, rw e refl)

  usersstr_onto-ok :
      (str : Bytes) (users : Map ℕ ℕ)
      → All (HasClient w.clients) users
      → (s : Bytes) × (usersstr_onto str users w ≡ ok s w)
  unfolding usersstr_onto
  usersstr_onto-ok str [] h = (str, refl)
  usersstr_onto-ok str ((fd, r) ∷ users) (member, h) =
      let (d, e) = load-member (fd, r) member in
      let (s, rest) =
        usersstr_onto-ok ((if is_empty str then str else str ++ b' ' ∷ []) ++ d.nickname) users h in
      (s, ground (arith, e, rest))

  pub getusers-ok :
      (ch : Channel)
      → All (HasClient w.clients) ch.users
      → (out : List CmdMsg) × (getusers ch w ≡ ok out w)
  unfolding getusers usersstr
  getusers-ok ch h = elim (Bool-cases (is_empty ch.users)) [
    | inl empty ↦ (
      reply Rpl.endofnames (ch.name ∷ codes "End of /NAMES list" ∷ []) ∷ [],
      ground (arith, empty),
    )
    | inr some_in ↦
        let (s, e) = usersstr_onto-ok [] ch.users h in
        (
          reply Rpl.namreply (ch.name ∷ s ∷ [])
              ∷ reply Rpl.endofnames (ch.name ∷ codes "End of /NAMES list" ∷ [])
              ∷ [],
          ground (arith, some_in, e),
        )
  ]

  pub all_users-ok :
      (channels : Map Bytes Channel)
      → All (IsChannel w.clients) channels
      → (out : List CmdMsg) × (all_users channels w ≡ ok out w)
  unfolding all_users
  all_users-ok [] h = ([], refl)
  all_users-ok ((name, ch) ∷ channels) ((named, users), h) =
      let (out, e) = getusers-ok ch users in
      let (more, rest) = all_users-ok channels h in (out ++ more, ground (arith, e, rest))

-- A channel that is there; one that is made; or a refusal, for a name that is none.
pub getchannel-there :
    (name : Bytes) (ch : Channel) (w : World)
    → find name w.channels ≡ some ch
    → getchannel name w ≡ ok ch w
unfolding getchannel
getchannel-there name ch w h = ground arith

abbrev pub fresh : Bytes → Channel
fresh name = record { name = name; topic = []; users = [] }

pub getchannel-new :
    (name : Bytes) (w : World)
    → find name w.channels ≡ none
    → is_channel_name name ≡ true
    → getchannel name w
      ≡ ok (fresh name) (record w { channels = emplace name (fresh name) w.channels })
unfolding getchannel new_channel
getchannel-new name w h good = ground arith

pub getchannel-bad :
    (name : Bytes) (w : World)
    → find name w.channels ≡ none
    → is_channel_name name ≡ false
    → getchannel name w ≡ thrown (error Err.nosuchchannel (name ∷ codes "No such channel" ∷ [])) w
unfolding getchannel new_channel
getchannel-bad name w h bad = ground arith
