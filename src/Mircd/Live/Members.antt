-- ===== src/Mircd/Live/Members.antt =====
-- Joining and leaving channels, and coming and going of clients, keep the tables of mircd in step.
use nycu_intro_np.Prelude.{
  ℕ, ◌≡◌, refl, sym, ap, ◌∙◌, true, false, [], ◌∷◌, some, Bytes, Map, find, contains, emplace,
  erase, modify, nat_eq, bytes_eq, All, arith, Bool-cases, inl, inr, find-modify, find-modify-some,
  All-find, All-emplace, All-modify, contains-emplace, contains-erase, ◌==◌, equal_iff,
  Distinct-modify, All-erase, All-found, find-erase, ==_iff, find-emplace, find-contains-false,
  contains-find-none, contains-find-some, Option-cases,
}
use nycu_intro_np.Mircd.State.{Client, Channel}
use nycu_intro_np.Mircd.Live.{
  HasClient, IsChannel, has_member, IsLive, All-map, Keeps, HasClient-modify, IsChannel-modify,
  connfds-modify,
}

-- `Client::join` and `Channel::add`, of the client under `fd`.
abbrev pub joined : Bytes → Client → Client
joined name c = record c { channels = emplace name name c.channels }

abbrev pub with_user : ℕ → ℕ → Channel → Channel
with_user fd r ch = record ch { users = emplace fd r ch.users }

joined-Keeps : (name : Bytes) → Keeps (joined name)
joined-Keeps name = record { ref = λ c. refl; connfd = λ c. refl }

pub join-IsLive :
    (fd : ℕ) (name : Bytes) (c : Client) (clients : Map ℕ Client) (channels : Map Bytes Channel)
    → find fd clients ≡ some c
    → contains name channels ≡ true
    → IsLive clients channels
    → IsLive (modify fd (joined name) clients) (modify name (with_user fd c.ref) channels)
unfolding has_member
join-IsLive fd name c clients channels here known h =
    let k = joined-Keeps name in
    let me : HasClient (modify fd (joined name) clients) (fd, c.ref) =
      HasClient-modify fd (joined name) k clients (fd, c.ref) (c, here, refl) in
    record {
      connfds = connfds-modify fd (joined name) k clients h.connfds;
      members =
          All-modify (IsChannel clients) (IsChannel (modify fd (joined name) clients)) name
            (with_user fd c.ref) channels
            (λ j ch (e, users). (
              e,
              All-emplace (HasClient (modify fd (joined name) clients)) fd c.ref ch.users me
                  (All-map _ _ ch.users (HasClient-modify fd (joined name) k clients) users),
            ))
            (λ j ch p. IsChannel-modify fd (joined name) k clients (j, ch) p) h.members;
      distinct = Distinct-modify name (with_user fd c.ref) channels h.distinct;
      both = λ gd d' other found.
          let (d, there, now) = find-modify-some fd gd (joined name) clients d' found in
          let before = h.both gd d other there in
          let mine = ap (λ x. contains other x.channels) now in
          elim (Option-cases (find other channels)) [
            | inl absent ↦ ground (
              arith,
              mine,
              before,
              absent,
              find-modify name other (with_user fd c.ref) channels,
              contains-emplace name other name d.channels,
              contains-find-none other channels absent,
              equal_iff name other,
            )
            | inr (ch, at) ↦ ground (
              arith,
              mine,
              before,
              at,
              find-modify name other (with_user fd c.ref) channels,
              contains-emplace name other name d.channels,
              contains-emplace fd gd c.ref ch.users,
            )
          ];
    }

-- `Client::part` and the end of `Channel::del`.
abbrev pub parted : Bytes → Client → Client
parted name c = record c { channels = erase name c.channels }

abbrev pub without_user : ℕ → Channel → Channel
without_user fd ch = record ch { users = erase fd ch.users }

pub parted-Keeps : (name : Bytes) → Keeps (parted name)
parted-Keeps name = record { ref = λ c. refl; connfd = λ c. refl }

pub part-IsLive :
    (fd : ℕ) (name : Bytes) (clients : Map ℕ Client) (channels : Map Bytes Channel)
    → IsLive clients channels
    → IsLive (modify fd (parted name) clients) (modify name (without_user fd) channels)
unfolding has_member
part-IsLive fd name clients channels h =
    let k = parted-Keeps name in
    record {
      connfds = connfds-modify fd (parted name) k clients h.connfds;
      members =
          All-modify (IsChannel clients) (IsChannel (modify fd (parted name) clients)) name
            (without_user fd) channels
            (λ j ch (e, users). (
              e,
              All-erase (HasClient (modify fd (parted name) clients)) fd ch.users
                  (All-map _ _ ch.users (HasClient-modify fd (parted name) k clients) users),
            ))
            (λ j ch p. IsChannel-modify fd (parted name) k clients (j, ch) p) h.members;
      distinct = Distinct-modify name (without_user fd) channels h.distinct;
      both = λ gd d' other found.
          let (d, there, now) = find-modify-some fd gd (parted name) clients d' found in
          let before = h.both gd d other there in
          let mine = ap (λ x. contains other x.channels) now in
          elim (Option-cases (find other channels)) [
            | inl absent ↦ ground (
              arith,
              mine,
              before,
              absent,
              find-modify name other (without_user fd) channels,
              contains-erase name other d.channels,
            )
            | inr (ch, at) ↦ ground (
              arith,
              mine,
              before,
              at,
              find-modify name other (without_user fd) channels,
              contains-erase name other d.channels,
              contains-erase fd gd ch.users,
            )
          ];
    }

-- A new client, under a descriptor that no client has.
HasClient-emplace :
    (fd : ℕ) (c : Client) (clients : Map ℕ Client) (u : ℕ × ℕ)
    → contains fd clients ≡ false
    → HasClient clients u
    → HasClient (emplace fd c clients) u
HasClient-emplace fd c clients u new (d, there, same) = (
  d,
  ground (arith, find-emplace fd u.0 c clients, find-contains-false fd clients new, ==_iff fd u.0),
  same,
)

nobody_new :
    (fd : ℕ) (clients : Map ℕ Client) (users : Map ℕ ℕ)
    → contains fd clients ≡ false
    → All (HasClient clients) users
    → contains fd users ≡ false
unfolding contains
nobody_new fd clients [] new h = refl
nobody_new fd clients ((gd, r) ∷ users) new ((d, there, same), h) = ground (
  arith,
  nobody_new fd clients users new h,
  contains-find-some gd clients {v = d} there,
  ==_iff gd fd,
)

no_member :
    (fd : ℕ) (name : Bytes) (clients : Map ℕ Client) (channels : Map Bytes Channel)
    → contains fd clients ≡ false
    → IsLive clients channels
    → has_member fd (find name channels) ≡ false
unfolding has_member
no_member fd name clients channels new h = elim (Option-cases (find name channels)) [
  | inl absent ↦ rw absent refl
  | inr (ch, at) ↦ rw at (
      nobody_new fd clients ch.users new
        (All-find (IsChannel clients) name channels ch h.members at).1)
]

pub add-IsLive :
    (fd : ℕ) (c : Client) (clients : Map ℕ Client) (channels : Map Bytes Channel)
    → contains fd clients ≡ false
    → c.connfd ≡ fd
    → c.channels ≡ []
    → IsLive clients channels
    → IsLive (emplace fd c clients) channels
unfolding has_member contains
add-IsLive fd c clients channels new mine nowhere h = record {
  connfds =
      λ gd d found. ground (arith, find-emplace fd gd c clients, new, ==_iff fd gd, h.connfds gd d);
  members =
      All-map _ _ channels
        (λ e (name, users).
          (name, All-map _ _ e.1.users (λ u. HasClient-emplace fd c clients u new) users))
        h.members;
  distinct = h.distinct;
  both = λ gd d name found. elim (Bool-cases (fd == gd)) [
    | inl me ↦
        let it : d ≡ c = ground (arith, find-emplace fd gd c clients, me, new, ==_iff fd gd) in
        ap (λ x. contains name x.channels) it
        ∙ ap (contains name) nowhere
        ∙ sym (
            ap (λ n. has_member n (find name channels)) (sym ((==_iff fd gd).0 me))
            ∙ no_member fd name clients channels new h)
    | inr other ↦ h.both gd d name (ground (arith, find-emplace fd gd c clients, other, new))
  ];
}

-- A client that is in no channel goes.
HasClient-erase :
    (fd : ℕ) (clients : Map ℕ Client) (users : Map ℕ ℕ)
    → contains fd users ≡ false
    → All (HasClient clients) users
    → All (HasClient (erase fd clients)) users
unfolding contains
HasClient-erase fd clients [] out h = tt
HasClient-erase fd clients ((gd, r) ∷ users) out ((d, there, same), h) = (
  (d, ground (arith, find-erase fd gd clients, ==_iff fd gd, ==_iff gd fd), same),
  HasClient-erase fd clients users (ground arith) h,
)

pub erase-IsLive :
    (fd : ℕ) (c : Client) (clients : Map ℕ Client) (channels : Map Bytes Channel)
    → find fd clients ≡ some c
    → c.channels ≡ []
    → IsLive clients channels
    → IsLive (erase fd clients) channels
unfolding has_member contains
erase-IsLive fd c clients channels here nowhere h = record {
  connfds = λ gd d found. h.connfds gd d (ground (arith, find-erase fd gd clients));
  members = All-found (IsChannel (erase fd clients)) channels h.distinct λ name ch at.
      let (named, users) = All-find (IsChannel clients) name channels ch h.members at in
      let outside : contains fd ch.users ≡ false =
        sym (ap (has_member fd) at) ∙ sym (h.both fd c name here) ∙ ap (contains name) nowhere in
      (named, HasClient-erase fd clients ch.users outside users);
  distinct = h.distinct;
  both = λ gd d name found. h.both gd d name (ground (arith, find-erase fd gd clients));
}
