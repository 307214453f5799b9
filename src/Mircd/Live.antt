-- ===== src/Mircd/Live.antt =====
-- The tables of clients and channels of mircd in step with each other, and the writes to one of them
-- that keep them so.
pub mod Members
pub mod Names
pub mod Handlers
pub mod Joins
pub mod Parts
pub mod Calls
pub mod Runs
use nycu_intro_np.Prelude.{
  ℕ, ◌≡◌, refl, sym, ap, ◌∙◌, Bool, true, false, List, [], ◌∷◌, Option, none, some, Bytes, Map,
  find, contains, emplace, erase, modify, nat_eq, bytes_eq, Eq, All, arith, Bool-cases, inl, inr,
  ◌⊎◌, if◌then◌else◌, find-modify, find-modify-some, All-find, All-emplace, All-modify,
  contains-emplace, contains-erase, ◌==◌, equal, equal_iff, subst, Distinct, Distinct-emplace,
  Distinct-modify, All-erase, All-found, find-erase, find-some, ==_iff, find-emplace,
  find-contains-false, contains-find-none, contains-find-some, Option-cases,
}
use nycu_intro_np.Mircd.State.{Client, Channel, World, deref}

-- The reference that a channel keeps of a member is that of the client under the same descriptor.
abbrev pub HasClient : Map ℕ Client → ℕ × ℕ → Type 0
HasClient clients u = (c : Client) × (find u.0 clients ≡ some c) × (c.ref ≡ u.1)

abbrev pub IsChannel : Map ℕ Client → Bytes × Channel → Type 0
IsChannel clients e = (e.1.name ≡ e.0) × All (HasClient clients) e.1.users

unfoldable pub has_member : ℕ → Option Channel → Bool
has_member fd none = false
has_member fd (some ch) = contains fd ch.users

-- Clients stand under their descriptors, channels under their names; the members of a channel are
-- clients; a client has a channel exactly if the channel has the client.
pub record IsLive (clients : Map ℕ Client) (channels : Map Bytes Channel) : Type 0 where
  pub connfds : (fd : ℕ) (c : Client) → find fd clients ≡ some c → c.connfd ≡ fd
  pub members : All (IsChannel clients) channels
  pub distinct : Distinct channels
  pub both :
      (fd : ℕ) (c : Client) (name : Bytes)
      → find fd clients ≡ some c
      → contains name c.channels ≡ has_member fd (find name channels)

abbrev pub IsLiveWorld : World → Type 0
IsLiveWorld w = IsLive w.clients w.channels

pub All-map {ℓ κ} :
    {A : Type ℓ} (P Q : A → Type κ) (xs : List A) → ((x : A) → P x → Q x) → All P xs → All Q xs
All-map P Q [] f h = tt
All-map P Q (x ∷ xs) f h = (f x h.0, All-map P Q xs f h.1)

-- A write to a client that leaves its descriptor and its address alone.
pub record Keeps (f : Client → Client) : Type 0 where
  pub ref : (c : Client) → (f c).ref ≡ c.ref
  pub connfd : (c : Client) → (f c).connfd ≡ c.connfd

module _ (fd : ℕ) (f : Client → Client) (k : Keeps f) (clients : Map ℕ Client) where
  pub HasClient-modify : (u : ℕ × ℕ) → HasClient clients u → HasClient (modify fd f clients) u
  HasClient-modify u (c, here, same) = elim (Bool-cases (fd == u.0)) [
    | inl mine ↦ (f c, ground (arith, find-modify fd u.0 f clients), k.ref c ∙ same)
    | inr other ↦ (c, ground (arith, find-modify fd u.0 f clients), same)
  ]

  pub IsChannel-modify :
      (e : Bytes × Channel) → IsChannel clients e → IsChannel (modify fd f clients) e
  IsChannel-modify e (name, users) = (name, All-map _ _ e.1.users HasClient-modify users)

  pub connfds-modify :
      ((gd : ℕ) (c : Client) → find gd clients ≡ some c → c.connfd ≡ gd)
      → (gd : ℕ) (c : Client) → find gd (modify fd f clients) ≡ some c
      → c.connfd ≡ gd
  connfds-modify h gd c found =
      let (d, there, now) = find-modify-some fd gd f clients c found in
      let before = h gd d there in
      let same = k.connfd d in
      elim (Bool-cases (fd == gd)) [
        | inl mine ↦ let e : c ≡ f d = ground arith in ap (λ x. x.connfd) e ∙ same ∙ before
        | inr other ↦ let e : c ≡ d = ground arith in ap (λ x. x.connfd) e ∙ before
      ]

  -- A write to a client that leaves its channels alone too.
  pub modify-IsLive :
      ((c : Client) → (f c).channels ≡ c.channels)
      → (channels : Map Bytes Channel) → IsLive clients channels
      → IsLive (modify fd f clients) channels
  modify-IsLive same channels h = record {
    connfds = connfds-modify h.connfds;
    members = All-map _ _ channels IsChannel-modify h.members;
    distinct = h.distinct;
    both = λ gd c name found.
        let (d, there, now) = find-modify-some fd gd f clients c found in
        let before = h.both gd d name there in
        let kept = ap (contains name) (same d) in
        elim (Bool-cases (fd == gd)) [
          | inl mine ↦
              let e : c ≡ f d = ground arith in ap (λ x. contains name x.channels) e ∙ kept ∙ before
          | inr other ↦
              let e : c ≡ d = ground arith in ap (λ x. contains name x.channels) e ∙ before
        ];
  }

-- A channel that nobody is in yet, under a name that no channel has.
pub emplace-IsLive :
    (name : Bytes) (ch : Channel) (clients : Map ℕ Client) (channels : Map Bytes Channel)
    → ch.name ≡ name
    → ch.users ≡ []
    → contains name channels ≡ false
    → IsLive clients channels
    → IsLive clients (emplace name ch channels)
unfolding has_member contains
emplace-IsLive name ch clients channels named nobody new h = record {
  connfds = h.connfds;
  members =
      All-emplace (IsChannel clients) name ch channels
        (named, subst (All (HasClient clients)) (sym nobody) tt) h.members;
  distinct = Distinct-emplace name ch channels h.distinct;
  both = λ fd c other found.
      h.both fd c other found
      ∙ ground (
        arith,
        find-emplace name other ch channels,
        find-contains-false name channels new,
        equal_iff name other,
        ap (contains fd) nobody,
      );
}

-- A new topic.
pub topic-IsLive :
    (name : Bytes) (f : Channel → Channel) (clients : Map ℕ Client) (channels : Map Bytes Channel)
    → ((ch : Channel) → (f ch).name ≡ ch.name)
    → ((ch : Channel) → (f ch).users ≡ ch.users)
    → IsLive clients channels
    → IsLive clients (modify name f channels)
unfolding has_member
topic-IsLive name f clients channels named kept h = record {
  connfds = h.connfds;
  members =
      All-modify (IsChannel clients) (IsChannel clients) name f channels
        (λ j ch (e, users). (named ch ∙ e, subst (All (HasClient clients)) (sym (kept ch)) users))
        (λ j ch p. p) h.members;
  distinct = Distinct-modify name f channels h.distinct;
  both = λ fd c other found. h.both fd c other found ∙ elim (Option-cases (find other channels)) [
    | inl none_there ↦ ground (arith, find-modify name other f channels)
    | inr (ch, there) ↦
        ground (arith, find-modify name other f channels, ap (contains fd) (kept ch))
  ];
}
