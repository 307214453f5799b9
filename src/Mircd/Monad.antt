-- ===== src/Mircd/Monad.antt =====
-- A member function of the daemon: it changes the world, and returns, throws or runs into undefined
-- behaviour. What was done before a throw stays done.
use nycu_intro_np.Prelude.{
  ◌≡◌, ℕ, Bool, true, false, List, [], ◌∷◌, ◌++◌, Option, none, some, Bytes, get_elem?, find,
  modify, nat_eq,
}
use nycu_intro_np.Mircd.Wire.{CmdMsg, render_msgs}
use nycu_intro_np.Mircd.State.{Client, World, deref}

pub data Outcome {ℓ} (A : Type ℓ) : Type ℓ where
  ok : A → World → Outcome A
  -- `throw CMD_MSG{…}`
  thrown : CmdMsg → World → Outcome A
  -- `throw EVENT::DISCONNECT`
  disconnect : World → Outcome A
  -- undefined behaviour, such as an access through a dangling reference
  fault : Outcome A

abbrev pub M {ℓ} : Type ℓ → Type ℓ
M A = World → Outcome A

infixl 5 ◌>>=◌ ◌>>◌
abbrev pub ◌>>=◌ {ℓ κ} : {A : Type ℓ} {B : Type κ} → M A → (A → M B) → M B
◌>>=◌ m f w = elim (m w) [
  | ok a w' ↦ f a w'
  | thrown e w' ↦ thrown e w'
  | disconnect w' ↦ disconnect w'
  | fault ↦ fault
]

abbrev pub ◌>>◌ {ℓ κ} : {A : Type ℓ} {B : Type κ} → M A → M B → M B
m >> k = m >>= λ _. k

abbrev pub return {ℓ} : {A : Type ℓ} → A → M A
return a w = ok a w

-- What follows a step that returned.
pub bind-ok {ℓ κ} :
    {A : Type ℓ} {B : Type κ} (m : M A) (f : A → M B) (w w' : World) (a : A)
    → m w ≡ ok a w'
    → (m >>= f) w ≡ f a w'
bind-ok m f w w' a e = rw (e, ◌>>=◌)

abbrev pub throw {ℓ} : {A : Type ℓ} → CmdMsg → M A
throw e w = thrown e w

abbrev pub undefined {ℓ} : {A : Type ℓ} → M A
undefined w = fault

abbrev pub get_world : M World
get_world w = ok w w

abbrev pub from_option {ℓ} : {A : Type ℓ} → Option A → M A
from_option none = undefined
from_option (some a) = return a

abbrev pub when : Bool → M (Unit {0}) → M (Unit {0})
when true m = m
when false m = return tt

-- `argv[i]`.
unfoldable pub arg : List Bytes → ℕ → M Bytes
arg argv i = from_option (get_elem? argv i)

-- `sendstr`: the socket takes all of `buf`.
unfoldable pub sendstr : ℕ → Bytes → M (Unit {0})
sendstr fd buf w = ok tt (record w { sent = w.sent ++ (fd, buf) ∷ [] })

unfoldable pub sendcmds : ℕ → List CmdMsg → Bytes → M (Unit {0})
unfolding sendstr
sendcmds fd cmds nick = sendstr fd (render_msgs nick cmds)

unfoldable pub sendcmd : ℕ → CmdMsg → Bytes → M (Unit {0})
unfolding sendcmds
sendcmd fd cmd nick = sendcmds fd (cmd ∷ []) nick

-- `for (fd : users) sendcmd(fd, cmd, nick)`.
unfoldable pub broadcast : List ℕ → CmdMsg → Bytes → M (Unit {0})
unfolding sendcmd
broadcast [] cmd nick = return tt
broadcast (fd ∷ fds) cmd nick = sendcmd fd cmd nick >> broadcast fds cmd nick

-- `Database::getuser(int)`: the end iterator is not to be read.
unfoldable pub getuser : ℕ → M Client
getuser fd w = from_option (find fd w.clients) w

-- A write to the client behind a `Client&` of the table.
unfoldable pub set_user : ℕ → (Client → Client) → M (Unit {0})
set_user fd f w = ok tt (record w { clients = modify fd f w.clients })

-- A read through a `Client&` that a channel keeps.
unfoldable pub load : ℕ → M Client
load r w = from_option (deref r w.clients) w
