-- ===== src/Mircd/Server.antt =====
-- Homework/1/mircd/src/server.cpp: the event loop's handlers. `epoll_ctl`, `accept`, `read` and
-- `close` are the environment's; what they return is an argument, and they succeed.
pub mod Dangling
use nycu_intro_np.Prelude.{
  c_str, ℕ, Bool, not, ◌&&◌, ◌||◌, ◌==◌, ltb, List, [], ◌∷◌, ◌++◌, Option, none, some, Bytes,
  is_empty, if◌then◌else◌, length, keep,
}
use nycu_intro_np.Mircd.Wire.{parse}
use nycu_intro_np.Mircd.State.{World}
use nycu_intro_np.Mircd.Monad.{Outcome, ok, thrown, disconnect, fault, sendcmd}
use nycu_intro_np.Mircd.Controller.{client_add, client_del}
use nycu_intro_np.Mircd.Dispatch.{call}

-- The controller's world and the connections that epoll watches.
pub record Server : Type 0 where
  pub world : World
  pub watched : List ℕ

abbrev pub max_line : ℕ
max_line = 1024

-- `handle_new_client`, for a connection that `accept` returned.
unfoldable pub handle_new_client : ℕ → Bytes → Bytes → Server → Server
handle_new_client connfd info host s = record {
  world = client_add connfd info host s.world;
  watched = connfd ∷ s.watched;
}

-- `disconnect`.
unfoldable pub close_client : ℕ → Server → Server
close_client connfd s =
    let (w, found) = client_del connfd s.world in
    if found then record { world = w; watched = keep (λ fd. not (fd == connfd)) s.watched } else s

abbrev is_delim : ℕ → Bool
is_delim c = c == b'\r' || c == b'\n'

abbrev flush_token : Bytes → List Bytes → List Bytes
flush_token cur rest = if is_empty cur then rest else cur ∷ rest

-- `strtok_r(…, "\r\n", …)` over a C string: the runs of other bytes, `cur` being the run so far.
unfoldable pub tokens_from : Bytes → Bytes → List Bytes
tokens_from cur [] = flush_token cur []
tokens_from cur (c ∷ cs) =
    let next = tokens_from [] cs in
    let more = tokens_from (cur ++ c ∷ []) cs in if is_delim c then flush_token cur next else more

unfoldable pub tokens : Bytes → List Bytes
unfolding tokens_from c_str
tokens buf = tokens_from [] (c_str buf)

-- The reply to a refused command is on its way.
abbrev after_reply : Server → Outcome (Unit {0}) → Option Server
after_reply s (ok a w) = some (record s { world = w })
after_reply s _ = none

-- The `catch` clauses. A reply that was thrown goes out with no nick.
unfoldable pub settle : ℕ → Server → Outcome (Unit {0}) → Option Server
settle connfd s (ok a w) = some (record s { world = w })
settle connfd s (thrown e w) = after_reply s (sendcmd connfd e [] w)
settle connfd s (disconnect w) = some (close_client connfd (record s { world = w }))
settle connfd s fault = none

-- One round of the loop of `handle_client_input`; `none` is undefined behaviour.
unfoldable pub handle_token : ℕ → Bytes → Server → Option Server
handle_token connfd token s = settle connfd s (call connfd (parse token) s.world)

unfoldable pub handle_tokens : ℕ → List Bytes → Server → Option Server
handle_tokens connfd [] s = some s
handle_tokens connfd (t ∷ ts) s = elim (handle_token connfd t s) [
  | none ↦ none
  | some s' ↦ handle_tokens connfd ts s'
]

-- `handle_client_input`: `none` read means that `read` returned 0 or less. `strtok_r` stops at a
-- NUL, and a full buffer holds none but those that were read.
unfoldable pub handle_client_input : ℕ → Option Bytes → Server → Option Server
handle_client_input connfd none s = some (close_client connfd s)
handle_client_input connfd (some buf) s =
    if not (ltb (length buf) max_line) && length (c_str buf) == length buf
    then none
    else handle_tokens connfd (tokens buf) s

-- What `epoll_wait` reports, one event at a time.
pub data Event : Type 0 where
  arrives : ℕ → Bytes → Bytes → Event
  readable : ℕ → Option Bytes → Event

-- The body of the loop of `interactive`.
unfoldable pub step : Event → Server → Option Server
step (arrives connfd info host) s = some (handle_new_client connfd info host s)
step (readable connfd input) s = handle_client_input connfd input s

unfoldable pub run : List Event → Server → Option Server
run [] s = some s
run (e ∷ es) s = elim (step e s) [ none ↦ none | some s' ↦ run es s' ]
