-- ===== src/Throughput.antt =====
-- The server that measures throughput, Lab/6/How-Fast-Can-You-Deliver?/server.cpp. What the kernel does is
-- told by events: a connection with its descriptor and the size of its segments, and the bytes
-- that wait at a descriptor, none where the connection is closed or fails. A time is a number of microseconds;
-- the texts of a time (`%.6Lf`), of the time between two and of a rate are parameters, and all texts fit their
-- buffers. What is sent is
-- taken to arrive.
pub mod Tables
pub mod Holds
pub mod Counted
pub mod Full
pub mod Measured
mod Tests
use nycu_intro_np.Prelude.{
  ℕ, ◌+◌, ◌-◌, ◌*◌, ◌%◌, ◌^◌, Bool, true, false, not, ◌&&◌, ◌||◌, ◌==◌, ltb, leb, List, [], ◌∷◌,
  ◌++◌, Option, none, some, Bytes, codes, equal, decimal, is_empty, if◌then◌else◌, length, take,
  Map, find, emplace, erase, modify, contains, nat_eq, c_str,
}

abbrev pub max_line : ℕ
max_line = 1024

abbrev pub max_data_line : ℕ
max_data_line = 65536

abbrev pub header_size : ℕ
header_size = 66

pub record Server : Type 0 where
  pub serverfd : ℕ
  pub sinkfd : ℕ
  pub mapping : Map ℕ ℕ
  pub cnt : Map ℕ ℕ
  pub mss : Map ℕ ℕ
  pub recv_size : ℕ
  pub start_time : ℕ
  pub current_time : ℕ
  pub sent : List (ℕ × Bytes)

-- The state before the loop of `main`, for the time at which the program started.
unfoldable pub started : ℕ → ℕ → ℕ → Server
started serverfd sinkfd time = record {
  serverfd = serverfd;
  sinkfd = sinkfd;
  mapping = [];
  cnt = [];
  mss = [];
  recv_size = 0;
  start_time = time;
  current_time = 0;
  sent = [];
}

-- A function returns, ends the program, or runs into undefined behaviour.
pub data Outcome {ℓ} (A : Type ℓ) : Type ℓ where
  returns : A → Outcome A
  exits : Outcome A
  fault : Outcome A

infixl 5 ◌>>=◌
abbrev pub ◌>>=◌ {ℓ κ} : {A : Type ℓ} {B : Type κ} → Outcome A → (A → Outcome B) → Outcome B
returns a >>= f = f a
exits >>= f = exits
fault >>= f = fault

-- `m[k]` of a map of ints: an entry of 0 is made where there is none. An int that counts is kept as its 32
-- bits.
abbrev pub value_or_zero : Option ℕ → ℕ
value_or_zero none = 0
value_or_zero (some n) = n

unfoldable pub at : ℕ → Map ℕ ℕ → ℕ
at k m = value_or_zero (find k m)

unfoldable pub change : ℕ → (ℕ → ℕ) → Map ℕ ℕ → Map ℕ ℕ
change k f m = modify k f (emplace k 0 m)

abbrev pub increase : ℕ → ℕ
increase n = (n + 1) % 2 ^ 32

abbrev pub decrease : ℕ → ℕ
decrease n = (n + (2 ^ 32 - 1)) % 2 ^ 32

-- `%d`.
unfoldable pub int_text : ℕ → Bytes
int_text n = if ltb n (2 ^ 31) then decimal n else codes "-" ++ decimal (2 ^ 32 - n)

-- `handle_new_client`, with what accept and getsockopt gave.
unfoldable pub handle_new_client : ℕ → ℕ → ℕ → Server → Server
handle_new_client listenfd connfd mss_size s = record s {
  cnt = change listenfd increase s.cnt;
  mapping = emplace connfd listenfd s.mapping;
  mss = emplace connfd mss_size s.mss;
}

-- `handle_del_client`.
unfoldable pub handle_del_client : ℕ → Server → Outcome Server
handle_del_client connfd s = elim (find connfd s.mapping) [
  | none ↦ fault
  | some listenfd ↦
      returns (record s { cnt = change listenfd decrease s.cnt; mapping = erase connfd s.mapping })
]

-- The tokens that the calls of `strtok_r` cut at newlines; `cur` is the token so far. What the text ends in
-- without a newline is a token too where a NUL stands behind it.
unfoldable pub cut_lines : Bool → Bytes → Bytes → List Bytes
cut_lines nul cur [] = if is_empty cur || not nul then [] else cur ∷ []
cut_lines nul cur (c ∷ cs) =
    let next = cut_lines nul [] cs in
    let more = cut_lines nul (cur ++ c ∷ []) cs in
    if c == b'\n' then if is_empty cur then next else cur ∷ next else more

-- What a `read` of a line leaves in the buffer.
unfoldable pub line_buffer : Bytes → Bytes
line_buffer got = take max_line got

unfoldable pub has_nul : Bytes → Bool
has_nul [] = false
has_nul (c ∷ cs) = c == 0 || has_nul cs

-- The bytes that `read` is asked for: a negative int is a large size_t.
abbrev pub sink_size : ℕ → ℕ
sink_size m = if leb header_size m then m - header_size else 2 ^ 64 - (header_size - m)

abbrev pub at_most : ℕ → ℕ → ℕ
at_most size n = if ltb size n then size else n

-- What is received is counted in a signed number of 64 bits.
unfoldable pub received : ℕ → Server → Outcome (Bool × Server)
received n s =
    let total = s.recv_size + (header_size + n) in
    if n == 0
    then returns (false, s)
    else if ltb max_data_line n || leb (2 ^ 63) total
    then fault
    else returns (true, record s { recv_size = total })

-- `handle_sink`; `true` where the handler returns 0.
unfoldable pub handle_sink : ℕ → Bytes → Server → Outcome (Bool × Server)
handle_sink connfd got s =
    received (at_most (sink_size (at connfd s.mss)) (length got))
      (record s { mss = emplace connfd 0 s.mss })

-- What `epoll_wait` tells.
pub data Event : Type 0 where
  accepts : (listenfd connfd mss_size : ℕ) → Event
  readable : (connfd : ℕ) (got : Bytes) → Event

-- The end of a round: the connection is left where its handler fails.
unfoldable pub close_failed : ℕ → Bool × Server → Outcome Server
close_failed connfd (good, s) = if good then returns s else handle_del_client connfd s

module _ (stamp : ℕ → Bytes) (elapsed : ℕ → ℕ → Bytes) (rate : ℕ → ℕ → ℕ → Bytes) where
  unfoldable pub sendstr : ℕ → Bytes → Server → Server
  sendstr fd msg s = record s {
    sent = s.sent ++ (fd, stamp s.current_time ++ (codes " " ++ msg)) ∷ [];
  }

  -- The answer to `/report`: the count, the time since `/reset` and the rate.
  unfoldable pub report_text : Server → Bytes
  report_text s =
      codes "REPORT "
      ++ (decimal s.recv_size
          ++ (codes " "
              ++ (elapsed s.start_time s.current_time
                  ++ (codes "s "
                      ++ (rate s.recv_size s.start_time s.current_time ++ codes "Mbps\n")))))

  -- One token of `handle_server`.
  unfoldable pub command : ℕ → Bytes → Server → Outcome Server
  command connfd token s =
      if equal token (codes "/reset")
      then returns
          (record (sendstr connfd (codes "RESET " ++ (decimal s.recv_size ++ codes "\n")) s) {
            recv_size = 0;
            start_time = s.current_time;
          })
      else if equal token (codes "/ping")
      then returns (sendstr connfd (codes "PONG\n") s)
      else if equal token (codes "/report")
      then returns (sendstr connfd (report_text s) s)
      else if equal token (codes "/clients")
      then returns (
          sendstr connfd (codes "CLIENTS " ++ (int_text (at s.sinkfd s.cnt) ++ codes "\n"))
            (record s { cnt = emplace s.sinkfd 0 s.cnt }))
      else if equal token (codes "/exit")
      then exits
      else returns s

  unfoldable pub commands : ℕ → List Bytes → Server → Outcome Server
  commands connfd [] s = returns s
  commands connfd (token ∷ tokens) s = command connfd token s >>= commands connfd tokens

  -- `handle_server`. A buffer that is full may have no NUL: past its last newline it is read beyond its end.
  unfoldable pub handle_server : ℕ → Bytes → Server → Outcome (Bool × Server)
  handle_server connfd got s =
      let buf = line_buffer got in
      if is_empty got
      then returns (false, s)
      else if leb max_line (length got) && not (has_nul buf)
      then (commands connfd (cut_lines false [] buf) s >>= λ t. fault)
      else (commands connfd (cut_lines true [] (c_str buf)) s >>= λ t. returns (true, t))

  -- What is read from a connection goes to the handler of the socket that accepted it.
  unfoldable pub serve : ℕ → ℕ → Bytes → Server → Outcome Server
  serve listenfd connfd got s =
      (if listenfd == s.serverfd then handle_server connfd got s else handle_sink connfd got s)
      >>= close_failed connfd

  -- A round of the loop over the events.
  unfoldable pub step : Event → Server → Outcome Server
  step (accepts listenfd connfd mss_size) s = returns (handle_new_client listenfd connfd mss_size s)
  step (readable connfd got) s = elim (find connfd s.mapping) [
    | none ↦ fault
    | some listenfd ↦ serve listenfd connfd got s
  ]

  unfoldable pub steps : List Event → Server → Outcome Server
  steps [] s = returns s
  steps (e ∷ es) s = step e s >>= steps es

  -- The loop of `main`: what each call of `epoll_wait` tells, and the time after it.
  unfoldable pub run : List (ℕ × List Event) → Server → Outcome Server
  run [] s = returns s
  run ((time, es) ∷ more) s = steps es (record s { current_time = time }) >>= run more
