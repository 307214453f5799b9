-- ===== src/Mircd/Dispatch/Rows.antt =====
-- The rows of USERS against the buffer that they are written to.
use nycu_intro_np.Prelude.{
  ℕ, ◌+◌, ◌-◌, ◌≤◌, ◌≡◌, List, ◌∷◌, ◌++◌, Bytes, codes, length, length-append, length-replicate,
  replicate, arith, ltb, false, max,
}
use nycu_intro_np.Mircd.State.{World}
use nycu_intro_np.Mircd.Monad.{fault}
use nycu_intro_np.Mircd.Dispatch.{pad_right, users_row, row_size, append_row, users, max_name}

length-pad_right : (n : ℕ) (s : Bytes) → length (pad_right n s) ≡ max n (length s)
length-pad_right n s = omega (
  arith,
  length-append s (replicate (n - length s) b' '),
  length-replicate {A = ℕ} (n - length s) b' ',
)

pub length-users_row :
    (mxname : ℕ) (name term host : Bytes)
    → length (users_row mxname name term host)
      ≡ max mxname (length name) + 1 + max 8 (length term) + 1 + max 21 (length host)
unfolding users_row
length-users_row mxname name term host = omega (
  arith,
  length-append (pad_right mxname name) (b' ' ∷ (pad_right 8 term ++ (b' ' ∷ pad_right 21 host))),
  length-append (pad_right 8 term) (b' ' ∷ pad_right 21 host),
  length-pad_right mxname name,
  length-pad_right 8 term,
  length-pad_right 21 host,
)

-- Every row is longer than the buffer by ten bytes or more, the terminating NUL counted.
pub row_size-lt-users_row :
    (mxname : ℕ) (name term host : Bytes)
    → row_size mxname + 10 ≤ length (users_row mxname name term host) + 1
row_size-lt-users_row mxname name term host = omega (arith, length-users_row mxname name term host)

too_long :
    (mxname : ℕ)
    → ltb
        (length (users_row mxname (codes "UserID") (codes "Terminal") (codes "Host")))
        (row_size mxname)
      ≡ false
too_long mxname =
    ground (arith, row_size-lt-users_row mxname (codes "UserID") (codes "Terminal") (codes "Host"))

-- USERS writes past the end of its buffer, whoever asks and whatever clients there are.
pub users_overflows : (fd : ℕ) (argv : List Bytes) (w : World) → users fd argv w ≡ fault
unfolding users append_row
users_overflows fd argv w = rw (too_long (max_name 6 w.clients))
