-- ===== src/Chat/Talk.antt =====
-- Who gets a line of the chat.
use nycu_intro_np.Prelude.{ℕ, ◌+◌, ◌≡◌, ◌≢◌, Bytes, nat_eq, length, length-append, arith}
use nycu_intro_np.Chat.Log.{Sender, user, from_text, log_text}

-- A byte of a line: neither NUL nor newline.
abbrev pub InLine : ℕ → Type 0
InLine c = (c ≢ 0) × (c ≢ b'\n')

pub length-log_text :
    (time : Bytes) (from : Sender) (msg : Bytes)
    → length (log_text time from msg) ≡ length time + length (from_text from) + length msg + 3
unfolding log_text
length-log_text time from msg = simp (length-append) (omega arith)

pub length-from_text : (name : Bytes) → length (from_text (user name)) ≡ length name + 2
unfolding from_text
length-from_text name = simp (length-append) (omega arith)
