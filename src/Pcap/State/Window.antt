-- ===== src/Pcap/State/Window.antt =====
-- `seq_in_window` against its meaning: a window on the circle of sequence numbers.
use aionetiface.Prelude.{ℕ, ◌^◌, ◌<◌, ◌≡◌, ◌↔◌, arith, true}
use aionetiface.Pcap.State.{sub32, add32, seq_in_window}

-- A number is in the window from `s` to `e` exactly when it is `s` plus some offset below the
-- distance from `s` to `e`, both modulo 2 ^ 32. The numbers are below 2 ^ 32.
pub seq_in_window_iff :
    (seq s e : ℕ)
    → seq < 2 ^ 32
    → s < 2 ^ 32
    → e < 2 ^ 32
    → (seq_in_window seq s e ≡ true) ↔ ((k : ℕ) × (k < sub32 e s) × (add32 s k ≡ seq))
unfolding seq_in_window
seq_in_window_iff seq s e hq hs he =
    (λ h. (sub32 seq s, ground arith, omega arith), λ (k, below, at). ground arith)

-- The window that `acks_new` uses when one number is outstanding holds only that number.
pub window_of_one :
    (ack una : ℕ)
    → ack < 2 ^ 32
    → una < 2 ^ 32
    → seq_in_window ack (add32 una 1) (add32 (add32 una 1) 1) ≡ true
    → ack ≡ add32 una 1
unfolding seq_in_window
window_of_one ack una ha hu h = ground arith
