-- ===== src/Ipc/Wake.antt =====
-- What lib/ipc.c relies on for the two ends of its pair of sockets.
use daliserver.Common.{ℕ, ◌≡◌, Bool, true}

-- The two ends of a socket pair: what is written to one end can be read from the other end, and
-- only from there.
pub record IsPair {K : Type 0} (write : ℕ → K → K) (readable : ℕ → K → Bool) (a b : ℕ)
    : Type 0 where
  pub arrives : (k : K) → readable b (write a k) ≡ true
  pub elsewhere : (k : K) → readable a (write a k) ≡ readable a k
