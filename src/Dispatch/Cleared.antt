-- ===== src/Dispatch/Cleared.antt =====
-- The table of lib/dispatch.c when a descriptor is removed: what is left of it by any test.
use daliserver.Common.{◌≡◌, Bool, ◌&&◌, arith}
use daliserver.Common.Int.{ℤ}
use daliserver.Common.Counting.{count, count_never, count_twice, but}
use daliserver.Dispatch.{Slot, Dispatch, entries}
use daliserver.Dispatch.Remove.{IsBounded, Without, is_fd}

module _ {F : Type 0} where
  -- A table without the entries of a descriptor, and with all others.
  pub record Cleared (fd : ℤ) (table table' : Dispatch F) : Type 0 where
    pub bounded : IsBounded table'
    pub none_left : count (is_fd fd) (entries table') ≡ 0
    pub others :
        (p : Slot F → Bool)
        → count (but p (is_fd fd)) (entries table') ≡ count (but p (is_fd fd)) (entries table)

  pub Without-Cleared :
      (fd : ℤ) (table table' : Dispatch F) → Without fd table table' → Cleared fd table table'
  Without-Cleared fd table table' w = record {
    bounded = w.bounded;
    none_left = omega (arith, w.exactly (is_fd fd), count_twice (is_fd fd) (entries table));
    others = λ p. omega (
      arith,
      w.exactly (but p (is_fd fd)),
      count_never (λ s. but p (is_fd fd) s && is_fd fd s) (entries table) (λ s. ground arith),
    );
  }
