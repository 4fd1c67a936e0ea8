-- ===== src/Net/Waiting.antt =====
-- `conn->waiting` of lib/net.c, set while a request is on its way and reset by the answer.
use daliserver.Common.{
  ℕ, ◌≡◌, refl, ap, true, false, some, List, [], ◌∷◌, ◌==◌, Bool-cases, inl, inr, some_inj, arith,
}
use daliserver.Net.{Connection, list_find, set_waiting}

pub waiting_twice :
    (p : ℕ) (l : List Connection)
    → set_waiting p false (set_waiting p true l) ≡ set_waiting p false l
unfolding set_waiting
waiting_twice p [] = refl
waiting_twice p (c ∷ l) = elim (Bool-cases (c.address == p)) [
  | inl e ↦ rw e (rw e refl)
  | inr e ↦ rw e (rw e (ap (λ k. c ∷ k) (waiting_twice p l)))
]

pub found-waiting :
    (p : ℕ) (c : Connection) (l : List Connection)
    → list_find p l ≡ some c
    → list_find p (set_waiting p true l) ≡ some (record c { waiting = true })
unfolding list_find set_waiting
found-waiting p c [] e = cc
found-waiting p c (c' ∷ l) e = elim (Bool-cases (c'.address == p)) [
  | inl f ↦ ground (arith, some_inj c' c)
  | inr f ↦ ground (arith, found-waiting p c l)
]
