-- ===== src/Net/Listed.antt =====
-- Which connections are in the list of lib/net.c, and what removing, waiting and accepting do to
-- that. The requests of lib/usb.c name connections by address.
use daliserver.Common.{
  ℕ, ◌≡◌, ◌≢◌, refl, ◌∙◌, Bool, true, Option, none, some, List, [], ◌∷◌, ◌++◌, arith, ◌==◌, is_some,
  Bool-cases, inl, inr, map,
}
use daliserver.Usb.Requests.{Request, forget}
use daliserver.Net.{Connection, list_find, list_remove, set_waiting}

abbrev pub IsListed : List Connection → ℕ → Type 0
IsListed l p = is_some (list_find p l) ≡ true

abbrev pub ArgIsListed : List Connection → Option ℕ → Type 0
ArgIsListed l none = Unit
ArgIsListed l (some p) = IsListed l p

-- Every connection that a request names is listed.
abbrev pub AllListed : List Connection → List Request → Type 0
AllListed l [] = Unit
AllListed l ((frame, arg) ∷ rest) = ArgIsListed l arg × AllListed l rest

pub find-set_waiting :
    (q p : ℕ) (w : Bool) (l : List Connection)
    → is_some (list_find q (set_waiting p w l)) ≡ is_some (list_find q l)
unfolding list_find set_waiting
find-set_waiting q p w [] = refl
find-set_waiting q p w (c ∷ l) = ground (arith, find-set_waiting q p w l)

find-list_remove :
    (q p : ℕ) (l : List Connection)
    → q ≢ p
    → is_some (list_find q (list_remove p l)) ≡ is_some (list_find q l)
unfolding list_find list_remove
find-list_remove q p [] h = refl
find-list_remove q p (c ∷ l) h = ground (arith, find-list_remove q p l h)

find-append : (q : ℕ) (l r : List Connection) → IsListed l q → IsListed (l ++ r) q
unfolding list_find
find-append q [] r h = cc
find-append q (c ∷ l) r h = ground (arith, find-append q l r)

mono-AllListed :
    (l l' : List Connection)
    → ((q : ℕ) → IsListed l q → IsListed l' q)
    → (r : List Request) → AllListed l r
    → AllListed l' r
mono-AllListed l l' k [] h = tt
mono-AllListed l l' k ((frame, none) ∷ r) (h, t) = (tt, mono-AllListed l l' k r t)
mono-AllListed l l' k ((frame, some q) ∷ r) (h, t) = (k q h, mono-AllListed l l' k r t)

pub waiting-AllListed :
    (p : ℕ) (w : Bool) (l : List Connection) (r : List Request)
    → AllListed l r
    → AllListed (set_waiting p w l) r
waiting-AllListed p w l r =
    mono-AllListed l (set_waiting p w l) (λ q h. find-set_waiting q p w l ∙ h) r

pub append-AllListed :
    (l more : List Connection) (r : List Request) → AllListed l r → AllListed (l ++ more) r
append-AllListed l more r = mono-AllListed l (l ++ more) (λ q h. find-append q l more h) r

pub forget-AllListed :
    (p : ℕ) (l : List Connection) (r : List Request)
    → AllListed l r
    → AllListed (list_remove p l) (map (forget p) r)
forget-AllListed p l [] h = tt
forget-AllListed p l ((frame, none) ∷ r) (h, t) = (tt, forget-AllListed p l r t)
forget-AllListed p l ((frame, some q) ∷ r) (h, t) = elim (Bool-cases (q == p)) [
  | inl e ↦ rw e (tt, forget-AllListed p l r t)
  | inr e ↦ rw e (find-list_remove q p l (ground arith) ∙ h, forget-AllListed p l r t)
]

pub split-AllListed :
    (l : List Connection) (r r' : List Request)
    → AllListed l (r ++ r')
    → AllListed l r × AllListed l r'
split-AllListed l [] r' h = (tt, h)
split-AllListed l ((frame, arg) ∷ r) r' (h, t) =
    let (a, b) = split-AllListed l r r' t in ((h, a), b)

pub join-AllListed :
    (l : List Connection) (r r' : List Request)
    → AllListed l r
    → AllListed l r'
    → AllListed l (r ++ r')
join-AllListed l [] r' h k = k
join-AllListed l ((frame, arg) ∷ r) r' (h, t) k = (h, join-AllListed l r r' t k)
