-- ===== src/LinkedList/Links.antt =====
-- What a list in the memory of lib/list.c stands for: the addresses and contents of its nodes.
use daliserver.Common.{
  ℕ, ◌≡◌, ◌≢◌, refl, ap, Option, none, some, List, [], ◌∷◌, ◌++◌, arith, length,
}
use daliserver.LinkedList.{Node, Handle, Heap, write, set_prev, set_next}

abbrev pub Cells : Type 0
Cells = List (ℕ × ℕ)

abbrev pub contents : Cells → List ℕ
contents [] = []
contents ((a, c) ∷ xs) = c ∷ contents xs

-- The first node, or what comes after the nodes.
abbrev pub front : Cells → Option ℕ → Option ℕ
front [] after = after
front ((a, c) ∷ xs) after = some a

-- The last node, or what comes before the nodes.
abbrev pub back : Option ℕ → Cells → Option ℕ
back before [] = before
back before ((a, c) ∷ xs) = back (some a) xs

abbrev pub IsAway : ℕ → Cells → Type 0
IsAway p [] = Unit
IsAway p ((a, c) ∷ xs) = (p ≢ a) × IsAway p xs

abbrev pub AreApart : Cells → Type 0
AreApart [] = Unit
AreApart ((a, c) ∷ xs) = IsAway a xs × AreApart xs

abbrev pub node : Option ℕ → Option ℕ → ℕ → Node
node p n c = record { prev = p; next = n; content = c }

-- The nodes are linked both ways, from `before` to `after`.
abbrev pub Links : Heap → Option ℕ → Cells → Option ℕ → Type 0
Links h before [] after = Unit
Links h before ((a, c) ∷ xs) after =
    (h a ≡ some (node before (front xs after) c)) × Links h (some a) xs after

pub record IsList (l : Handle) (h : Heap) (xs : Cells) : Type 0 where
  pub head : l.head ≡ front xs none
  pub tail : l.tail ≡ back none xs
  pub count : l.length ≡ length xs
  pub links : Links h none xs none
  pub apart : AreApart xs

-- Nothing but the nodes of `xs` changes.
abbrev pub SameOutside : Cells → Heap → Heap → Type 0
SameOutside xs h h' = (p : ℕ) → IsAway p xs → h' p ≡ h p

module _ (h : Heap) (p : ℕ) where
  pub write-same : (c : Option Node) → write h p c p ≡ c
  unfolding write
  write-same c = ground arith

  pub write-other : (c : Option Node) (q : ℕ) → q ≢ p → write h p c q ≡ h q
  unfolding write
  write-other c q ne = ground arith

  pub set_next-some :
      (n : Node) (q : Option ℕ)
      → h p ≡ some n
      → set_next (some p) q h ≡ some (write h p (some (record n { next = q })))
  unfolding set_next
  set_next-some n q e = rw e refl

  pub set_prev-some :
      (n : Node) (q : Option ℕ)
      → h p ≡ some n
      → set_prev (some p) q h ≡ some (write h p (some (record n { prev = q })))
  unfolding set_prev
  set_prev-some n q e = rw e refl

pub Links-write :
    (h : Heap) (before : Option ℕ) (xs : Cells) (after : Option ℕ) (p : ℕ) (c : Option Node)
    → IsAway p xs
    → Links h before xs after
    → Links (write h p c) before xs after
unfolding write
Links-write h before [] after p c out s = tt
Links-write h before ((a, d) ∷ xs) after p c (out, outs) (e, s) =
    (ground arith, Links-write h (some a) xs after p c outs s)

pub Links-append :
    (h : Heap) (before : Option ℕ) (xs ys : Cells) (after : Option ℕ)
    → Links h before xs (front ys after)
    → Links h (back before xs) ys after
    → Links h before (xs ++ ys) after
Links-append h before [] ys after s t = t
Links-append h before ((a, c) ∷ []) ys after (e, s) t = (e, t)
Links-append h before ((a, c) ∷ (a', c') ∷ xs) ys after (e, s) t =
    (e, Links-append h (some a) ((a', c') ∷ xs) ys after s t)

pub Links-split :
    (h : Heap) (before : Option ℕ) (xs ys : Cells) (after : Option ℕ)
    → Links h before (xs ++ ys) after
    → Links h before xs (front ys after) × Links h (back before xs) ys after
Links-split h before [] ys after t = (tt, t)
Links-split h before ((a, c) ∷ []) ys after (e, t) = ((e, tt), t)
Links-split h before ((a, c) ∷ (a', c') ∷ xs) ys after (e, s) =
    let (s', t) = Links-split h (some a) ((a', c') ∷ xs) ys after s in ((e, s'), t)

pub Links-first :
    (h : Heap) (before before' : Option ℕ) (a c : ℕ) (xs : Cells) (after : Option ℕ)
    → IsAway a xs
    → Links h before ((a, c) ∷ xs) after
    → Links (write h a (some (node before' (front xs after) c))) before' ((a, c) ∷ xs) after
unfolding write
Links-first h before before' a c xs after out (e, s) =
    (ground arith, Links-write h (some a) xs after a (some (node before' (front xs after) c)) out s)

-- The last node, and that the list is linked to another one after it is written.
pub record Last (h : Heap) (before : Option ℕ) (xs : Cells) (after after' last : Option ℕ)
    : Type 0 where
  pub address : ℕ
  pub place : last ≡ some address
  pub value : Node
  pub holds : h address ≡ some value
  pub links : Links (write h address (some (record value { next = after' }))) before xs after'
  pub inside : (p : ℕ) → IsAway p xs → p ≢ address

pub Links-Last :
    (h : Heap) (before : Option ℕ) (a c : ℕ) (xs : Cells) (after after' : Option ℕ)
    → AreApart ((a, c) ∷ xs)
    → Links h before ((a, c) ∷ xs) after
    → Last h before ((a, c) ∷ xs) after after' (back (some a) xs)
unfolding write
Links-Last h before a c [] after after' apart (e, s) = record {
  address = a;
  place = refl;
  value = node before after c;
  holds = e;
  links = (ground arith, tt);
  inside = λ p out. out.0;
}
Links-Last h before a c ((a', c') ∷ xs) after after' (out, apart) (e, s) =
    let next = Links-Last h (some a) a' c' xs after after' apart s in
    record {
      address = next.address;
      place = next.place;
      value = next.value;
      holds = next.holds;
      links = (ground (arith, next.inside a out), next.links);
      inside = λ p away. next.inside p away.1;
    }

pub away-of_none :
    (h : Heap) (before : Option ℕ) (xs : Cells) (after : Option ℕ) (p : ℕ)
    → h p ≡ none
    → Links h before xs after
    → IsAway p xs
away-of_none h before [] after p e s = tt
away-of_none h before ((a, c) ∷ xs) after p e (f, s) =
    (λ q. cc (ap h q), away-of_none h (some a) xs after p e s)
