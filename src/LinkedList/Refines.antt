-- ===== src/LinkedList/Refines.antt =====
-- The lists that the models of lib/net.c and lib/usb.c have as values are what the lists of
-- lib/list.c stand for. A content is the address of the client's value.
use mathlib.Core.Option
use mathlib.Core.Path.{subst}
use mathlib.Core.List.{map-append}
use daliserver.Common.{
  ℕ, ◌≡◌, refl, sym, ap, ◌∙◌, true, false, none, some, List, [], ◌∷◌, ◌++◌, map, arith, ◌==◌,
  is_some, Bool-cases, inl, inr,
}
use daliserver.LinkedList.{
  Handle, Heap, list_enqueue, list_dequeue, list_remove, list_find, list_next,
}
use daliserver.LinkedList.Links.{Cells, contents, IsList}
use daliserver.LinkedList.Ends.{enqueue-append, dequeue-rest}
use daliserver.LinkedList.Remove.{first_match, find-first, remove-rest}
use daliserver.Net.{Connection}
use daliserver.Net as Net
use daliserver.Usb as Usb
use daliserver.Usb.{UsbDaliTransaction}

contents-append : (xs ys : Cells) → contents (xs ++ ys) ≡ contents xs ++ contents ys
contents-append [] ys = refl
contents-append ((a, c) ∷ xs) ys = ap (λ l. c ∷ l) (contents-append xs ys)

-- The nodes before and behind the first node with a content.
record Split (v : ℕ) (xs : Cells) (conns : List Connection) : Type 0 where
  place : ℕ
  before : Cells
  after : Cells
  found : first_match (λ c. c == v) xs ≡ some place
  parts : xs ≡ before ++ (place, v) ∷ after
  rest : contents (before ++ after) ≡ map (λ (c : Connection). c.address) (Net.list_remove v conns)

cons_inj : (x y : ℕ) (xs ys : List ℕ) → x ∷ xs ≡ y ∷ ys → (x ≡ y) × (xs ≡ ys)
cons_inj x y xs ys e = (ap first e, ap behind e)
  where
    first : List ℕ → ℕ
    first [] = x
    first (z ∷ zs) = z

    behind : List ℕ → List ℕ
    behind [] = []
    behind (z ∷ zs) = zs

abbrev addresses : List Connection → List ℕ
addresses = map (λ (c : Connection). c.address)

Split-found :
    (v : ℕ) (xs : Cells) (conns : List Connection)
    → contents xs ≡ addresses conns
    → is_some (Net.list_find v conns) ≡ true
    → Split v xs conns
unfolding Net.list_find Net.list_remove
Split-found v [] [] e f = cc
Split-found v [] (k ∷ conns) e f = cc
Split-found v ((a, c) ∷ xs) [] e f = cc
Split-found v ((a, c) ∷ xs) (k ∷ conns) e f =
    let (same, more) = cons_inj c k.address (contents xs) (addresses conns) e in
    elim (Bool-cases (c == v)) [
      | inl t ↦
          let hit : (k.address == v) ≡ true = ground arith in
          let eq : c ≡ v = ground arith in
          record {
            place = a;
            before = [];
            after = xs;
            found = rw t refl;
            parts = ap (λ d. (a, d) ∷ xs) eq;
            rest = rw hit more;
          }
      | inr t ↦
          let miss : (k.address == v) ≡ false = ground arith in
          let s = Split-found v xs conns more (rw miss at f) in
          record {
            place = s.place;
            before = (a, c) ∷ s.before;
            after = s.after;
            found = rw t s.found;
            parts = ap (λ l. (a, c) ∷ l) s.parts;
            rest =
                rw miss
                  (ap (λ l. c ∷ l) s.rest ∙ ap (λ d. d ∷ addresses (Net.list_remove v conns)) same);
          }
    ]

-- Where a list stands for connections, finding one and removing its node is the removal from a list
-- of values. An access to the next node of the removed one is an access to freed memory.
pub remove-refines :
    (l : Handle) (h : Heap) (xs : Cells) (conns : List Connection) (v : ℕ)
    → IsList l h xs
    → contents xs ≡ map (λ (c : Connection). c.address) conns
    → is_some (Net.list_find v conns) ≡ true
    → (p : ℕ) × (l' : Handle) × (h' : Heap) × (xs' : Cells) × (list_find (λ c. c == v) (l, h)
        ≡ some (some p))
      × (list_remove p (l, h) ≡ some (v, l', h'))
      × IsList l' h' xs'
      × (contents xs' ≡ map (λ (c : Connection). c.address) (Net.list_remove v conns))
      × (list_next (some p) h' ≡ none)
unfolding list_next
remove-refines l h xs conns v is e f =
    let s = Split-found v xs conns e f in
    let is' : IsList l h (s.before ++ (s.place, v) ∷ s.after) = subst (IsList l h) s.parts is in
    let (l', h', p, done, gone, same) = remove-rest l h s.before s.place v s.after is' in
    (
      s.place,
      l',
      h',
      s.before ++ s.after,
      find-first (λ c. c == v) l h xs is ∙ ap some s.found,
      p,
      done,
      s.rest,
      rw gone refl,
    )

-- Where a list stands for values at addresses, enqueuing and dequeuing are what a queue does: the
-- new value goes behind all others, and the first one comes out.
queue-refines :
    {A : Type 0} (at : A → ℕ) (l : Handle) (h : Heap) (xs : Cells) (queue : List A) (x : A)
    (fresh : ℕ)
    → IsList l h xs
    → contents xs ≡ map at queue
    → h fresh ≡ none
    → (l' : Handle) × (h' : Heap) × (xs' : Cells) × (list_enqueue fresh (at x) (l, h)
        ≡ some (l', h'))
      × IsList l' h' xs'
      × (contents xs' ≡ map at (queue ++ x ∷ []))
queue-refines at l h xs queue x fresh is e out =
    let w = enqueue-append l h xs fresh (at x) is out in
    (
      w.handle,
      w.heap,
      xs ++ (fresh, at x) ∷ [],
      w.returns,
      w.is,
      contents-append xs ((fresh, at x) ∷ [])
          ∙ ap (λ c. c ++ at x ∷ []) e
          ∙ sym (map-append at queue (x ∷ [])),
    )

-- Where a list stands for the queue of the driver, dequeuing gives the address of the transaction
-- that the queue of values gives, and leaves a list that stands for the rest.
dequeue-refines :
    (at : UsbDaliTransaction → ℕ) (l : Handle) (h : Heap) (xs : Cells)
    (queue : List UsbDaliTransaction)
    → IsList l h xs
    → contents xs ≡ map at queue
    → (l' : Handle) × (h' : Heap) × (xs' : Cells) × (list_dequeue (l, h)
        ≡ some (Option.map at (Usb.list_dequeue queue).0, l', h'))
      × IsList l' h' xs'
      × (contents xs' ≡ map at (Usb.list_dequeue queue).1)
dequeue-refines at l h [] [] is e =
    let (l', h', p, is', gone, same) = dequeue-rest l h [] is in (l', h', [], p, is', refl)
dequeue-refines at l h [] (t ∷ queue) is e = cc
dequeue-refines at l h ((a, c) ∷ xs) [] is e = cc
dequeue-refines at l h ((a, c) ∷ xs) (t ∷ queue) is e =
    let (first, more) = cons_inj c (at t) (contents xs) (map at queue) e in
    let (l', h', p, is', gone, same) = dequeue-rest l h ((a, c) ∷ xs) is in
    (l', h', xs, p ∙ ap (λ d. some (some d, l', h')) first, is', more)
