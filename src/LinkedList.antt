-- ===== src/LinkedList.antt =====
-- lib/list.c: doubly linked nodes on a heap. A pointer is an address, or `none` for NULL; `none` as
-- a result is an access to a node that is not allocated. `struct List` is a value, since the clients
-- have one pointer to it each. The program has one thread, so the locks have no effect.
pub mod Links
pub mod Ends
pub mod Remove
pub mod Refines
pub mod Reached
mod Tests
use mathlib.Core.Option
use daliserver.Common.{
  ℕ, zero, suc, ◌+◌, ◌-◌, ◌==◌, Bool, false, Option, none, some, List, [], ◌∷◌, if◌then◌else◌,
}

pub record Node : Type 0 where
  pub prev : Option ℕ
  pub next : Option ℕ
  pub content : ℕ

pub record Handle : Type 0 where
  pub head : Option ℕ
  pub tail : Option ℕ
  pub length : ℕ

abbrev pub Heap : Type 0
Heap = ℕ → Option Node

unfoldable pub write : Heap → ℕ → Option Node → Heap
write h p c a = if a == p then c else h a

infixl 5 ◌>>=◌
abbrev pub ◌>>=◌ {ℓ} : {A B : Type ℓ} → Option A → (A → Option B) → Option B
none >>= f = none
some x >>= f = f x

-- `node->prev = p` and `node->next = p`, where the node is not NULL.
unfoldable pub set_prev : Option ℕ → Option ℕ → Heap → Option Heap
set_prev none p h = some h
set_prev (some a) p h = do n ← h a; some (write h a (some (record n { prev = p })))

unfoldable pub set_next : Option ℕ → Option ℕ → Heap → Option Heap
set_next none p h = some h
set_next (some a) p h = do n ← h a; some (write h a (some (record n { next = p })))

abbrev pub is : ℕ → Option ℕ → Bool
is p none = false
is p (some q) = q == p

abbrev pub or_else : Option ℕ → Option ℕ → Option ℕ
or_else none q = q
or_else (some p) q = some p

unfoldable pub list_new : Handle
list_new = record { head = none; tail = none; length = 0 }

-- `fresh` is what malloc() returns.
unfoldable pub list_enqueue : (fresh : ℕ) → ℕ → Handle × Heap → Option (Handle × Heap)
list_enqueue fresh content (l, h) = do
  h' ←
      set_next l.tail (some fresh)
        (write h fresh (some (record { prev = l.tail; next = none; content = content })))
  some (record { head = or_else l.head (some fresh); tail = some fresh; length = l.length + 1 }, h')

abbrev pub dequeue_at : Option ℕ → Handle × Heap → Option (Option ℕ × Handle × Heap)
dequeue_at none (l, h) = some (none, l, h)
dequeue_at (some p) (l, h) = do
  first ← h p
  h' ← set_prev first.next none h
  n ← h' p
  some (
    some first.content,
    record { head = n.next; tail = if is p l.tail then none else l.tail; length = l.length - 1 },
    write h' p none,
  )

-- What it returns is NULL, or the content of the first node.
unfoldable pub list_dequeue : Handle × Heap → Option (Option ℕ × Handle × Heap)
list_dequeue (l, h) = dequeue_at l.head (l, h)

-- The content of each node but NULL goes to the function that frees it.
abbrev pub release : Option ℕ → List ℕ → List ℕ
release none rest = rest
release (some zero) rest = rest
release (some (suc p)) rest = suc p ∷ rest

abbrev pub ended : Option ℕ → Handle × Heap → Option (List ℕ × Handle × Heap)
ended none (l, h) = some ([], l, h)
ended (some p) s = none

-- The loop of `list_free`, with the contents that are freed in order.
unfoldable pub free_loop : ℕ → Handle × Heap → Option (List ℕ × Handle × Heap)
free_loop zero (l, h) = ended l.head (l, h)
free_loop (suc fuel) (l, h) = elim l.head [
  | none ↦ some ([], l, h)
  | some p ↦ do
    (content, l', h') ← list_dequeue (l, h)
    (rest, l'', h'') ← free_loop fuel (l', h')
    some (release content rest, l'', h'')
]

unfoldable pub list_free : Handle × Heap → Option (List ℕ × Handle × Heap)
unfolding free_loop
list_free (l, h) = free_loop l.length (l, h)

-- The node is a pointer that is not NULL. Its fields are read again after each write.
unfoldable pub list_remove : ℕ → Handle × Heap → Option (ℕ × Handle × Heap)
list_remove p (l, h) = do
  n ← h p
  h' ← set_prev n.next n.prev h
  n' ← h' p
  h'' ← set_next n'.prev n'.next h'
  n'' ← h'' p
  some (
    n''.content,
    record {
      head = if is p l.head then n.next else l.head;
      tail = if is p l.tail then n.prev else l.tail;
      length = l.length - 1;
    },
    write h'' p none,
  )

-- `func` is a test of the content.
pub find_loop : (ℕ → Bool) → ℕ → Option ℕ → Heap → Option (Option ℕ)
find_loop func fuel none h = some none
find_loop func zero (some p) h = none
find_loop func (suc fuel) (some p) h = do
  n ← h p
  let next = find_loop func fuel n.next h
  if func n.content then some (some p) else next

unfoldable pub list_find : (ℕ → Bool) → Handle × Heap → Option (Option ℕ)
unfolding find_loop
list_find func (l, h) = find_loop func l.length l.head h

unfoldable pub list_first : Handle → Option ℕ
list_first l = l.head

unfoldable pub list_next : Option ℕ → Heap → Option (Option ℕ)
list_next none h = some none
list_next (some p) h = Option.map (λ (n : Node). n.next) (h p)

unfoldable pub list_data : ℕ → Heap → Option ℕ
list_data p h = Option.map (λ (n : Node). n.content) (h p)
