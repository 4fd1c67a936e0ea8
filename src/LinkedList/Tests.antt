-- ===== src/LinkedList/Tests.antt =====
-- Runs of lib/list.c on a list of three nodes.
use daliserver.Common.{
  ℕ, ◌≡◌, refl, true, false, Option, none, some, List, [], ◌∷◌, map, arith, ◌==◌, is_some,
}
use daliserver.LinkedList.{
  Handle, Heap, write, set_next, set_prev, list_enqueue, list_dequeue, list_free, list_remove,
  list_find, list_next, list_new, ◌>>=◌,
}
use daliserver.LinkedList.Links.{Cells, contents, node, IsList}
use daliserver.LinkedList.Refines.{remove-refines}
use daliserver.LinkedList.Reached.{
  Reached, made, enqueued, dequeued, removed, reached_serves, freed, first, CanRemove, has_content,
}
use daliserver.Net.{Connection}
use daliserver.Net as Net

abbrev cells : Cells
cells = (1, 100) ∷ (2, 200) ∷ (3, 300) ∷ []

abbrev heap : Heap
heap =
    write
      (write (write (λ p. none) 1 (some (node none (some 2) 100))) 2
        (some (node (some 1) (some 3) 200)))
      3 (some (node (some 2) none 300))

abbrev handle : Handle
handle = record { head = some 1; tail = some 3; length = 3 }

heap-IsList : IsList handle heap cells
unfolding write
heap-IsList = record {
  head = refl;
  tail = refl;
  count = refl;
  links = (refl, (refl, (refl, tt)));
  apart = ((ground arith, (ground arith, tt)), ((ground arith, tt), (tt, tt)));
}

-- The middle node goes, then the first one.
shortened : Option (ℕ × Option ℕ × Handle)
shortened = do
  (content, l, h) ← list_remove 2 (handle, heap)
  (first, l', h') ← list_dequeue (l, h)
  some (content, first, l')

middle_first : shortened ≡ some (200, some 100, record { head = some 3; tail = some 3; length = 1 })
unfolding shortened list_remove list_dequeue set_next set_prev write
middle_first = refl

abbrev connection : ℕ → Connection
connection p = record { address = p; socket = 5; waiting = false }

abbrev connections : List Connection
connections = connection 100 ∷ connection 200 ∷ connection 300 ∷ []

found : is_some (Net.list_find 200 connections) ≡ true
unfolding Net.list_find
found = refl

remove-refines_example :
    (p : ℕ) × (l' : Handle) × (h' : Heap) × (xs' : Cells) × (list_find
        (λ c. c == 200)
        (handle, heap)
      ≡ some (some p))
    × (list_remove p (handle, heap) ≡ some (200, l', h'))
    × IsList l' h' xs'
    × (contents xs' ≡ map (λ (c : Connection). c.address) (Net.list_remove 200 connections))
    × (list_next (some p) h' ≡ none)
remove-refines_example = remove-refines handle heap cells connections 200 heap-IsList refl found

abbrev empty : Heap
empty p = none

-- Three contents are enqueued, the second is found and removed, the first is dequeued.
used : (l : Handle) × (h : Heap) × Reached l h (300 ∷ [])
unfolding list_new list_enqueue list_dequeue list_find list_remove set_next set_prev write
used = (
  _,
  _,
  dequeued {xs = 100 ∷ 300 ∷ []} (some 100)
      (removed {xs = 100 ∷ 200 ∷ 300 ∷ []} 200 2 200
        (enqueued 3 300 (enqueued 2 200 (enqueued 1 100 (made empty) refl refl) refl refl) refl
          refl)
        refl refl)
      refl,
)

reached_serves_example :
    (used.0.length ≡ 1)
    × ((l' : Handle) × (h' : Heap) × (list_enqueue 4 400 (used.0, used.1) ≡ some (l', h')))
    × ((l' : Handle) × (h' : Heap) × (list_dequeue (used.0, used.1)
          ≡ some (first (300 ∷ []), l', h')))
    × ((place : Option ℕ) × (list_find (λ d. d == 300) (used.0, used.1) ≡ some place)
        × (is_some place ≡ has_content 300 (300 ∷ []))
        × CanRemove place 300 used.0 used.1)
    × ((l' : Handle) × (h' : Heap) × (list_free (used.0, used.1) ≡ some (freed (300 ∷ []), l', h')))
unfolding write used
reached_serves_example = reached_serves 300 4 400 used.2 refl
