-- ===== src/LinkedList/Reached.antt =====
-- Any use of a list of lib/list.c from list_new on, against the list of the contents.
use mathlib.Core.Option.{some-ne-none}
use mathlib.Core.Path.{subst}
use daliserver.Common.{
  ℕ, ◌≡◌, refl, sym, ap, ◌∙◌, Bool, true, false, ◌||◌, Option, none, some, List, [], ◌∷◌, ◌++◌,
  ◌==◌, length, is_some, suc, Bool-cases, inl, inr, some_inj, if◌then◌else◌, ==_iff,
}
use daliserver.LinkedList.{
  Handle, Heap, list_new, list_enqueue, list_dequeue, list_remove, list_find, list_free, release,
}
use daliserver.LinkedList.Links.{Cells, contents, IsList}
use daliserver.LinkedList.Ends.{
  new-IsList, enqueue-append, dequeue-rest, free-released, released, first_content, rest_of,
}
use daliserver.LinkedList.Remove.{first_match, find-first, remove-rest}

abbrev pub first : List ℕ → Option ℕ
first [] = none
first (c ∷ xs) = some c

abbrev pub behind_first : List ℕ → List ℕ
behind_first [] = []
behind_first (c ∷ xs) = xs

abbrev pub has_content : ℕ → List ℕ → Bool
has_content v [] = false
has_content v (c ∷ xs) = (c == v) || has_content v xs

abbrev pub without_first : ℕ → List ℕ → List ℕ
without_first v [] = []
without_first v (c ∷ xs) = if c == v then xs else c ∷ without_first v xs

-- The list and the memory after operations from `list_new` on, with the contents that the list
-- should have: what is enqueued has memory of its own, and what is removed is the first node that
-- `list_find` finds.
pub data Reached : Handle → Heap → List ℕ → Type 0 where
  made : (h : Heap) → Reached list_new h []
  enqueued :
      {l l' : Handle} {h h' : Heap} {xs : List ℕ} (fresh c : ℕ)
      → Reached l h xs
      → h fresh ≡ none
      → list_enqueue fresh c (l, h) ≡ some (l', h')
      → Reached l' h' (xs ++ c ∷ [])
  dequeued :
      {l l' : Handle} {h h' : Heap} {xs : List ℕ} (result : Option ℕ)
      → Reached l h xs
      → list_dequeue (l, h) ≡ some (result, l', h')
      → Reached l' h' (behind_first xs)
  removed :
      {l l' : Handle} {h h' : Heap} {xs : List ℕ} (v p result : ℕ)
      → Reached l h xs
      → list_find (λ c. c == v) (l, h) ≡ some (some p)
      → list_remove p (l, h) ≡ some (result, l', h')
      → Reached l' h' (without_first v xs)

abbrev Stands : Handle → Heap → List ℕ → Type 0
Stands l h xs = (cells : Cells) × IsList l h cells × (contents cells ≡ xs)

contents-snoc : (xs : Cells) (p c : ℕ) → contents (xs ++ (p, c) ∷ []) ≡ contents xs ++ c ∷ []
contents-snoc [] p c = refl
contents-snoc ((a, d) ∷ xs) p c = ap (λ l. d ∷ l) (contents-snoc xs p c)

first_content_lem : (cells : Cells) → first_content cells ≡ first (contents cells)
first_content_lem [] = refl
first_content_lem ((a, c) ∷ cells) = refl

rest_of_lem : (cells : Cells) → contents (rest_of cells) ≡ behind_first (contents cells)
rest_of_lem [] = refl
rest_of_lem ((a, c) ∷ cells) = refl

contents-length : (xs : Cells) → length xs ≡ length (contents xs)
contents-length [] = refl
contents-length ((a, c) ∷ xs) = ap (λ n. suc n) (contents-length xs)

-- The cells round the first match.
parted :
    (v p : ℕ) (cells : Cells)
    → first_match (λ c. c == v) cells ≡ some p
    → (before : Cells) × (after : Cells) × (cells ≡ before ++ (p, v) ∷ after)
      × (contents (before ++ after) ≡ without_first v (contents cells))
      × (has_content v (contents cells) ≡ true)
parted v p [] e = cc
parted v p ((a, c) ∷ cells) e = elim (Bool-cases (c == v)) [
  | inl t ↦
      let place : a ≡ p = some_inj a p (rw t at e) in
      let same : c ≡ v = (==_iff c v).0 t in
      (
        [],
        cells,
        ap (λ k. (k, c) ∷ cells) place ∙ ap (λ k. (p, k) ∷ cells) same,
        rw t refl,
        rw t refl,
      )
  | inr t ↦
      let (before, after, parts, rest, has) = parted v p cells (rw t at e) in
      ((a, c) ∷ before, after, ap (λ l. (a, c) ∷ l) parts, rw t (ap (λ l. c ∷ l) rest), rw t has)
]

no_match :
    (v : ℕ) (cells : Cells)
    → first_match (λ c. c == v) cells ≡ none
    → has_content v (contents cells) ≡ false
no_match v [] e = refl
no_match v ((a, c) ∷ cells) e = elim (Bool-cases (c == v)) [
  | inl t ↦ absurd (some-ne-none a (rw t at e))
  | inr t ↦ rw t (no_match v cells (rw t at e))
]

Stands-same :
    (xs : List ℕ) (l l' : Handle) (h h' : Heap) (cells : Cells)
    → ◌≡◌ {A = Handle × Heap} (l, h) (l', h')
    → IsList l h cells
    → contents cells ≡ xs
    → Stands l' h' xs
Stands-same xs l l' h h' cells e v same =
    (cells, subst (λ (s : Handle × Heap). IsList s.0 s.1 cells) e v, same)

Reached-Stands : {l : Handle} {h : Heap} {xs : List ℕ} → Reached l h xs → Stands l h xs
Reached-Stands (made h) = ([], new-IsList h, refl)
Reached-Stands (enqueued {l} {l'} {h} {h'} {xs} fresh c r out e) =
    let (cells, v, same) = Reached-Stands r in
    let w = enqueue-append l h cells fresh c v out in
    Stands-same (xs ++ c ∷ []) w.handle l' w.heap h' (cells ++ (fresh, c) ∷ [])
      (some_inj _ _ (sym w.returns ∙ e)) w.is
      (contents-snoc cells fresh c ∙ ap (λ k. k ++ c ∷ []) same)
Reached-Stands (dequeued {l} {l'} {h} {h'} {xs} result r e) =
    let (cells, v, same) = Reached-Stands r in
    let (l1, h1, p, v', gone, kept) = dequeue-rest l h cells v in
    Stands-same (behind_first xs) l1 l' h1 h' (rest_of cells)
      (ap (λ (t : Option ℕ × Handle × Heap). (t.1, t.2)) (some_inj _ _ (sym p ∙ e))) v'
      (rest_of_lem cells ∙ ap behind_first same)
Reached-Stands (removed {l} {l'} {h} {h'} {xs} v p result r f e) =
    let (cells, w, same) = Reached-Stands r in
    let found : first_match (λ c. c == v) cells ≡ some p =
      some_inj _ _ (sym (find-first (λ c. c == v) l h cells w) ∙ f) in
    let (before, after, parts, rest, has) = parted v p cells found in
    let (l1, h1, q, w', gone, kept) =
      remove-rest l h before p v after (subst (IsList l h) parts w) in
    Stands-same (without_first v xs) l1 l' h1 h' (before ++ after)
      (ap (λ (t : ℕ × Handle × Heap). (t.1, t.2)) (some_inj _ _ (sym q ∙ e))) w'
      (rest ∙ ap (without_first v) same)

-- What goes to the function that frees contents.
abbrev pub freed : List ℕ → List ℕ
freed [] = []
freed (c ∷ xs) = release (some c) (freed xs)

released_lem : (cells : Cells) → released cells ≡ freed (contents cells)
released_lem [] = refl
released_lem ((a, c) ∷ cells) = ap (release (some c)) (released_lem cells)

-- A node that was found can be removed, which gives its content back.
abbrev pub CanRemove : Option ℕ → ℕ → Handle → Heap → Type 0
CanRemove none v l h = Unit
CanRemove (some p) v l h = (l' : Handle) × (h' : Heap) × (list_remove p (l, h) ≡ some (v, l', h'))

finds :
    (l : Handle) (h : Heap) (cells : Cells) (v : ℕ) (place : Option ℕ)
    → IsList l h cells
    → first_match (λ c. c == v) cells ≡ place
    → (is_some place ≡ has_content v (contents cells)) × CanRemove place v l h
finds l h cells v none w e = (sym (no_match v cells e), tt)
finds l h cells v (some p) w e =
    let (before, after, parts, rest, has) = parted v p cells e in
    let (l1, h1, q, w', gone, kept) =
      remove-rest l h before p v after (subst (IsList l h) parts w) in
    (sym has, (l1, h1, q))

-- A list that was made by `list_new` and then changed by `list_enqueue` with new nodes, by
-- `list_dequeue`, and by `list_remove` of the first node with a content, in any order, has the
-- contents that a queue of values has after the same operations. Its length is theirs.
-- `list_enqueue` of a new node succeeds, `list_dequeue` returns the first content or NULL,
-- `list_find` finds a node just if a content passes, `list_remove` of that node returns the
-- content, and `list_free` gives all contents but NULL to the function that frees them, in order.
-- No operation accesses a node that is not allocated.
pub reached_serves :
    {l : Handle} {h : Heap} {xs : List ℕ} (v fresh c : ℕ)
    → Reached l h xs
    → h fresh ≡ none
    → (l.length ≡ length xs)
      × ((l' : Handle) × (h' : Heap) × (list_enqueue fresh c (l, h) ≡ some (l', h')))
      × ((l' : Handle) × (h' : Heap) × (list_dequeue (l, h) ≡ some (first xs, l', h')))
      × ((place : Option ℕ) × (list_find (λ d. d == v) (l, h) ≡ some place)
          × (is_some place ≡ has_content v xs)
          × CanRemove place v l h)
      × ((l' : Handle) × (h' : Heap) × (list_free (l, h) ≡ some (freed xs, l', h')))
reached_serves {l} {h} {xs} v fresh c r out =
    let (cells, w, same) = Reached-Stands r in
    let added = enqueue-append l h cells fresh c w out in
    let (l1, h1, p, w1, gone, kept) = dequeue-rest l h cells w in
    let (has, can) = finds l h cells v (first_match (λ d. d == v) cells) w refl in
    let (l2, h2, q, w2, kept2) = free-released l h cells w in
    (
      w.count ∙ contents-length cells ∙ ap length same,
      (added.handle, added.heap, added.returns),
      (l1, h1, p ∙ ap (λ o. some (o, l1, h1)) (first_content_lem cells ∙ ap first same)),
      (
        first_match (λ d. d == v) cells,
        find-first (λ d. d == v) l h cells w,
        has ∙ ap (has_content v) same,
        can,
      ),
      (l2, h2, q ∙ ap (λ o. some (o, l2, h2)) (released_lem cells ∙ ap freed same)),
    )
