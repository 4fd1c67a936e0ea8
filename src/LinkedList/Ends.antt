-- ===== src/LinkedList/Ends.antt =====
-- The two ends of a list of lib/list.c: what is enqueued at the back comes out at the front.
use daliserver.Common.{
  ℕ, zero, suc, ◌+◌, ◌-◌, ◌≡◌, refl, sym, ap, ◌∙◌, true, false, Option, none, some, List, [], ◌∷◌,
  ◌++◌, arith, ◌==◌, length, length-append,
}
use daliserver.LinkedList.{
  Handle, Heap, write, ◌>>=◌, set_prev, set_next, is, list_new, list_enqueue, dequeue_at,
  list_dequeue, ended, free_loop, list_free, release,
}
use daliserver.LinkedList.Links.{
  Cells, front, back, IsAway, AreApart, node, IsList, SameOutside, Links-write, Links-append,
  Links-first, Links-Last, away-of_none, write-same, write-other, set_next-some, set_prev-some,
}

pub new-IsList : (h : Heap) → IsList list_new h []
unfolding list_new
new-IsList h = record { head = refl; tail = refl; count = refl; links = tt; apart = tt }

apart-append : (xs : Cells) (p c : ℕ) → AreApart xs → IsAway p xs → AreApart (xs ++ (p, c) ∷ [])
apart-append [] p c h out = (tt, tt)
apart-append ((a, d) ∷ xs) p c (away, h) (ne, out) = (go xs away, apart-append xs p c h out)
  where
    go : (ys : Cells) → IsAway a ys → IsAway a (ys ++ (p, c) ∷ [])
    go [] k = (λ e. ne (sym e), tt)
    go ((b, d) ∷ ys) (n, k) = (n, go ys k)

back-append : (before : Option ℕ) (xs : Cells) (p c : ℕ) → back before (xs ++ (p, c) ∷ []) ≡ some p
back-append before [] p c = refl
back-append before ((a, d) ∷ xs) p c = back-append (some a) xs p c

pub record Enqueued (l : Handle) (h : Heap) (xs : Cells) (fresh content : ℕ) : Type 0 where
  pub handle : Handle
  pub heap : Heap
  pub returns : list_enqueue fresh content (l, h) ≡ some (handle, heap)
  pub is : IsList handle heap (xs ++ (fresh, content) ∷ [])
  pub same : SameOutside ((fresh, content) ∷ xs) h heap

enqueue_first :
    (l : Handle) (h : Heap) (fresh content : ℕ) → IsList l h [] → Enqueued l h [] fresh content
unfolding list_enqueue set_next write
enqueue_first l h fresh content v = record {
  handle = record { head = some fresh; tail = some fresh; length = l.length + 1 };
  heap = write h fresh (some (node none none content));
  returns = rw (v.head, v.tail) refl;
  is = record {
    head = refl;
    tail = refl;
    count = omega (arith, v.count);
    links = (ground arith, tt);
    apart = (tt, tt);
  };
  same = λ p out. ground (arith, out.0);
}

enqueue_behind :
    (l : Handle) (h : Heap) (a c : ℕ) (xs : Cells) (fresh content : ℕ)
    → IsList l h ((a, c) ∷ xs)
    → IsAway fresh ((a, c) ∷ xs)
    → Enqueued l h ((a, c) ∷ xs) fresh content
unfolding list_enqueue
enqueue_behind l h a c xs fresh content v out =
    let new = some (node l.tail none content) in
    let made = write h fresh new in
    let w =
      Links-Last made none a c xs none (some fresh) v.apart
        (Links-write h none ((a, c) ∷ xs) none fresh new out v.links) in
    let last = some (record w.value { next = some fresh }) in
    let h' = write made w.address last in
    let at : l.tail ≡ some w.address = v.tail ∙ w.place in
    record {
      handle = record { head = some a; tail = some fresh; length = l.length + 1 };
      heap = h';
      returns = rw v.head (
          ap
            (λ t. set_next t (some fresh) made >>= λ g.
              some (record { head = some a; tail = some fresh; length = l.length + 1 }, g))
            at
          ∙ rw (set_next-some made w.address w.value (some fresh) w.holds) refl);
      is = record {
        head = refl;
        tail = sym (back-append (some a) xs fresh content);
        count = omega (arith, v.count, length-append xs ((fresh, content) ∷ []));
        links = Links-append h' none ((a, c) ∷ xs) ((fresh, content) ∷ []) none w.links (
          write-other made w.address last fresh (w.inside fresh out)
              ∙ write-same h fresh new
              ∙ ap (λ t. some (node t none content)) v.tail,
          tt,
        );
        apart = apart-append ((a, c) ∷ xs) fresh content v.apart out;
      };
      same = λ p away.
          write-other made w.address last p (w.inside p away.1) ∙ write-other h fresh new p away.0;
    }

-- `list_enqueue` with an address that is not in use succeeds and appends the new node to the list;
-- no other memory changes.
pub enqueue-append :
    (l : Handle) (h : Heap) (xs : Cells) (fresh content : ℕ)
    → IsList l h xs
    → h fresh ≡ none
    → Enqueued l h xs fresh content
enqueue-append l h [] fresh content v e = enqueue_first l h fresh content v
enqueue-append l h ((a, c) ∷ xs) fresh content v e =
    enqueue_behind l h a c xs fresh content v
      (away-of_none h none ((a, c) ∷ xs) none fresh e v.links)

pub is-back : (p b d : ℕ) (xs : Cells) → IsAway p ((b, d) ∷ xs) → is p (back (some b) xs) ≡ false
is-back p b d [] (ne, out) = ground arith
is-back p b d ((b', d') ∷ xs) (ne, out) = is-back p b' d' xs out

abbrev pub first_content : Cells → Option ℕ
first_content [] = none
first_content ((a, c) ∷ xs) = some c

abbrev pub rest_of : Cells → Cells
rest_of [] = []
rest_of (x ∷ xs) = xs

-- The first node is not allocated any more.
abbrev FirstFreed : Cells → Heap → Type 0
FirstFreed [] h = Unit
FirstFreed ((a, c) ∷ xs) h = h a ≡ none

dequeue_only :
    (l : Handle) (h : Heap) (a c : ℕ)
    → IsList l h ((a, c) ∷ [])
    → list_dequeue (l, h)
      ≡ some (some c, record { head = none; tail = none; length = l.length - 1 }, write h a none)
unfolding list_dequeue set_prev
dequeue_only l h a c v =
    let (e, _) = v.links in
    let same : (a == a) ≡ true = ground arith in rw (v.head, v.tail, e, e, same) refl

dequeue_more :
    (l : Handle) (h : Heap) (a c b d : ℕ) (xs : Cells)
    → IsList l h ((a, c) ∷ (b, d) ∷ xs)
    → list_dequeue (l, h)
      ≡ some (
        some c,
        record { head = some b; tail = l.tail; length = l.length - 1 },
        write (write h b (some (node none (front xs none) d))) a none,
      )
unfolding list_dequeue
dequeue_more l h a c b d xs v =
    let (away, apart) = v.apart in
    let e = v.links.0 in
    let f = v.links.1.0 in
    let new = some (node none (front xs none) d) in
    let other : is a l.tail ≡ false = ap (is a) v.tail ∙ is-back a b d xs away in
    rw (v.head, e, set_prev-some h b (node (some a) (front xs none) d) none f)
      (rw (write-other h b new a away.0, e, other) refl)

-- `list_dequeue` succeeds and returns the content of the first node, or NULL for an empty list. The
-- node is freed, the others are the list that remains, and no other memory changes.
pub dequeue-rest :
    (l : Handle) (h : Heap) (xs : Cells)
    → IsList l h xs
    → (l' : Handle) × (h' : Heap) × (list_dequeue (l, h) ≡ some (first_content xs, l', h'))
      × IsList l' h' (rest_of xs)
      × FirstFreed xs h'
      × SameOutside xs h h'
unfolding list_dequeue
dequeue-rest l h [] v = (l, h, ap (λ p. dequeue_at p (l, h)) v.head, v, tt, λ p out. refl)
dequeue-rest l h ((a, c) ∷ []) v = (
  record { head = none; tail = none; length = l.length - 1 },
  write h a none,
  dequeue_only l h a c v,
  record { head = refl; tail = refl; count = omega (arith, v.count); links = tt; apart = tt },
  write-same h a none,
  λ p out. write-other h a none p out.0,
)
dequeue-rest l h ((a, c) ∷ (b, d) ∷ xs) v =
    let (away, apart) = v.apart in
    let new = some (node none (front xs none) d) in
    let h' = write h b new in
    (
      record { head = some b; tail = l.tail; length = l.length - 1 },
      write h' a none,
      dequeue_more l h a c b d xs v,
      record {
        head = refl;
        tail = v.tail;
        count = omega (arith, v.count);
        links =
            Links-write h' none ((b, d) ∷ xs) none a none away
              (Links-first h (some a) none b d xs none apart.0 v.links.1);
        apart = apart;
      },
      write-same h' a none,
      λ p out. write-other h' a none p out.0 ∙ write-other h b new p out.1.0,
    )

-- What the function that frees contents is called with: all but NULL.
abbrev pub released : Cells → List ℕ
released [] = []
released ((a, c) ∷ xs) = release (some c) (released xs)

free_loop-released :
    (fuel : ℕ) (l : Handle) (h : Heap) (xs : Cells)
    → IsList l h xs
    → fuel ≡ length xs
    → (l' : Handle) × (h' : Heap) × (free_loop fuel (l, h) ≡ some (released xs, l', h'))
      × IsList l' h' []
      × SameOutside xs h h'
unfolding free_loop
free_loop-released zero l h [] v e = (l, h, ap (λ o. ended o (l, h)) v.head, v, λ p out. refl)
free_loop-released zero l h (x ∷ xs) v e = absurd (omega arith)
free_loop-released (suc fuel) l h [] v e = absurd (omega arith)
free_loop-released (suc fuel) l h ((a, c) ∷ xs) v e =
    let (l', h', p, v', gone, same) = dequeue-rest l h ((a, c) ∷ xs) v in
    let (l'', h'', q, done, kept) = free_loop-released fuel l' h' xs v' (omega arith) in
    (l'', h'', rw v.head (rw (p, q) refl), done, λ r out. kept r out.1 ∙ same r out)

-- `list_free` ends, takes every node in order and gives each content but NULL to the function that
-- frees it; no memory but the nodes changes.
pub free-released :
    (l : Handle) (h : Heap) (xs : Cells)
    → IsList l h xs
    → (l' : Handle) × (h' : Heap) × (list_free (l, h) ≡ some (released xs, l', h'))
      × IsList l' h' []
      × SameOutside xs h h'
unfolding list_free
free-released l h xs v = free_loop-released l.length l h xs v v.count
