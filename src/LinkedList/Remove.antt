-- ===== src/LinkedList/Remove.antt =====
-- Finding a node in a list of lib/list.c, taking it out and going on to the next one.
use daliserver.Common.{
  ℕ, zero, suc, ◌-◌, ◌≡◌, refl, sym, ap, ◌∙◌, Bool, false, Option, none, some, [], ◌∷◌, ◌++◌, arith,
  if◌then◌else◌, length, length-append, Bool-cases, inl, inr,
}
use daliserver.LinkedList.{
  Handle, Heap, write, set_prev, set_next, is, list_remove, find_loop, list_find, list_next,
}
use daliserver.LinkedList.Links.{
  Cells, front, back, IsAway, AreApart, node, Links, IsList, SameOutside, Links-write, Links-append,
  Links-split, Links-first, Links-Last, write-same, write-other, set_next-some, set_prev-some,
}
use daliserver.LinkedList.Ends.{is-back}

pub away-append : (p : ℕ) (xs ys : Cells) → IsAway p (xs ++ ys) → IsAway p xs × IsAway p ys
away-append p [] ys h = (tt, h)
away-append p (x ∷ xs) ys (n, h) = let (k, k') = away-append p xs ys h in ((n, k), k')

away-join : (p : ℕ) (xs ys : Cells) → IsAway p xs → IsAway p ys → IsAway p (xs ++ ys)
away-join p [] ys h k = k
away-join p (x ∷ xs) ys (n, h) k = (n, away-join p xs ys h k)

-- The nodes before and behind a node `p`.
apart-middle :
    (xs : Cells) (p c : ℕ) (ys : Cells)
    → AreApart (xs ++ (p, c) ∷ ys)
    → IsAway p xs × IsAway p ys × AreApart (xs ++ ys) × AreApart xs
apart-middle [] p c ys (out, h) = (tt, out, h, tt)
apart-middle ((a, d) ∷ xs) p c ys (out, h) =
    let (k, k', apart, apart') = apart-middle xs p c ys h in
    let (m, (n, m')) : IsAway a xs × IsAway a ((p, c) ∷ ys) = away-append a xs ((p, c) ∷ ys) out in
    (((λ e. n (sym e)), k), k', (away-join a xs ys m m', apart), (m, apart'))

front-append :
    (xs : Cells) (x : ℕ × ℕ) (ys : Cells) (after : Option ℕ)
    → front (xs ++ x ∷ ys) after ≡ front xs (some x.0)
front-append [] x ys after = refl
front-append (x' ∷ xs) x ys after = refl

front-join : (xs ys : Cells) (after : Option ℕ) → front (xs ++ ys) after ≡ front xs (front ys after)
front-join [] ys after = refl
front-join (x' ∷ xs) ys after = refl

back-join : (before : Option ℕ) (xs ys : Cells) → back before (xs ++ ys) ≡ back (back before xs) ys
back-join before [] ys = refl
back-join before ((a, c) ∷ xs) ys = back-join (some a) xs ys

-- After `if (n) n->prev = q`, with `n` the first of the nodes behind.
behind :
    (h : Heap) (p : ℕ) (before : Option ℕ) (ys : Cells)
    → AreApart ys
    → IsAway p ys
    → Links h (some p) ys none
    → (h' : Heap) × (set_prev (front ys none) before h ≡ some h')
      × Links h' before ys none
      × ((q : ℕ) → IsAway q ys → h' q ≡ h q)
unfolding set_prev
behind h p before [] apart out s = (h, refl, tt, λ q away. refl)
behind h p before ((b, d) ∷ ys) (away, apart) out s = (
  _,
  set_prev-some h b (node (some p) (front ys none) d) before s.0,
  Links-first h (some p) before b d ys none away s,
  λ q off. write-other h b _ q off.0,
)

-- After `if (n) n->next = q`, with `n` the last of the nodes before.
ahead :
    (h : Heap) (p : ℕ) (after : Option ℕ) (xs : Cells)
    → AreApart xs
    → IsAway p xs
    → Links h none xs (some p)
    → (h' : Heap) × (set_next (back none xs) after h ≡ some h')
      × Links h' none xs after
      × ((q : ℕ) → IsAway q xs → h' q ≡ h q)
unfolding set_next
ahead h p after [] apart out s = (h, refl, tt, λ q away. refl)
ahead h p after ((a, c) ∷ xs) apart out s =
    let w = Links-Last h none a c xs (some p) after apart s in
    (
      _,
      ap (λ o. set_next o after h) w.place ∙ set_next-some h w.address w.value after w.holds,
      w.links,
      λ q away. write-other h w.address _ q (w.inside q away),
    )

apart_behind : (xs ys : Cells) → AreApart (xs ++ ys) → AreApart ys
apart_behind [] ys h = h
apart_behind (x ∷ xs) ys (out, h) = apart_behind xs ys h

-- No node of one list is a node of the other.
abbrev AllAway : Cells → Cells → Type 0
AllAway [] ys = Unit
AllAway ((a, c) ∷ xs) ys = IsAway a ys × AllAway xs ys

apart-AllAway : (xs ys : Cells) → AreApart (xs ++ ys) → AllAway xs ys
apart-AllAway [] ys h = tt
apart-AllAway ((a, c) ∷ xs) ys (out, h) = ((away-append a xs ys out).1, apart-AllAway xs ys h)

AllAway-cons :
    (ys : Cells) (a c : ℕ) (xs : Cells) → AllAway ys xs → IsAway a ys → AllAway ys ((a, c) ∷ xs)
AllAway-cons [] a c xs h out = tt
AllAway-cons ((b, d) ∷ ys) a c xs (k, h) (n, out) =
    (((λ e. n (sym e)), k), AllAway-cons ys a c xs h out)

AllAway-nil : (ys : Cells) → AllAway ys []
AllAway-nil [] = tt
AllAway-nil (y ∷ ys) = (tt, AllAway-nil ys)

AllAway-sym : (xs ys : Cells) → AllAway xs ys → AllAway ys xs
AllAway-sym [] ys h = AllAway-nil ys
AllAway-sym ((a, c) ∷ xs) ys (out, h) = AllAway-cons ys a c xs (AllAway-sym xs ys h) out

Links-same :
    (h h' : Heap) (before : Option ℕ) (xs : Cells) (after : Option ℕ) (ys : Cells)
    → ((q : ℕ) → IsAway q ys → h' q ≡ h q)
    → AllAway xs ys
    → Links h before xs after
    → Links h' before xs after
Links-same h h' before [] after ys k apart s = tt
Links-same h h' before ((a, c) ∷ xs) after ys k (out, apart) (e, s) =
    (k a out ∙ e, Links-same h h' (some a) xs after ys k apart s)

head-remove :
    (o : Option ℕ) (xs : Cells) (p c : ℕ) (ys : Cells)
    → o ≡ front (xs ++ (p, c) ∷ ys) none
    → IsAway p xs
    → (if is p o then front ys none else o) ≡ front (xs ++ ys) none
head-remove o [] p c ys e out = ground arith
head-remove o ((a, d) ∷ xs) p c ys e (n, out) = ground arith

tail-remove :
    (o : Option ℕ) (xs : Cells) (p c : ℕ) (ys : Cells)
    → o ≡ back none (xs ++ (p, c) ∷ ys)
    → IsAway p ys
    → (if is p o then back none xs else o) ≡ back none (xs ++ ys)
tail-remove o xs p c [] e out =
    let last : o ≡ some p = e ∙ back-join none xs ((p, c) ∷ []) in
    let same : back none (xs ++ []) ≡ back none xs = back-join none xs [] in ground (arith)
tail-remove o xs p c ((b, d) ∷ ys) e out =
    let last : o ≡ back (some b) ys = e ∙ back-join none xs ((p, c) ∷ (b, d) ∷ ys) in
    let other : is p o ≡ false = ap (is p) last ∙ is-back p b d ys out in
    rw other (last ∙ sym (back-join none xs ((b, d) ∷ ys)))

length-remove :
    (n : ℕ) (xs : Cells) (p c : ℕ) (ys : Cells)
    → n ≡ length (xs ++ (p, c) ∷ ys)
    → n - 1 ≡ length (xs ++ ys)
length-remove n xs p c ys e = omega (arith, length-append xs ((p, c) ∷ ys), length-append xs ys)

module _ (l : Handle) (h : Heap) (xs : Cells) (p c : ℕ) (ys : Cells)
    (v : IsList l h (xs ++ (p, c) ∷ ys)) where
  -- `list_remove` of a node in the list succeeds and returns its content. The node is freed, the
  -- nodes before and behind it are the list that remains, and no other memory changes.
  pub remove-rest :
      (l' : Handle) × (h' : Heap) × (list_remove p (l, h) ≡ some (c, l', h'))
      × IsList l' h' (xs ++ ys)
      × (h' p ≡ none)
      × SameOutside (xs ++ (p, c) ∷ ys) h h'
  unfolding list_remove
  remove-rest =
      let (out, out', apart, apart_xs) = apart-middle xs p c ys v.apart in
      let away = apart-AllAway xs ys apart in
      let (s, (e, t)) = Links-split h none xs ((p, c) ∷ ys) none v.links in
      let n = node (back none xs) (front ys none) c in
      let (h1, q1, t1, k1) = behind h p (back none xs) ys (apart_behind xs ys apart) out' t in
      let (h2, q2, s2, k2) =
        ahead h1 p (front ys none) xs apart_xs out
          (Links-same h h1 none xs (some p) ys k1 away s) in
      let t2 = Links-same h1 h2 (back none xs) ys none xs k2 (AllAway-sym xs ys away) t1 in
      let e1 : h1 p ≡ some n = k1 p out' ∙ e in
      let e2 : h2 p ≡ some n = k2 p out ∙ e1 in
      (
        record {
          head = if is p l.head then front ys none else l.head;
          tail = if is p l.tail then back none xs else l.tail;
          length = l.length - 1;
        },
        write h2 p none,
        rw e (rw q1 (rw e1 (rw q2 (rw e2 refl)))),
        record {
          head = head-remove l.head xs p c ys v.head out;
          tail = tail-remove l.tail xs p c ys v.tail out';
          count = length-remove l.length xs p c ys v.count;
          links =
              Links-append (write h2 p none) none xs ys none
                (Links-write h2 none xs (front ys none) p none out s2)
                (Links-write h2 (back none xs) ys none p none out' t2);
          apart = apart;
        },
        write-same h2 p none,
        λ q off.
            let (m, (n, m')) = away-append q xs ((p, c) ∷ ys) off in
            write-other h2 p none q n ∙ k2 q m ∙ k1 q m',
      )

-- The first node whose content passes the test.
abbrev pub first_match : (ℕ → Bool) → Cells → Option ℕ
first_match func [] = none
first_match func ((a, c) ∷ xs) = if func c then some a else first_match func xs

find_loop_lem :
    (func : ℕ → Bool) (fuel : ℕ) (h : Heap) (before : Option ℕ) (xs : Cells)
    → Links h before xs none
    → fuel ≡ length xs
    → find_loop func fuel (front xs none) h ≡ some (first_match func xs)
unfolding find_loop
find_loop_lem func fuel h before [] s e = refl
find_loop_lem func zero h before ((a, c) ∷ xs) s e = absurd (omega arith)
find_loop_lem func (suc fuel) h before ((a, c) ∷ xs) (f, s) e =
    rw (f, find_loop_lem func fuel h (some a) xs s (omega arith))
      (elim (Bool-cases (func c)) [ inl t ↦ rw t refl | inr t ↦ rw t refl ])

-- `list_find` ends and returns the first node whose content passes the test, or NULL.
pub find-first :
    (func : ℕ → Bool) (l : Handle) (h : Heap) (xs : Cells)
    → IsList l h xs
    → list_find func (l, h) ≡ some (first_match func xs)
unfolding list_find
find-first func l h xs v =
    ap (λ p. find_loop func l.length p h) v.head
    ∙ find_loop_lem func l.length h none xs v.links v.count

-- `list_next` gives the node behind, or NULL behind the last one.
pub next-front :
    (l : Handle) (h : Heap) (xs : Cells) (p c : ℕ) (ys : Cells)
    → IsList l h (xs ++ (p, c) ∷ ys)
    → list_next (some p) h ≡ some (front ys none)
unfolding list_next
next-front l h xs p c ys v = rw (Links-split h none xs ((p, c) ∷ ys) none v.links).1.0 refl
