-- ===== src/Net/Watched.antt =====
-- The calls of lib/net.c that change the dispatch table, carried out on the table of
-- lib/dispatch.c. `readyfn`, `errorfn` and `self` are what the server registers for a socket.
use daliserver.Common.{
  ℕ, ◌+◌, ◌≡◌, refl, ap, ◌∙◌, Bool, true, false, ◌&&◌, ◌||◌, Option, none, some, List, [], ◌∷◌,
  arith, ◌==◌, if◌then◌else◌, Bool-cases, ==_iff, sym, inl, inr,
}
use daliserver.Common.Int.{ℤ, pos, negsuc, eq_ℤ}
use daliserver.Common.Counting.{one_if, count, count_never, count_twice, count_more}
use daliserver.Dispatch.{PollFlags, Slot, Dispatch, entries, dispatch_add, dispatch_remove_fd}
use daliserver.Dispatch.Add.{add-entries}
use daliserver.Dispatch.Remove.{IsBounded, Without, is_fd, remove_fd-Without}
use daliserver.Net.{
  Connection, Action, write, close, register, unregister, Server, Sockets, free_connections,
  server_close,
}

-- How many entries a descriptor has after the calls, the latest first, if it has `n` before.
abbrev pub watched : ℕ → ℕ → List Action → ℕ
watched fd n [] = n
watched fd n (register f ∷ actions) = watched fd n actions + one_if (f == fd)
watched fd n (unregister f ∷ actions) = if f == fd then 0 else watched fd n actions
watched fd n (write _ _ ∷ actions) = watched fd n actions
watched fd n (close _ ∷ actions) = watched fd n actions

module _ {F : Type 0} (flags : PollFlags) (unset : Slot F) (readyfn errorfn : F)
    (self : ℕ → ℕ) where
  abbrev pub carry_out : Action → Dispatch F → Option (Dispatch F)
  carry_out (register fd) table = some (
      dispatch_add flags unset table (pos fd) (negsuc 0) (some readyfn) (some errorfn) none
        (self fd))
  carry_out (unregister fd) table = dispatch_remove_fd table (pos fd)
  carry_out (write _ _) table = some table
  carry_out (close _) table = some table

  unfoldable pub table_after : List Action → Dispatch F → Option (Dispatch F)
  table_after [] table = some table
  table_after (action ∷ actions) table = elim (table_after actions table) [
    | none ↦ none
    | some table' ↦ carry_out action table'
  ]

  abbrev pub entries_for : ℕ → Dispatch F → ℕ
  entries_for fd table = count (is_fd (pos fd)) (entries table)

  differ :
      (f fd : ℕ) → (f == fd) ≡ false → (s : Slot F) → (is_fd (pos fd) s && is_fd (pos f) s) ≡ false
  differ f fd e s = go s.fd
    where
      go : (z : ℤ) → (eq_ℤ z (pos fd) && eq_ℤ z (pos f)) ≡ false
      go (negsuc n) = refl
      go (pos n) = ground arith

  removed :
      (f fd : ℕ) (table table' : Dispatch F)
      → Without (pos f) table table'
      → entries_for fd table' ≡ (if f == fd then 0 else entries_for fd table)
  removed f fd table table' w = elim (Bool-cases (f == fd)) [
    | inl e ↦ rw e (
        ap (λ k. entries_for k table') (sym ((==_iff f fd).0 e))
        ∙ omega (arith, w.exactly (is_fd (pos f)), count_twice (is_fd (pos f)) (entries table)))
    | inr e ↦ rw e (
        omega (
          arith,
          w.exactly (is_fd (pos fd)),
          count_never (λ s. is_fd (pos fd) s && is_fd (pos f) s) (entries table) (differ f fd e),
        ))
  ]

  after-watched :
      (actions : List Action) (table : Dispatch F)
      → IsBounded table
      → (table' : Dispatch F) × (table_after actions table ≡ some table')
        × IsBounded table'
        × ((fd : ℕ) → entries_for fd table' ≡ watched fd (entries_for fd table) actions)
  unfolding table_after
  after-watched [] table v = (table, refl, v, λ fd. refl)
  after-watched (register f ∷ actions) table v =
      let (table', e, v', counts) = after-watched actions table v in
      let (v'', els) =
        add-entries flags unset table' f (negsuc 0) (some readyfn) (some errorfn) none (self f)
          v' in
      (
        _,
        rw (e, table_after) refl,
        v'',
        λ fd. omega (arith, count_more (is_fd (pos fd)) _ _ _ (f == fd) els refl, counts fd),
      )
  after-watched (unregister f ∷ actions) table v =
      let (table', e, v', counts) = after-watched actions table v in
      let (table'', r, w) = remove_fd-Without table' (pos f) v' in
      (
        table'',
        rw (e, table_after) r,
        w.bounded,
        λ fd. removed f fd table' table'' w ∙ ap (λ n. if f == fd then 0 else n) (counts fd),
      )
  after-watched (write _ _ ∷ actions) table v =
      let (table', e, v', counts) = after-watched actions table v in
      (table', rw (e, table_after) refl, v', counts)
  after-watched (close _ ∷ actions) table v =
      let (table', e, v', counts) = after-watched actions table v in
      (table', rw (e, table_after) refl, v', counts)

-- Whether a descriptor is the socket of a connection.
abbrev pub has_socket : ℕ → List Connection → Bool
has_socket fd [] = false
has_socket fd (c ∷ conns) = has_socket fd conns || (c.socket == fd)

either :
    (a b : Bool) {n m : ℕ}
    → n ≡ m
    → (if a then 0 else (if b then 0 else n)) ≡ (if a || b then 0 else m)
either true b e = refl
either false true e = refl
either false false e = e

module _ {D : Type 0} (net : Sockets) (destroy : ℕ → D → D) where
  free-watched :
      (fd n : ℕ) (conns : List Connection) (d : D) (sv : Server)
      → watched fd n (free_connections net destroy conns (d, sv)).1.actions
        ≡ (if has_socket fd conns then 0 else watched fd n sv.actions)
  unfolding free_connections
  free-watched fd n [] d sv = refl
  free-watched fd n (c ∷ conns) d sv =
      free-watched fd n conns (destroy c.address d) record sv {
        connections = conns;
        actions = unregister c.socket ∷ close c.socket ∷ sv.actions;
      }
      ∙ either (has_socket fd conns) (c.socket == fd) refl

  -- The calls of the server, carried out on a bounded table, never read outside it. When the server
  -- closes, the listener and the sockets of all connections have no entry in the table any more,
  -- and every other descriptor has as many as before.
  pub close-unwatched :
      {F : Type 0} (flags : PollFlags) (unset : Slot F) (readyfn errorfn : F) (self : ℕ → ℕ)
      (listener : ℕ) (d : D) (sv : Server) (table : Dispatch F)
      → IsBounded table
      → let run = table_after flags unset readyfn errorfn self in
        (before : Dispatch F) × (after : Dispatch F) × (run sv.actions table ≡ some before)
        × (run (server_close net destroy listener (d, sv)).1.actions table ≡ some after)
        × IsBounded after
        × ((fd : ℕ)
            → count (is_fd (pos fd)) (entries after) ≡ (
                if has_socket fd sv.connections || (listener == fd)
                then 0
                else count (is_fd (pos fd)) (entries before)))
  unfolding server_close
  close-unwatched flags unset readyfn errorfn self listener d sv table v =
      let (before, e, v', counts) =
        after-watched flags unset readyfn errorfn self sv.actions table v in
      let (after, e', v'', counts') =
        after-watched flags unset readyfn errorfn self
          (server_close net destroy listener (d, sv)).1.actions table v in
      (
        before,
        after,
        e,
        e',
        v'',
        λ fd.
            counts' fd
            ∙ free-watched fd _ sv.connections d _
            ∙ either (has_socket fd sv.connections) (listener == fd) (sym (counts fd)),
      )
