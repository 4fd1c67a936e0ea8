-- ===== src/Net/Listen.antt =====
-- `server_open` of lib/net.c, with the dispatch table that the listener joins. What the system calls
-- return is a `Listening`; closing the socket is the one call that is kept.
use daliserver.Common.{
  ℕ, ◌+◌, ◌≡◌, refl, ◌∙◌, sym, ap, Bool, true, false, not, Option, none, some, List, [], ◌∷◌, arith,
  ◌==◌, if◌then◌else◌, some_inj,
}
use daliserver.Common.Int.{pos}
use daliserver.Common.Counting.{one_if, count, count_more}
use daliserver.Dispatch.{PollFlags, Slot, Dispatch, entries, dispatch_add}
use daliserver.Dispatch.Add.{add-entries}
use daliserver.Dispatch.Remove.{IsBounded, is_fd}
use daliserver.Net.{Action, close, Server, Sockets, server_close}
use daliserver.Net.Watched.{table_after, close-unwatched}

-- Whether malloc() has memory, what socket() returns, and which of the next calls succeed.
pub record Listening : Type 0 where
  pub memory : Bool
  pub socket : Option ℕ
  pub setsockopt : Bool
  pub inet_pton : Bool
  pub bind : Bool
  pub listen : Bool

abbrev pub new_server : ℕ → Server
new_server framesize = record {
  connections = [];
  framesize = framesize;
  actions = [];
  faulted = false;
}

module _ {F : Type 0} (flags : PollFlags) (unset : Slot F) (readyfn errorfn : F) (self : ℕ) where
  -- With the socket: the listener and the server, the sockets that are closed, and the table.
  abbrev pub open_with :
      Listening → ℕ → ℕ → Dispatch F → Option (ℕ × Server) × List Action × Dispatch F
  open_with net fd framesize table =
      if not net.setsockopt
      then (none, close fd ∷ [], table)
      else if not net.inet_pton
      then (none, close fd ∷ [], table)
      else if not net.bind
      then (none, close fd ∷ [], table)
      else if not net.listen
      then (none, close fd ∷ [], table)
      else (
        some (fd, new_server framesize),
        [],
        dispatch_add flags unset table (pos fd) (pos flags.pollin) (some readyfn) (some errorfn)
            none self,
      )

  abbrev pub open_socket :
      Listening → Option ℕ → ℕ → Dispatch F → Option (ℕ × Server) × List Action × Dispatch F
  open_socket net none framesize table = (none, [], table)
  open_socket net (some fd) framesize table = open_with net fd framesize table

  -- The dispatch table is there.
  unfoldable pub server_open :
      Listening → ℕ → Dispatch F → Option (ℕ × Server) × List Action × Dispatch F
  server_open net framesize table =
      if net.memory then open_socket net net.socket framesize table else (none, [], table)

  abbrev pub closes : Option ℕ → List Action
  closes none = []
  closes (some fd) = close fd ∷ []

  -- What `server_open` leaves, from a table: with no server the table as it was and no open socket;
  -- with a server no socket closed, and a table of which `server_close` takes the listener, and
  -- nothing else, again.
  pub Undoes :
      {D : Type 0}
      → Sockets
      → (ℕ → D → D)
      → D
      → Listening
      → Dispatch F
      → Option (ℕ × Server) × List Action × Dispatch F
      → Type 0
  Undoes sockets destroy d net table (none, closed, table') =
      (closed ≡ (if net.memory then closes net.socket else [])) × (table' ≡ table)
  Undoes sockets destroy d net table (some (listener, sv), closed, table') =
      (closed ≡ [])
      × (net.socket ≡ some listener)
      × (after : Dispatch F) × (table_after flags unset readyfn errorfn (λ _. self)
            (server_close sockets destroy listener (d, sv)).1.actions table'
          ≡ some after)
      × IsBounded after
      × ((fd : ℕ)
          → count (is_fd (pos fd)) (entries after)
            ≡ (if listener == fd then 0 else count (is_fd (pos fd)) (entries table)))

  same_others :
      (b : Bool) (n m : ℕ) → n ≡ m + one_if b → (if b then 0 else n) ≡ (if b then 0 else m)
  same_others true n m e = refl
  same_others false n m e = omega (arith, e)

  every_step :
      {R : Type 0} (P : R → Type 0) (a b c d : Bool) (bad good : R)
      → P bad
      → P good
      → P (
          if not a
          then bad
          else if not b
          then bad
          else if not c
          then bad
          else if not d
          then bad
          else good)
  every_step P false b c d bad good p q = p
  every_step P true false c d bad good p q = p
  every_step P true true false d bad good p q = p
  every_step P true true true false bad good p q = p
  every_step P true true true true bad good p q = q

  listening-Undoes :
      {D : Type 0} (sockets : Sockets) (destroy : ℕ → D → D) (d : D) (net : Listening)
      (fd framesize : ℕ) (table : Dispatch F)
      → IsBounded table
      → net.socket ≡ some fd
      → Undoes sockets destroy d net table (
        some (fd, new_server framesize),
        [],
        dispatch_add flags unset table
            (pos fd)
            (pos flags.pollin)
            (some readyfn)
            (some errorfn)
            none
            self,
      )
  unfolding Undoes table_after
  listening-Undoes sockets destroy d net fd framesize table v e =
      let (v', els) =
        add-entries flags unset table fd (pos flags.pollin) (some readyfn) (some errorfn) none self
          v in
      let (before, after, p, q, v'', counts) =
        close-unwatched sockets destroy flags unset readyfn errorfn (λ _. self) fd d
          (new_server framesize) _ v' in
      let same : dispatch_add flags unset table (pos fd) (pos flags.pollin) (some readyfn)
            (some errorfn) none self
          ≡ before =
        some_inj _ _ p in
      (
        refl,
        e,
        after,
        q,
        v'',
        λ k.
            counts k
            ∙ same_others (fd == k) _ _ (
                ap (λ t. count (is_fd (pos k)) (entries t)) (sym same)
                ∙ count_more (is_fd (pos k)) _ _ _ (fd == k) els refl),
      )

  with-Undoes :
      {D : Type 0} (sockets : Sockets) (destroy : ℕ → D → D) (d : D) (net : Listening)
      (fd framesize : ℕ) (table : Dispatch F)
      → IsBounded table
      → net.memory ≡ true
      → net.socket ≡ some fd
      → Undoes sockets destroy d net table (open_with net fd framesize table)
  unfolding Undoes
  with-Undoes sockets destroy d net fd framesize table v e f =
      every_step (Undoes sockets destroy d net table) net.setsockopt net.inet_pton net.bind
        net.listen _ _ (rw e (rw f refl), refl)
        (listening-Undoes sockets destroy d net fd framesize table v f)

  -- From a table within its memory, whatever the system calls return: if `server_open` returns NULL,
  -- it has closed the socket that it has made and left the table alone. If it returns a server, the
  -- socket is open, and `server_close` then ends without a read outside the table and takes the
  -- entries of the listener out of it, and no others than were there before.
  pub open-Undoes :
      {D : Type 0} (sockets : Sockets) (destroy : ℕ → D → D) (d : D) (net : Listening)
      (framesize : ℕ) (table : Dispatch F)
      → IsBounded table
      → Undoes sockets destroy d net table (server_open net framesize table)
  unfolding server_open Undoes
  open-Undoes sockets destroy d net framesize table v = go net.memory net.socket refl refl
    where
      go :
          (memory : Bool) (socket : Option ℕ)
          → net.memory ≡ memory
          → net.socket ≡ socket
          → Undoes sockets destroy d net table (server_open net framesize table)
      go false socket e f = rw e (refl, refl)
      go true none e f = rw e (rw f (refl, refl))
      go true (some fd) e f =
          let opened : server_open net framesize table ≡ open_with net fd framesize table =
            rw e (rw f refl) in
          rw opened (with-Undoes sockets destroy d net fd framesize table v e f)
