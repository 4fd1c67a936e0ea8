-- ===== src/Ipc/Register.antt =====
-- The entry of lib/ipc.c in the dispatch table.
use mathlib.Core.Option
use daliserver.Common.{ℕ, ◌≡◌, refl, ap, Bool, true, false, none, some, arith, if◌then◌else◌}
use daliserver.Common.Int.{pos}
use daliserver.Common.Counting.{but, count_more, one_if, count}
use daliserver.Dispatch.{PollFlags, Slot, Dispatch, entries, dispatch_remove_fd}
use daliserver.Dispatch.Cleared.{Cleared, Without-Cleared}
use daliserver.Dispatch.Add.{add-entries}
use daliserver.Dispatch.Remove.{IsBounded, is_fd, remove_fd-Without}
use daliserver.Ipc.{Ipc, ipc_read_socket, unregister, add_read_socket, ipc_register, ipc_free}

module _ {F : Type 0} where
  -- The table is within its memory, and has an entry for the socket just if the pair is registered.
  pub record IsRegistered (ipc : Ipc) (table : Dispatch F) : Type 0 where
    pub bounded : IsBounded table
    pub own : count (is_fd (pos (ipc_read_socket ipc))) (entries table) ≡ one_if ipc.dispatch

  unregister-Cleared :
      (flags : PollFlags) (unset : Slot F) (readyfn : F) (self : ℕ) (ipc : Ipc) (table : Dispatch F)
      → IsRegistered ipc table
      → (table' : Dispatch F) × (unregister flags unset readyfn self ipc table ≡ some table')
        × Cleared (pos (ipc_read_socket ipc)) table table'
  unregister-Cleared flags unset readyfn self ipc table v = go ipc.dispatch v.own
    where
      go :
          (b : Bool)
          → count (is_fd (pos (ipc_read_socket ipc))) (entries table) ≡ one_if b
          → (table' : Dispatch F) × ((if b
                then dispatch_remove_fd table (pos (ipc_read_socket ipc))
                else some table)
              ≡ some table')
            × Cleared (pos (ipc_read_socket ipc)) table table'
      go true e =
          let (table', p, w) = remove_fd-Without table (pos (ipc_read_socket ipc)) v.bounded in
          (table', p, Without-Cleared (pos (ipc_read_socket ipc)) table table' w)
      go false e = (table, refl, record { bounded = v.bounded; none_left = e; others = λ p. refl })

  -- `ipc_register` ends, registered before or not, and leaves exactly one entry for the socket that
  -- is read; the entries of other descriptors stay, by every test.
  pub register_once :
      (flags : PollFlags) (unset : Slot F) (readyfn : F) (self : ℕ) (ipc : Ipc) (table : Dispatch F)
      → IsRegistered ipc table
      → (table' : Dispatch F) × (ipc_register flags unset readyfn self ipc table
          ≡ some (record ipc { dispatch = true }, table'))
        × IsRegistered (record ipc { dispatch = true }) table'
        × ((p : Slot F → Bool)
            → count (but p (is_fd (pos (ipc_read_socket ipc)))) (entries table')
              ≡ count (but p (is_fd (pos (ipc_read_socket ipc)))) (entries table))
  unfolding ipc_register ipc_read_socket
  register_once flags unset readyfn self ipc table v =
      let (cleared, e, c) = unregister-Cleared flags unset readyfn self ipc table v in
      let (bounded, els) =
        add-entries flags unset cleared ipc.socket_0 (pos flags.pollin) (some readyfn) none none
          self c.bounded in
      (
        _,
        ap (λ o. Option.map (add_read_socket flags unset readyfn self ipc) o) e,
        record {
          bounded = bounded;
          own = omega (
            arith,
            count_more (is_fd (pos ipc.socket_0)) _ _ _ true els (ground arith),
            c.none_left,
          );
        },
        λ p. omega (
          arith,
          count_more (but p (is_fd (pos ipc.socket_0))) _ _ _ false els (ground arith),
          c.others p,
        ),
      )

  -- `ipc_free` ends and leaves no entry for the socket; the entries of other descriptors stay.
  pub free_none :
      (flags : PollFlags) (unset : Slot F) (readyfn : F) (self : ℕ) (ipc : Ipc) (table : Dispatch F)
      → IsRegistered ipc table
      → (table' : Dispatch F) × (ipc_free flags unset readyfn self ipc table ≡ some table')
        × (count (is_fd (pos (ipc_read_socket ipc))) (entries table') ≡ 0)
        × ((p : Slot F → Bool)
            → count (but p (is_fd (pos (ipc_read_socket ipc)))) (entries table')
              ≡ count (but p (is_fd (pos (ipc_read_socket ipc)))) (entries table))
  unfolding ipc_free
  free_none flags unset readyfn self ipc table v =
      let (table', e, c) = unregister-Cleared flags unset readyfn self ipc table v in
      (table', e, c.none_left, c.others)
