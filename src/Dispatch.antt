-- ===== src/Dispatch.antt =====
-- lib/dispatch.c: the table of file descriptors that poll() waits for. The two arrays `entries`
-- and `fds` have the same length and are always indexed alike, so they are one list of slots here,
-- as long as the memory that is allocated. Handlers are names of a type `F` of functions.
pub mod Remove
pub mod Add
pub mod Cleared
pub mod Run
pub mod Ahead
pub mod Returns
mod Tests
use mathlib.Core.Option
use daliserver.Common.{
  ℕ, zero, suc, ◌+◌, ◌-◌, bit_and, Bool, true, false, not, Option, none, some, List, [], ◌∷◌, ◌++◌,
  ltb, ◌==◌, if◌then◌else◌, get_elem?, set, take, replicate,
}
use daliserver.Common.Int.{ℤ, pos, negsuc, eq_ℤ}

pub data DispatchError : Type 0 where
  fd_closed poll_error fd_invalid : DispatchError

-- The results of `dispatch_run`: 0, 1, 2 and 3.
pub data DispatchStatus : Type 0 where
  failed timeout event_handled no_events : DispatchStatus

-- The flags of poll().
pub record PollFlags : Type 0 where
  pub pollin : ℕ
  pub pollerr : ℕ
  pub pollhup : ℕ
  pub pollnval : ℕ

-- A `struct DispatchEntry` and the `struct pollfd` at the same index.
pub record Slot (F : Type 0) : Type 0 where
  pub arg : ℕ
  pub readyfn : Option F
  pub errorfn : Option F
  pub indexfn : Option F
  pub fd : ℤ
  pub events : ℕ
  pub revents : ℕ

-- `notices` are the calls of index functions, the latest first.
pub record Dispatch (F : Type 0) : Type 0 where
  pub numentries : ℕ
  pub allocentries : ℕ
  pub slots : List (Slot F)
  pub notices : List (F × ℕ × ℕ)

pub data Invocation (F : Type 0) : Type 0 where
  ready : F → ℕ → Invocation F
  error : F → ℕ → DispatchError → Invocation F

abbrev pub alloc_increase : ℕ
alloc_increase = 4

abbrev pub events_of : PollFlags → ℤ → ℕ
events_of flags (negsuc n) = flags.pollin
events_of flags (pos events) = events

abbrev pub has : ℕ → ℕ → Bool
has revents flag = not (bit_and revents flag == 0)

module _ {F : Type 0} where
  unfoldable pub dispatch_new : Dispatch F
  dispatch_new = record { numentries = 0; allocentries = 0; slots = []; notices = [] }

  abbrev pub notify : Option F → ℕ → ℕ → List (F × ℕ × ℕ) → List (F × ℕ × ℕ)
  notify none arg index notices = notices
  notify (some f) arg index notices = (f, arg, index) ∷ notices

  -- `realloc` keeps the slots and appends unset ones; `unset` is what they hold.
  abbrev pub grow : Slot F → Dispatch F → Dispatch F
  grow unset d =
      if ltb d.allocentries (d.numentries + 1)
      then record d {
        allocentries = d.allocentries + alloc_increase;
        slots = d.slots ++ replicate alloc_increase unset;
      }
      else d

  abbrev pub store : Slot F → Dispatch F → Dispatch F
  store s d = record d {
    slots = set d.slots d.numentries s;
    notices = notify s.indexfn s.arg d.numentries d.notices;
    numentries = d.numentries + 1;
  }

  -- A negative descriptor is ignored. Of the negative events the program uses -1 only.
  unfoldable pub dispatch_add :
      PollFlags → Slot F → Dispatch F → ℤ → ℤ → Option F → Option F → Option F → ℕ → Dispatch F
  dispatch_add flags unset d (negsuc n) events readyfn errorfn indexfn arg = d
  dispatch_add flags unset d (pos fd) events readyfn errorfn indexfn arg =
      store
        (record {
          arg = arg;
          readyfn = readyfn;
          errorfn = errorfn;
          indexfn = indexfn;
          fd = pos fd;
          events = events_of flags events;
          revents = 0;
        })
        (grow unset d)

  -- The last slot moves to the index; `none` is a read outside the table.
  abbrev pub move_last : Dispatch F → ℕ → Option (Slot F) → Option (Dispatch F)
  move_last d index none = none
  move_last d index (some last) = some (record d {
    slots = set d.slots index last;
    notices = notify last.indexfn last.arg index d.notices;
    numentries = d.numentries - 1;
  })

  unfoldable pub dispatch_remove : Dispatch F → ℕ → Option (Dispatch F)
  dispatch_remove d index =
      if ltb index d.numentries
      then if index == d.numentries - 1
        then some (record d { numentries = d.numentries - 1 })
        else move_last d index (get_elem? d.slots (d.numentries - 1))
      else some d

  infixl 5 ◌>>=◌
  abbrev pub ◌>>=◌ {ℓ} : {A : Type ℓ} → Option A → (A → Option (Dispatch F)) → Option (Dispatch F)
  none >>= f = none
  some x >>= f = f x

  -- The loop at index `i`. After a removal `i--` and `i++` leave the index where it was. `none` is a
  -- read outside the table, or not enough fuel.
  pub remove_loop : ℕ → ℕ → ℤ → Dispatch F → Option (Dispatch F)
  remove_loop zero i fd d = if ltb i d.numentries then none else some d
  remove_loop (suc fuel) i fd d =
      let next = do
        s ← get_elem? d.slots i
        if eq_ℤ s.fd fd
            then (do d' ← dispatch_remove d i; remove_loop fuel i fd d')
            else remove_loop fuel (i + 1) fd d
      in if ltb i d.numentries then next else some d

  -- Each round removes an entry or passes one, so the number of entries bounds the rounds.
  unfoldable pub dispatch_remove_fd : Dispatch F → ℤ → Option (Dispatch F)
  unfolding remove_loop
  dispatch_remove_fd d fd = remove_loop d.numentries 0 fd d

  abbrev pub failure : DispatchError → Slot F → Option (Invocation F)
  failure err s = elim s.errorfn [ none ↦ none | some f ↦ some (error f s.arg err) ]

  -- Which function is called for a slot, if any.
  unfoldable pub reaction : PollFlags → Slot F → Option (Invocation F)
  reaction flags s =
      if has s.revents flags.pollnval
      then failure fd_invalid s
      else if has s.revents flags.pollerr
      then failure poll_error s
      else if has s.revents flags.pollhup
      then failure fd_closed s
      else if has s.revents s.events
      then elim s.readyfn [ none ↦ none | some f ↦ some (ready f s.arg) ]
      else none

-- The table that the program sees: the slots in use.
abbrev pub entries : {F : Type 0} → Dispatch F → List (Slot F)
entries d = take d.numentries d.slots

-- What poll() reports: the flags of each descriptor, in order.
abbrev pub set_revents : {F : Type 0} → List ℕ → List (Slot F) → List (Slot F)
set_revents [] slots = slots
set_revents (r ∷ revents) [] = []
set_revents (r ∷ revents) (s ∷ slots) = record s { revents = r } ∷ set_revents revents slots

-- The functions that are called may change the table, and the state `E` of the program.
abbrev pub Handlers : Type 0 → Type 0 → Type 0
Handlers F E = Invocation F → Dispatch F × E → Dispatch F × E

module _ {F E : Type 0} (flags : PollFlags) (run : Handlers F E) where
  abbrev pub perform : Option (Invocation F) → Dispatch F × E → Dispatch F × E
  perform none s = s
  perform (some call) s = run call s

  abbrev pub visit :
      Option (Slot F)
      → Dispatch F × E
      → (Dispatch F × E → Option (Dispatch F × E))
      → Option (Dispatch F × E)
  visit none s next = none
  visit (some slot) s next = next (perform (reaction flags slot) s)

  -- The loop at index `i`. `none` is a read outside the table, or not enough fuel.
  pub run_loop : ℕ → ℕ → Dispatch F × E → Option (Dispatch F × E)
  run_loop zero i s = if ltb i s.0.numentries then none else some s
  run_loop (suc fuel) i s =
      if ltb i s.0.numentries
      then visit (get_elem? s.0.slots i) s (run_loop fuel (i + 1))
      else some s

  -- `polled` is the result of poll(), and `revents` what it stores.
  unfoldable pub dispatch_run :
      ℕ
      → (polled : ℤ) → (revents : List ℕ) → Dispatch F × E
      → Option ((Dispatch F × E) × DispatchStatus)
  unfolding run_loop
  dispatch_run fuel (negsuc n) revents s = some (s, timeout)
  dispatch_run fuel (pos zero) revents s = some (s, timeout)
  dispatch_run fuel (pos (suc n)) revents (d, e) =
      Option.map (λ r. (r, event_handled))
        (run_loop fuel 0 (record d { slots = set_revents revents d.slots }, e))
