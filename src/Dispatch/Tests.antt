-- ===== src/Dispatch/Tests.antt =====
-- Runs of lib/dispatch.c on a small table.
use daliserver.Common.{ℕ, ◌≡◌, refl, none, some, [], ◌∷◌, arith}
use daliserver.Common.Int.{pos}
use daliserver.Dispatch.{
  PollFlags, Slot, Dispatch, ready, error, fd_closed, event_handled, dispatch_remove,
  dispatch_remove_fd, dispatch_run, set_revents,
}
use daliserver.Dispatch.Remove.{IsBounded, Without, remove_fd-Without}
use daliserver.Dispatch.Run.{write_down, run-reactions}

abbrev flags : PollFlags
flags = record { pollin = 1; pollerr = 8; pollhup = 16; pollnval = 32 }

abbrev slot : ℕ → ℕ → Slot ℕ
slot fd arg = record {
  arg = arg;
  readyfn = some 100;
  errorfn = some 200;
  indexfn = none;
  fd = pos fd;
  events = 1;
  revents = 0;
}

abbrev three : Dispatch ℕ
three = record {
  numentries = 3;
  allocentries = 4;
  slots = slot 5 1 ∷ slot 6 2 ∷ slot 5 3 ∷ slot 0 0 ∷ [];
  notices = [];
}

three-IsBounded : IsBounded three
three-IsBounded = record { within = omega arith; allocated = refl }

three_closes :
    dispatch_remove_fd three (pos 5)
    ≡ some (record three { numentries = 1; slots = slot 6 2 ∷ slot 6 2 ∷ slot 5 3 ∷ slot 0 0 ∷ [] })
unfolding dispatch_remove_fd dispatch_remove
three_closes = refl

remove_fd-Without_example :
    (d' : Dispatch ℕ) × (dispatch_remove_fd three (pos 5) ≡ some d') × Without (pos 5) three d'
remove_fd-Without_example = remove_fd-Without three (pos 5) three-IsBounded

run-reactions_example :
    let d' = record three { slots = set_revents (1 ∷ 16 ∷ 0 ∷ []) three.slots } in
    dispatch_run flags (write_down flags) 3 (pos 2) (1 ∷ 16 ∷ 0 ∷ []) (three, [])
    ≡ some ((d', ready 100 1 ∷ error 200 2 fd_closed ∷ []), event_handled)
run-reactions_example = run-reactions flags 1 (1 ∷ 16 ∷ 0 ∷ []) three [] three-IsBounded
