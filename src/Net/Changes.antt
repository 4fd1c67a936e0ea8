-- ===== src/Net/Changes.antt =====
-- What the server of lib/net.c does to the dispatch table is a list of calls of dispatch_add and
-- dispatch_remove_fd.
use daliserver.Common.{◌≡◌, refl, sym, ap, ◌∙◌, Option, none, some, List, [], ◌∷◌, ◌++◌, ℕ}
use daliserver.Common.Int.{pos, negsuc}
use daliserver.Dispatch.{PollFlags, Slot, Dispatch, ◌>>=◌}
use daliserver.Dispatch.Ahead.{Change, adds, removes, change_table, carry_all}
use daliserver.Net.{Action, write, close, register, unregister}
use daliserver.Net.Watched.{carry_out, table_after}

module _ {F : Type 0} (flags : PollFlags) where
  all-append :
      (changes : List (Change F)) (last : Change F) (d : Dispatch F)
      → carry_all flags (changes ++ last ∷ []) d
        ≡ carry_all flags changes d >>= change_table flags last
  all-append [] last d = alone (change_table flags last d)
    where
      alone : (o : Option (Dispatch F)) → (o >>= carry_all flags []) ≡ o
      alone none = refl
      alone (some d') = refl
  all-append (change ∷ changes) last d =
      next (change_table flags change d) (λ k. all-append changes last k)
    where
      next :
          (o : Option (Dispatch F))
          → ((k : Dispatch F)
              → carry_all flags (changes ++ last ∷ []) k
                ≡ carry_all flags changes k >>= change_table flags last)
          → (o >>= carry_all flags (changes ++ last ∷ []))
            ≡ ((o >>= carry_all flags changes) >>= change_table flags last)
      next none rest = refl
      next (some d') rest = rest d'

  module _ (unset : Slot F) (readyfn errorfn : F) (self : ℕ → ℕ) where
    -- The calls, in order; the actions have the latest first.
    abbrev pub changes_of : List Action → List (Change F)
    changes_of [] = []
    changes_of (register fd ∷ actions) =
        changes_of actions
        ++ adds unset fd (negsuc 0) (some readyfn) (some errorfn) none (self fd) ∷ []
    changes_of (unregister fd ∷ actions) = changes_of actions ++ removes (pos fd) ∷ []
    changes_of (write _ _ ∷ actions) = changes_of actions
    changes_of (close _ ∷ actions) = changes_of actions

    then_nothing : (o : Option (Dispatch F)) → elim o [ none ↦ none | some table ↦ some table ] ≡ o
    then_nothing none = refl
    then_nothing (some table) = refl

    then_last :
        (o : Option (Dispatch F)) (f : Dispatch F → Option (Dispatch F))
        → (o >>= f) ≡ elim o [ none ↦ none | some table ↦ f table ]
    then_last none f = refl
    then_last (some table) f = refl

    pub all-table_after :
        (actions : List Action) (d : Dispatch F)
        → carry_all flags (changes_of actions) d
          ≡ table_after flags unset readyfn errorfn self actions d
    unfolding table_after
    all-table_after [] d = refl
    all-table_after (register fd ∷ actions) d =
        all-append (changes_of actions) _ d
        ∙ ap (λ o. o >>= carry_out flags unset readyfn errorfn self (register fd))
            (all-table_after actions d)
        ∙ then_last (table_after flags unset readyfn errorfn self actions d)
            (carry_out flags unset readyfn errorfn self (register fd))
    all-table_after (unregister fd ∷ actions) d =
        all-append (changes_of actions) _ d
        ∙ ap (λ o. o >>= carry_out flags unset readyfn errorfn self (unregister fd))
            (all-table_after actions d)
        ∙ then_last (table_after flags unset readyfn errorfn self actions d)
            (carry_out flags unset readyfn errorfn self (unregister fd))
    all-table_after (write fd bytes ∷ actions) d = all-table_after actions d ∙ sym (then_nothing _)
    all-table_after (close fd ∷ actions) d = all-table_after actions d ∙ sym (then_nothing _)
