-- ===== src/Array.antt =====
-- lib/array.c: an array that grows by doubling. The memory is a list of cells, one element each, as
-- long as what is allocated (`storage` is the source's `data`); bytes beyond it cannot be read or written, which is `none`.
pub mod Elements
mod Tests
use mathlib.Core.Option
use daliserver.Common.{
  ℕ, zero, suc, ◌+◌, ◌-◌, ◌*◌, ◌==◌, Option, none, some, List, [], ◌∷◌, ◌++◌, ltb, leb,
  if◌then◌else◌, length, get_elem?, set, take, drop, replicate,
}

pub record Array (E : Type 0) : Type 0 where
  pub allocated : ℕ
  pub length : ℕ
  pub storage : Option (List E)

-- `memcpy` of `n` cells from `src` to `dst` in the same memory. The regions overlap in
-- `array_remove`; the copy is taken to go upwards, as for a move to lower addresses.
unfoldable pub memcpy : {E : Type 0} → List E → (dst src n : ℕ) → Option (List E)
memcpy cells dst src n =
    if leb (src + n) (length cells)
    then some (take dst cells ++ take n (drop src cells) ++ drop (dst + n) cells)
    else none

module _ {E : Type 0} where
  unfoldable pub array_new : Array E
  array_new = record { allocated = 0; length = 0; storage = none }

  unfoldable pub array_length : Array E → ℕ
  array_length a = a.length

  -- The element that the pointer points to.
  abbrev pub element : Option (List E) → ℕ → Option E
  element none index = none
  element (some cells) index = get_elem? cells index

  unfoldable pub array_get : Array E → ℕ → Option E
  array_get a index = if ltb index a.length then element a.storage index else none

  -- What `malloc` and `realloc` append is `unset`.
  abbrev pub allocate : E → Array E → Option (List E) → Array E
  allocate unset a none = record a { allocated = 1; storage = some (unset ∷ []) }
  allocate unset a (some cells) = a

  abbrev pub enlarge : E → Array E → Option (List E) → Array E
  enlarge unset a none = a
  enlarge unset a (some cells) =
      if ltb a.allocated (a.length + 1)
      then record a {
        allocated = a.allocated * 2;
        storage = some (cells ++ replicate (a.allocated * 2 - a.allocated) unset);
      }
      else a

  abbrev pub put_last : E → Array E → Option (List E) → Option (Array E × ℕ)
  put_last x a none = none
  put_last x a (some cells) =
      if ltb a.length (length cells)
      then some
          (record a { storage = some (set cells a.length x); length = a.length + 1 }, a.length)
      else none

  abbrev pub made : E → Array E → Array E
  made unset a = let b = allocate unset a a.storage in enlarge unset b b.storage

  -- The array and the index of the new element; `none` is a write outside the memory.
  unfoldable pub array_append : E → Array E → E → Option (Array E × ℕ)
  array_append unset a x = let b = made unset a in put_last x b b.storage

  abbrev pub shrink : Array E → List E → Array E
  shrink a cells =
      if a.length == 1
      then record { allocated = 0; length = 0; storage = none }
      else record a { storage = some cells; length = a.length - 1 }

  abbrev pub remove_cell : Array E → ℕ → Option (List E) → Option (Array E)
  remove_cell a index none = none
  remove_cell a index (some cells) =
      Option.map (shrink a) (memcpy cells index (index + 1) (a.length - index))

  -- `none` is an access outside the memory.
  unfoldable pub array_remove : Array E → ℕ → Option (Array E)
  unfolding memcpy
  array_remove a index = if ltb index a.length then remove_cell a index a.storage else some a
