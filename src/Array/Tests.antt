-- ===== src/Array/Tests.antt =====
-- Runs of lib/array.c on an array with room for a third element, and on a full one.
use daliserver.Common.{ℕ, ◌<◌, ◌≡◌, ◌↔◌, refl, none, some, ◌∷◌, [], arith}
use daliserver.Array.{Array, array_remove}
use daliserver.Array.Elements.{IsArray, remove-full}

abbrev two : Array ℕ
two = record { allocated = 4; length = 2; storage = some (10 ∷ 20 ∷ 0 ∷ 0 ∷ []) }

abbrev full : Array ℕ
full = record { allocated = 1; length = 1; storage = some (10 ∷ []) }

two-IsArray : IsArray two
two-IsArray = (refl, omega arith, omega arith)

full-IsArray : IsArray full
full-IsArray = (refl, omega arith, omega arith)

remove-full_example :
    (array_remove full 0 ≡ none) ↔ ((0 < full.length) × (full.length ≡ full.allocated))
remove-full_example = remove-full full 0 full-IsArray
