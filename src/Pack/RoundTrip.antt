-- ===== src/Pack/RoundTrip.antt =====
-- A whole call of `pack` in lib/pack.c, and of `unpack` on what it leaves.
use daliserver.Common.{
  ℕ, ◌+◌, ◌≤◌, ◌≡◌, ◌<◌, [], ◌∷◌, none, ◌==◌, if◌then◌else◌, sym, true, false, List, arith, length,
  drop, some, Option, ltb, ◌↔◌,
}
use mathlib.Core.Path.{subst}
use daliserver.Pack.{
  directive, width, length_loop, pack_length, Machine, pack, packed, Packed, unpack, Unpacked,
  unpacked, too_small,
}
use daliserver.Pack.Rounds.{pack_length-span, fields, stored, loop-Fits}

-- Into a buffer of at least the format's length, and with an argument for each field, `pack`
-- succeeds and stores the format's length in the size. It keeps the buffer's length and the bytes
-- behind the format. `unpack` with the same format then succeeds and gives every argument back,
-- cut to the bits that its field holds (a float as its 32 bits).
pub unpack-pack :
    (m : Machine) (format buffer args : List ℕ) (block : Option (List ℕ)) (size : ℕ)
    → pack_length format ≤ size
    → size ≤ length buffer
    → fields format ≤ length args
    → (out : List ℕ) × (pack m format (some buffer) (some size) block args
        ≡ packed out (some (pack_length format)))
      × (length out ≡ length buffer)
      × (drop (pack_length format) out ≡ drop (pack_length format) buffer)
      × (unpack m format (some out) (some size) ≡ unpacked (stored m format args))
unfolding pack unpack
unpack-pack m format buffer args block size fits room enough =
    let e = pack_length-span format in
    let ok : ltb size (pack_length format) ≡ false = ground arith in
    let (out, p, len, tail, q) =
      loop-Fits m format m.system_little args buffer (omega arith) enough in
    (out, rw (ok, p), len, subst (λ k. drop k out ≡ drop k buffer) (sym e) tail, rw (ok, q))

-- The number of bytes for each character of a format; the others take none.
abbrev pub sizes : List (ℕ × ℕ)
sizes =
    (b'c', 1)
    ∷ (b'C', 1)
    ∷ (b' ', 1)
    ∷ (b's', 2)
    ∷ (b'S', 2)
    ∷ (b'i', 4)
    ∷ (b'I', 4)
    ∷ (b'f', 4)
    ∷ (b'l', 8)
    ∷ (b'L', 8)
    ∷ (b'd', 8)
    ∷ []

abbrev pub size_in : List (ℕ × ℕ) → ℕ → ℕ
size_in [] c = 0
size_in ((k, size) ∷ rest) c = if c == k then size else size_in rest c

-- The bytes that a format needs.
abbrev pub needed : List ℕ → ℕ
needed [] = 0
needed (c ∷ format) = size_in sizes c + needed format

width-size : (c : ℕ) → width (directive c) ≡ size_in sizes c
unfolding directive
width-size c = ground arith

length_loop-needed : (n : ℕ) (format : List ℕ) → length_loop n format ≡ n + needed format
unfolding length_loop
length_loop-needed n [] = omega arith
length_loop-needed n (c ∷ format) =
    omega (arith, length_loop-needed (n + width (directive c)) format, width-size c)

pub pack_length-needed : (format : List ℕ) → pack_length format ≡ needed format
unfolding pack_length
pack_length-needed format = omega (arith, length_loop-needed 0 format)

-- There is no size, or it is less than what is needed.
abbrev pub LacksRoom : Option ℕ → ℕ → Type 0
LacksRoom none n = Unit
LacksRoom (some size) n = size < n

too_small_iff : (size : Option ℕ) (n : ℕ) → (too_small size n ≡ true) ↔ LacksRoom size n
too_small_iff none n = ground arith
too_small_iff (some size) n = ground arith

-- With a buffer, `pack` and `unpack` refuse with EINVAL exactly when there is no size or it is less
-- than the bytes that the format needs: one for each c, C and blank, two for s and S, four for i, I
-- and f, eight for l, L and d, and none for other characters. The arguments and what the buffer
-- holds make no difference.
pub pack_invalid_iff :
    (m : Machine) (format buffer args : List ℕ) (block : Option (List ℕ)) (size : Option ℕ)
    → ((pack m format (some buffer) size block args ≡ Packed.invalid)
        ↔ LacksRoom size (needed format))
      × ((unpack m format (some buffer) size ≡ Unpacked.invalid) ↔ LacksRoom size (needed format))
unfolding pack unpack
pack_invalid_iff m format buffer args block size =
    ground (arith, too_small_iff size (needed format), pack_length-needed format)
