-- ===== src/Pack.antt =====
-- lib/pack.c: values to bytes and back, under a format string. A buffer is the list of its bytes,
-- and the pointers `out` and `in` are the part of the buffer that they have not passed yet.
-- `none` from a loop is an access outside the buffer, or a missing variable argument.
pub mod Fields
pub mod Rounds
pub mod RoundTrip
mod Tests
use mathlib.Core.List.{reverse}
use mathlib.Core.Option
use daliserver.Common.{
  ℕ, zero, suc, ◌+◌, ◌*◌, ◌/◌, ◌%◌, ◌^◌, bit_or, Bool, true, false, ◌&&◌, Option, none, some, List,
  [], ◌∷◌, ◌++◌, ltb, ◌==◌, if◌then◌else◌, is_some,
}

-- The characters of the enumeration; any other does nothing.
pub data Directive : Type 0 where
  byte ubyte short ushort int uint long ulong float double : Directive
  skip little big sys other : Directive

unfoldable pub directive : ℕ → Directive
directive c =
    if c == b'c'
    then byte
    else if c == b'C'
    then ubyte
    else if c == b's'
    then short
    else if c == b'S'
    then ushort
    else if c == b'i'
    then int
    else if c == b'I'
    then uint
    else if c == b'l'
    then long
    else if c == b'L'
    then ulong
    else if c == b'f'
    then float
    else if c == b'd'
    then double
    else if c == b' '
    then skip
    else if c == b'<'
    then little
    else if c == b'>'
    then big
    else if c == b'='
    then sys
    else other

-- What a directive adds to the length.
abbrev pub width : Directive → ℕ
width byte = 1
width ubyte = 1
width skip = 1
width short = 2
width ushort = 2
width int = 4
width uint = 4
width float = 4
width long = 8
width ulong = 8
width double = 8
width _ = 0

pub length_loop : ℕ → List ℕ → ℕ
length_loop length [] = length
length_loop length (c ∷ format) = length_loop (length + width (directive c)) format

unfoldable pub pack_length : List ℕ → ℕ
unfolding length_loop directive
pack_length format = length_loop 0 format

-- What the build and the compiler fix: the byte order of the system, and the conversion of a
-- double to a float, on their bit patterns.
pub record Machine : Type 0 where
  pub system_little : Bool
  pub float_bits : ℕ → ℕ

-- `(value >> shift) & 0xff` for `n` shifts in steps of 8.
pub shifted_bytes : ℕ → ℕ → ℕ → List ℕ
shifted_bytes zero shift value = []
shifted_bytes (suc n) shift value = (value / 2 ^ shift % 256) ∷ shifted_bytes n (shift + 8) value

-- `acc | (in[0] << shift) | (in[1] << (shift + 8)) | …`
pub join_bytes : ℕ → ℕ → List ℕ → ℕ
join_bytes acc shift [] = acc
join_bytes acc shift (b ∷ bytes) = join_bytes (bit_or acc (b * 2 ^ shift)) (shift + 8) bytes

-- The lowest byte comes first in little endian order and last in big endian order.
abbrev pub ordered : Bool → List ℕ → List ℕ
ordered is_little bytes = if is_little then bytes else reverse bytes

-- `n` bytes at the pointer, and the rest behind them.
pub split_at : ℕ → List ℕ → Option (List ℕ × List ℕ)
split_at zero bytes = some ([], bytes)
split_at (suc n) [] = none
split_at (suc n) (b ∷ bytes) = Option.map (λ (front, rest). (b ∷ front, rest)) (split_at n bytes)

-- Skipping moves the pointer and reads nothing.
abbrev pub Loop : Type 0
Loop = Bool → List ℕ → List ℕ → Option (List ℕ)

abbrev pub Reader : Type 0
Reader = Bool → List ℕ → Option (List ℕ)

abbrev pub pack_skip : List ℕ → (List ℕ → Option (List ℕ)) → Option (List ℕ)
pack_skip [] next = next []
pack_skip (b ∷ out) next = Option.map (λ rest. b ∷ rest) (next out)

abbrev pub put : List ℕ → Option (List ℕ × List ℕ) → (List ℕ → Option (List ℕ)) → Option (List ℕ)
put bytes none next = none
put bytes (some (_, rest)) next = Option.map (λ packed. bytes ++ packed) (next rest)

abbrev pub read_field : Option (List ℕ × List ℕ) → Reader → Reader
read_field none next is_little bytes = none
read_field (some (field, rest)) next is_little bytes =
    Option.map (λ values. join_bytes 0 0 (ordered is_little field) ∷ values) (next is_little rest)

abbrev pub read_skip : List ℕ → (List ℕ → Option (List ℕ)) → Option (List ℕ)
read_skip [] next = next []
read_skip (b ∷ bytes) next = next bytes

module _ (m : Machine) where
  -- The variable argument of a field, as the bytes are taken from it.
  abbrev pub argument : Directive → ℕ → ℕ
  argument float value = m.float_bits value
  argument _ value = value

  abbrev pub field_bytes : Directive → Bool → ℕ → List ℕ
  field_bytes d is_little value = ordered is_little (shifted_bytes (width d) 0 (argument d value))

  abbrev pub pack_field : Directive → Loop → Loop
  pack_field d next is_little [] out = none
  pack_field d next is_little (value ∷ args) out =
      put (field_bytes d is_little value) (split_at (width d) out) (next is_little args)

  -- One round of the loop of `pack`, for each case of its `switch`.
  pub pack_step : Directive → Loop → Loop
  pack_step skip next is_little args out = pack_skip out (next is_little args)
  pack_step little next is_little args out = next true args out
  pack_step big next is_little args out = next false args out
  pack_step sys next is_little args out = next m.system_little args out
  pack_step other next is_little args out = next is_little args out
  pack_step d next is_little args out = pack_field d next is_little args out

  pub pack_loop : List ℕ → Loop
  pack_loop [] is_little args out = some out
  pack_loop (c ∷ format) is_little args out =
      pack_step (directive c) (pack_loop format) is_little args out

  -- One round of the loop of `unpack`; the result lists what it stores through its pointers.
  pub unpack_step : Directive → Reader → Reader
  unpack_step skip next is_little bytes = read_skip bytes (next is_little)
  unpack_step little next is_little bytes = next true bytes
  unpack_step big next is_little bytes = next false bytes
  unpack_step sys next is_little bytes = next m.system_little bytes
  unpack_step other next is_little bytes = next is_little bytes
  unpack_step d next is_little bytes = read_field (split_at (width d) bytes) next is_little bytes

  pub unpack_loop : List ℕ → Reader
  unpack_loop [] is_little bytes = some []
  unpack_loop (c ∷ format) is_little bytes =
      unpack_step (directive c) (unpack_loop format) is_little bytes

-- NULL for the size, or a size below the length.
abbrev pub too_small : Option ℕ → ℕ → Bool
too_small none length = true
too_small (some size) length = ltb size length

-- `pack` fails with EINVAL or ENOMEM, or returns the buffer and what it stores in `*size`.
pub data Packed : Type 0 where
  invalid no_memory fault : Packed
  packed : List ℕ → Option ℕ → Packed

abbrev pub finish_pack : Option (List ℕ) → Option ℕ → Packed
finish_pack none size = fault
finish_pack (some buffer) size = packed buffer size

abbrev pub pack_into : Machine → List ℕ → Option ℕ → List ℕ → List ℕ → Packed
pack_into m format size args buffer =
    finish_pack (pack_loop m format m.system_little args buffer)
      (Option.map (λ _. pack_length format) size)

-- `block` is what `malloc` returns where no buffer is given.
unfoldable pub pack :
    Machine → List ℕ → Option (List ℕ) → Option ℕ → (block : Option (List ℕ)) → List ℕ → Packed
unfolding pack_length pack_loop pack_step split_at shifted_bytes
pack m format none size none args = no_memory
pack m format none size (some block) args = pack_into m format size args block
pack m format (some buffer) size block args =
    if too_small size (pack_length format) then invalid else pack_into m format size args buffer

pub data Unpacked : Type 0 where
  invalid fault : Unpacked
  unpacked : List ℕ → Unpacked

abbrev pub finish_unpack : Option (List ℕ) → Unpacked
finish_unpack none = fault
finish_unpack (some values) = unpacked values

unfoldable pub unpack : Machine → List ℕ → Option (List ℕ) → Option ℕ → Unpacked
unfolding pack_length unpack_loop unpack_step split_at join_bytes
unpack m format none size = finish_unpack (unpack_loop m format m.system_little [])
unpack m format (some bytes) size =
    if too_small size (pack_length format)
    then invalid
    else finish_unpack (unpack_loop m format m.system_little bytes)
