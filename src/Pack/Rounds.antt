-- ===== src/Pack/Rounds.antt =====
-- One round of the loops of lib/pack.c and whole formats: what `pack` writes for a directive is what
-- `unpack` reads there.
use daliserver.Common.{
  ℕ, zero, suc, ◌+◌, ◌*◌, ◌%◌, ◌^◌, ◌≤◌, ◌≡◌, refl, sym, ap, ◌∙◌, Bool, true, false, List, [], ◌∷◌,
  ◌++◌, arith, length, length-append, drop, some, if◌then◌else◌,
}
use mathlib.Core.Path.{subst}
use daliserver.Pack.Fields.{is_field, join-ordered, length-field, split_at-append, split_at-le}
use daliserver.Pack.{
  Directive, byte, ubyte, short, ushort, int, uint, long, ulong, float, double, skip, little, big,
  sys, other, directive, width, length_loop, pack_length, Machine, argument, field_bytes, Loop,
  pack_field, pack_step, pack_loop, Reader, read_field, unpack_step, unpack_loop, split_at, ordered,
  join_bytes,
}

abbrev needs : Directive → ℕ
needs d = if is_field d then 1 else 0

-- The arguments that a format takes, and the bytes that it spans.
unfoldable pub fields : List ℕ → ℕ
unfolding directive
fields [] = 0
fields (c ∷ format) = needs (directive c) + fields format

pub span : List ℕ → ℕ
span [] = 0
span (c ∷ format) = width (directive c) + span format

-- An argument as its field holds it: the lowest bits that fit.
abbrev pub kept : Machine → Directive → ℕ → ℕ
kept m d value = argument m d value % 2 ^ (8 * width d)

abbrev keep : Machine → Directive → (List ℕ → List ℕ) → List ℕ → List ℕ
keep m d rest [] = []
keep m d rest (value ∷ args) = kept m d value ∷ rest args

abbrev stored_step : Machine → Directive → (List ℕ → List ℕ) → List ℕ → List ℕ
stored_step m d rest args = if is_field d then keep m d rest args else rest args

-- What a reader of the format is to get for the arguments of a writer.
unfoldable pub stored : Machine → List ℕ → List ℕ → List ℕ
stored m [] args = []
stored m (c ∷ format) args = stored_step m (directive c) (stored m format) args

pub length_loop-span : (acc : ℕ) (format : List ℕ) → length_loop acc format ≡ acc + span format
unfolding length_loop span
length_loop-span acc [] = omega arith
length_loop-span acc (c ∷ format) =
    omega (arith, length_loop-span (acc + width (directive c)) format)

pub pack_length-span : (format : List ℕ) → pack_length format ≡ span format
unfolding pack_length
pack_length-span format = omega (arith, length_loop-span 0 format)

-- A writer and a reader that fit: the writer fills the first `w` bytes, keeps the others, and the
-- reader gets `values` of the arguments.
abbrev Fits : Loop → Reader → (List ℕ → List ℕ) → ℕ → ℕ → Type 0
Fits writer reader values n w =
    (is_little : Bool) (args out : List ℕ)
    → w ≤ length out
    → n ≤ length args
    → (out' : List ℕ) × (writer is_little args out ≡ some out')
      × (length out' ≡ length out)
      × (drop w out' ≡ drop w out)
      × (reader is_little out' ≡ some (values args))

drop-append : (xs ys : List ℕ) (w t : ℕ) → length xs ≡ w → drop (w + t) (xs ++ ys) ≡ drop t ys
drop-append [] ys w t h = ap (λ k. drop k ys) (omega arith)
drop-append (x ∷ xs) ys zero t h = absurd (omega arith)
drop-append (x ∷ xs) ys (suc w) t h =
    let e : suc w + t ≡ suc (w + t) = omega arith in
    ap (λ k. drop k (x ∷ xs ++ ys)) e ∙ drop-append xs ys w t (omega arith)

-- A field of `k` bytes in front of what the rest of the format wrote is read back first.
read_field-append :
    (reader : Reader) (is_little : Bool) (k : ℕ) (bytes out : List ℕ) {rest : List ℕ}
    → length bytes ≡ k
    → reader is_little out ≡ some rest
    → read_field (split_at k (bytes ++ out)) reader is_little (bytes ++ out)
      ≡ some (join_bytes 0 0 (ordered is_little bytes) ∷ rest)
read_field-append reader is_little k bytes out size q =
    ap (λ n. read_field (split_at n (bytes ++ out)) reader is_little (bytes ++ out)) (sym size)
    ∙ rw (split_at-append bytes out, q)

Written : Loop → Reader → (List ℕ → List ℕ) → ℕ → Bool → List ℕ → List ℕ → Type 0
Written writer reader values w is_little args out =
    (out' : List ℕ) × (writer is_little args out ≡ some out')
    × (length out' ≡ length out)
    × (drop w out' ≡ drop w out)
    × (reader is_little out' ≡ some (values args))

module _ (m : Machine) {writer : Loop} {reader : Reader} {values : List ℕ → List ℕ} {n w : ℕ}
    (next : Fits writer reader values n w) where
  field_Written :
      (d : Directive) (is_little : Bool) (v : ℕ) (args front rest out' : List ℕ)
      → is_field d ≡ true
      → length front ≡ width d
      → split_at (width d) (front ++ rest) ≡ some (front, rest)
      → writer is_little args rest ≡ some out'
      → length out' ≡ length rest
      → drop w out' ≡ drop w rest
      → reader is_little out' ≡ some (values args)
      → Written
          (pack_field m d writer)
          (λ is_little bytes. read_field (split_at (width d) bytes) reader is_little bytes)
          (keep m d values)
          (width d + w)
          is_little
          (v ∷ args)
          (front ++ rest)
  unfolding Written
  field_Written d is_little v args front rest out' h size e p len tail q =
      let bytes = field_bytes m d is_little v in
      let size' : length bytes ≡ width d = length-field d is_little (argument m d v) in
      (
        bytes ++ out',
        rw (e, p),
        omega (arith, length-append bytes out', length-append front rest),
        drop-append bytes out' (width d) w size'
            ∙ tail
            ∙ sym (drop-append front rest (width d) w size),
        read_field-append reader is_little (width d) bytes out' size' q
            ∙ ap (λ x. some (x ∷ values args)) (join-ordered d is_little (argument m d v) h),
      )

  field-Fits :
      (d : Directive)
      → is_field d ≡ true
      → Fits
          (pack_field m d writer)
          (λ is_little bytes. read_field (split_at (width d) bytes) reader is_little bytes)
          (keep m d values)
          (1 + n)
          (width d + w)
  unfolding Written
  field-Fits d h is_little [] out fits enough = absurd (omega arith)
  field-Fits d h is_little (v ∷ args) out fits enough =
      let (front, rest, e, join, size) = split_at-le (width d) out (omega arith) in
      let (out', p, len, tail, q) =
        next is_little args rest (omega (arith, ap length join, length-append front rest))
          (omega arith) in
      subst
        (Written (pack_field m d writer)
          (λ is_little bytes. read_field (split_at (width d) bytes) reader is_little bytes)
          (keep m d values) (width d + w) is_little (v ∷ args))
        (sym join)
        (field_Written d is_little v args front rest out' h size
          (ap (split_at (width d)) (sym join) ∙ e) p len tail q)

  skip-Fits : Fits (pack_step m skip writer) (unpack_step m skip reader) values n (1 + w)
  unfolding pack_step unpack_step
  skip-Fits is_little args [] fits enough = absurd (omega arith)
  skip-Fits is_little args (b ∷ out) fits enough =
      let (out', p, len, tail, q) = next is_little args out (omega arith) enough in
      let shift : (l : List ℕ) → drop (1 + w) (b ∷ l) ≡ drop w l =
        λ l. ap (λ k. drop k (b ∷ l)) (let e : 1 + w ≡ suc w = omega arith in e) in
      (b ∷ out', rw p, ap suc len, shift out' ∙ tail ∙ sym (shift out), q)

  order-Fits : Fits writer reader values (0 + n) (0 + w)
  order-Fits is_little args out fits enough =
      let (out', p, len, tail, q) = next is_little args out (omega arith) (omega arith) in
      let same : 0 + w ≡ w = omega arith in (out', p, len, rw same tail, q)

  step-Fits :
      (d : Directive)
      → Fits
          (pack_step m d writer)
          (unpack_step m d reader)
          (stored_step m d values)
          (needs d + n)
          (width d + w)
  unfolding pack_step unpack_step
  step-Fits skip = λ l a o f e. skip-Fits l a o f (omega arith)
  step-Fits little = λ _ a o f e. order-Fits true a o f e
  step-Fits big = λ _ a o f e. order-Fits false a o f e
  step-Fits sys = λ _ a o f e. order-Fits m.system_little a o f e
  step-Fits other = order-Fits
  step-Fits byte = field-Fits byte refl
  step-Fits ubyte = field-Fits ubyte refl
  step-Fits short = field-Fits short refl
  step-Fits ushort = field-Fits ushort refl
  step-Fits int = field-Fits int refl
  step-Fits uint = field-Fits uint refl
  step-Fits long = field-Fits long refl
  step-Fits ulong = field-Fits ulong refl
  step-Fits float = field-Fits float refl
  step-Fits double = field-Fits double refl

pub loop-Fits :
    (m : Machine) (format : List ℕ)
    → Fits
        (pack_loop m format)
        (unpack_loop m format)
        (stored m format)
        (fields format)
        (span format)
unfolding pack_loop unpack_loop stored fields span
loop-Fits m [] = λ is_little args out fits enough. (out, refl, refl, refl, refl)
loop-Fits m (c ∷ format) = step-Fits m (loop-Fits m format) (directive c)
