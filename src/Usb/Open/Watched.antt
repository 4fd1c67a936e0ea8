-- ===== src/Usb/Open/Watched.antt =====
-- Which device `usbdali_open` of lib/usb.c opens, and which descriptors of libusb are watched.
use mathlib.Core.List.{append_assoc, append-nil}
use daliserver.Common.{
  ℕ, ◌≡◌, refl, sym, ap, ◌∙◌, Bool, true, false, Option, none, some, List, [], ◌∷◌, ◌++◌,
  if◌then◌else◌,
}
use daliserver.Common.Int.{ℤ, pos, negsuc}
use daliserver.Dispatch.{PollFlags, Slot, Dispatch, dispatch_add, entries, events_of}
use daliserver.Dispatch.Add.{add-entries}
use daliserver.Dispatch.Remove.{IsBounded}
use daliserver.Usb.Open.{Device, search_devices, is_adapter, usbdali_add_pollfd, add_pollfds}

-- The first device that passes is found: no device before it does.
abbrev pub NonePass : ℤ → ℤ → List Device → Type 0
NonePass busnum devnum [] = Unit
NonePass busnum devnum (d ∷ devices) =
    (is_adapter busnum devnum d ≡ false) × NonePass busnum devnum devices

abbrev pub IsFirst : ℤ → ℤ → List Device → Option Device → Type 0
IsFirst busnum devnum devices none = NonePass busnum devnum devices
IsFirst busnum devnum devices (some d) =
    (before : List Device) × (after : List Device) × (devices ≡ before ++ d ∷ after)
    × NonePass busnum devnum before
    × (is_adapter busnum devnum d ≡ true)

IsFirst-cons :
    (busnum devnum : ℤ) (d : Device) (devices : List Device) (o : Option Device)
    → is_adapter busnum devnum d ≡ false
    → IsFirst busnum devnum devices o
    → IsFirst busnum devnum (d ∷ devices) o
IsFirst-cons busnum devnum d devices none e h = (e, h)
IsFirst-cons busnum devnum d devices (some d') e (before, after, p, none_pass, hit) =
    (d ∷ before, after, ap (λ l. d ∷ l) p, (e, none_pass), hit)

-- The search of `usbdali_find_device` finds the first adapter in the list of libusb that is at the
-- bus and the address, if these are given, and nothing if there is none.
pub search-IsFirst :
    (busnum devnum : ℤ) (devices : List Device)
    → IsFirst busnum devnum devices (search_devices busnum devnum devices)
unfolding search_devices
search-IsFirst busnum devnum [] = tt
search-IsFirst busnum devnum (d ∷ devices) =
    go (is_adapter busnum devnum d) refl (search-IsFirst busnum devnum devices)
  where
    go :
        (b : Bool)
        → is_adapter busnum devnum d ≡ b
        → IsFirst busnum devnum devices (search_devices busnum devnum devices)
        → IsFirst busnum devnum
            (d ∷ devices)
            (if b then some d else search_devices busnum devnum devices)
    go true e h = ([], devices, refl, tt, e)
    go false e h = IsFirst-cons busnum devnum d devices (search_devices busnum devnum devices) e h

module _ {F : Type 0} (flags : PollFlags) (unset : Slot F) (readyfn errorfn : F) (dali : ℕ) where
  -- The entries for the descriptors of libusb, negative ones left out.
  abbrev pub watched : List (ℤ × ℤ) → List (Slot F)
  watched [] = []
  watched ((negsuc n, events) ∷ fds) = watched fds
  watched ((pos fd, events) ∷ fds) =
      record {
        arg = dali;
        readyfn = some readyfn;
        errorfn = some errorfn;
        indexfn = none;
        fd = pos fd;
        events = events_of flags events;
        revents = 0;
      }
      ∷ watched fds

  -- The descriptors of libusb that are not negative are added to the table, in order, each with the
  -- functions of the driver; the table stays within its memory.
  pub pollfds-entries :
      (fds : List (ℤ × ℤ)) (table : Dispatch F)
      → IsBounded table
      → let table' = add_pollfds flags unset readyfn errorfn dali fds table in
        IsBounded table' × (entries table' ≡ entries table ++ watched fds)
  unfolding add_pollfds usbdali_add_pollfd dispatch_add
  pollfds-entries [] table v = (v, sym (append-nil (entries table)))
  pollfds-entries ((negsuc n, events) ∷ fds) table v = pollfds-entries fds table v
  pollfds-entries ((pos fd, events) ∷ fds) table v =
      let (v', e) =
        add-entries flags unset table fd events (some readyfn) (some errorfn) none dali v in
      let (v'', e') = pollfds-entries fds _ v' in
      (v'', e' ∙ ap (λ l. l ++ watched fds) e ∙ append_assoc (entries table) _ (watched fds))
