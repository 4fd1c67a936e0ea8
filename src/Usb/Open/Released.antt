-- ===== src/Usb/Open/Released.antt =====
-- What `usbdali_close` of lib/usb.c releases of what `usbdali_open` holds.
use daliserver.Common.{◌≡◌, refl, Bool, true, false, some, List, ◌∷◌, arith}
use daliserver.Common.Int.{ℤ}
use daliserver.Pack.{Machine}
use daliserver.Usb.{LibUsb}
use daliserver.Usb.Open.{
  Host, Act, Opened, exit_context, close_handle, attach_driver, release_interface, when,
  usbdali_open, usbdali_release,
}
use daliserver.Usb.Open.Held.{Held, nothing, held, held_open}
use daliserver.Usb.Open.Paths.{open-Leaves, is_asked, is_detached}

-- The array of descriptors, which the driver has no pointer to.
abbrev pub leak : Held
leak = record nothing { array = true }

release-leak :
    (own asked detached : Bool) (o : Opened) (acts : List Act)
    → (asked ≡ false → detached ≡ false)
    → held acts ≡ held_open asked detached (record nothing { context = own })
    → o.free_context ≡ own
    → o.detached ≡ asked
    → held (usbdali_release o acts) ≡ leak
unfolding usbdali_release
release-leak own asked detached o acts k e f g = rw (f, g) (go own asked k e)
  where
    go :
        (own asked : Bool)
        → (asked ≡ false → detached ≡ false)
        → held acts ≡ held_open asked detached (record nothing { context = own })
        → held (
            when own exit_context
              (close_handle ∷ when asked attach_driver (release_interface ∷ acts)))
          ≡ leak
    go true true k e = rw e refl
    go false true k e = rw e refl
    go true false k e = rw (e, k refl) refl
    go false false k e = rw (e, k refl) refl

-- Opening and closing: if `usbdali_open` returns a device, `usbdali_close` releases all that is held
-- once, but for the array of descriptors, which is leaked.
pub open-release :
    (lib : LibUsb) (m : Machine) (host : Host) (own : Bool) (busnum devnum : ℤ) (o : Opened)
    (acts : List Act)
    → usbdali_open lib m host own busnum devnum ≡ (some o, acts)
    → held (usbdali_release o acts) ≡ leak
open-release lib m host own busnum devnum o acts e =
    let (h, f, g) = rw e at (open-Leaves lib m host own busnum devnum) in
    release-leak own (is_asked lib m host own) (is_detached lib m host own) o acts (ground arith) h
      f g
