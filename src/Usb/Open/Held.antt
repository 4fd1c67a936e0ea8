-- ===== src/Usb/Open/Held.antt =====
-- What is held of libusb on each way through `usbdali_open` and `usbdali_close` of lib/usb.c.
use daliserver.Common.{
  ◌≡◌, ap, ◌∙◌, Bool, true, false, not, ◌||◌, Option, none, some, List, [], ◌∷◌,
}
use daliserver.Usb.Open.{
  Act, Opened, init_context, exit_context, get_devices, free_devices, open_handle, close_handle,
  get_config, free_config, try_detach, detach_driver, attach_driver, claim_interface,
  release_interface, make_array, free_array, get_pollfds, free_pollfds, behind,
}

-- What is held. `faulted` says that something was released that is not held, or acquired twice.
pub record Held : Type 0 where
  pub context : Bool
  pub devices : Bool
  pub handle : Bool
  pub config : Bool
  pub asked : Bool
  pub driver : Bool
  pub interface : Bool
  pub array : Bool
  pub pollfds : Bool
  pub faulted : Bool

abbrev pub nothing : Held
nothing = record {
  context = false;
  devices = false;
  handle = false;
  config = false;
  asked = false;
  driver = false;
  interface = false;
  array = false;
  pollfds = false;
  faulted = false;
}

-- Detaching the driver of the kernel may fail; it is attached again once for each time that it was
-- asked to be detached, and no other time.
abbrev pub apply : Act → Held → Held
apply init_context h = record h { context = true; faulted = h.faulted || h.context }
apply exit_context h = record h { context = false; faulted = h.faulted || not h.context }
apply get_devices h = record h { devices = true; faulted = h.faulted || h.devices }
apply free_devices h = record h { devices = false; faulted = h.faulted || not h.devices }
apply open_handle h = record h { handle = true; faulted = h.faulted || h.handle }
apply close_handle h = record h { handle = false; faulted = h.faulted || not h.handle }
apply get_config h = record h { config = true; faulted = h.faulted || h.config }
apply free_config h = record h { config = false; faulted = h.faulted || not h.config }
apply try_detach h = record h { asked = true; faulted = h.faulted || h.asked }
apply detach_driver h = record h { driver = true; faulted = h.faulted || h.driver || not h.asked }
apply attach_driver h = record h {
  asked = false;
  driver = false;
  faulted = h.faulted || not h.asked;
}
apply claim_interface h = record h { interface = true; faulted = h.faulted || h.interface }
apply release_interface h = record h { interface = false; faulted = h.faulted || not h.interface }
apply make_array h = record h { array = true; faulted = h.faulted || h.array }
apply free_array h = record h { array = false; faulted = h.faulted || not h.array }
apply get_pollfds h = record h { pollfds = true; faulted = h.faulted || h.pollfds }
apply free_pollfds h = record h { pollfds = false; faulted = h.faulted || not h.pollfds }

abbrev pub held : List Act → Held
held [] = nothing
held (a ∷ acts) = apply a (held acts)

-- What an open device holds; the array of descriptors is never freed.
abbrev pub held_open : (asked driver : Bool) → Held → Held
held_open asked driver h = record h {
  handle = true;
  asked = asked;
  config = false;
  driver = driver;
  interface = true;
  array = true;
}

-- A way through the code either returns nothing and holds what it held before, or the device.
abbrev pub Leaves : (own detached : Bool) → Held → Held → Option Opened × List Act → Type 0
Leaves own detached before opened (none, acts) = held acts ≡ before
Leaves own detached before opened (some o, acts) =
    (held acts ≡ opened) × (o.free_context ≡ own) × (o.detached ≡ detached)

pub Leaves-behind :
    (own detached : Bool) (before before' opened : Held) (act : Act) (r : Option Opened × List Act)
    → apply act before ≡ before'
    → Leaves own detached before opened r
    → Leaves own detached before' opened (behind (λ a. act ∷ a) r)
Leaves-behind own detached before before' opened act (none, acts) e h = ap (apply act) h ∙ e
Leaves-behind own detached before before' opened act (some o, acts) e h = h
