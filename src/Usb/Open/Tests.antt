-- ===== src/Usb/Open/Tests.antt =====
-- Runs of `usbdali_open` of lib/usb.c: an adapter behind another device, with a driver of the kernel
-- that is detached.
use daliserver.Common.{ℕ, ◌+◌, ◌≡◌, refl, arith, true, none, some, List, [], ◌∷◌, length}
use daliserver.Common.Int.{ℤ, pos, negsuc}
use daliserver.Dispatch.{PollFlags, Slot, dispatch_new}
use daliserver.Dispatch.Remove.{IsBounded}
use daliserver.Pack.{Machine}
use daliserver.Usb.{LibUsb, usbdali_next, initial}
use daliserver.Usb.Open.{
  Device, Host, Opened, Act, usbdali_open, usbdali_find_device, usbdali_release, search_devices,
}
use daliserver.Usb.Open.Held.{Leaves, nothing, held, held_open}
use daliserver.Usb.Open.Paths.{is_detached, open-Leaves}
use daliserver.Usb.Open.Released.{leak, open-release}

abbrev machine : Machine
machine = record { system_little = true; float_bits = λ b. b }

abbrev accepting : LibUsb
accepting = record { alloc_transfer = λ calls. length calls + 1; accepts = λ calls. true }

abbrev hub : Device
hub = record { described = pos 0; vendor = 0x1d6b; product = 2; bus = 1; address = 1 }

abbrev adapter : Device
adapter = record { described = pos 0; vendor = 0x17b5; product = 0x20; bus = 1; address = 4 }

abbrev host : Host
host = record {
  init = pos 0;
  devices = some (hub ∷ adapter ∷ []);
  open_device = λ d. pos 0;
  get_config = pos 0;
  config = record {
    interfaces = 1;
    altsettings = 1;
    endpoints = 2;
    endpoint_0 = 0x81;
    endpoint_1 = 0x02;
  };
  direction_mask = 0x80;
  direction_in = 0x80;
  driver_active = pos 1;
  detach = pos 0;
  set_configuration = pos 0;
  claim = pos 0;
  set_alt_setting = pos 0;
  new_array = true;
  pollfds = some ((pos 9, pos 1) ∷ (pos 10, pos 4) ∷ []);
  new_dali = true;
}

abbrev busy : Host
busy = record host { claim = negsuc 5 }

open-Leaves_example :
    Leaves true true nothing
      (held_open true (is_detached accepting machine busy true) (record nothing { context = true }))
      (usbdali_open accepting machine busy true (pos 1) (pos 4))
open-Leaves_example = open-Leaves accepting machine busy true (pos 1) (pos 4)

abbrev opened : Opened
opened = record {
  free_context = true;
  endpoint_in = 0x81;
  endpoint_out = 0x02;
  detached = true;
  driver = usbdali_next accepting machine (initial accepting machine);
}

acts : List Act
unfolding usbdali_open search_devices usbdali_find_device
acts = (usbdali_open accepting machine host true (negsuc 0) (negsuc 0)).1

opens : usbdali_open accepting machine host true (negsuc 0) (negsuc 0) ≡ (some opened, acts)
unfolding acts usbdali_open search_devices usbdali_find_device
opens = refl

open-release_example : held (usbdali_release opened acts) ≡ leak
open-release_example =
    open-release accepting machine host true (negsuc 0) (negsuc 0) opened acts opens

abbrev flags : PollFlags
flags = record { pollin = 1; pollerr = 8; pollhup = 16; pollnval = 32 }

abbrev unset : Slot ℕ
unset = record {
  arg = 0;
  readyfn = none;
  errorfn = none;
  indexfn = none;
  fd = negsuc 0;
  events = 0;
  revents = 0;
}

new-IsBounded : IsBounded (dispatch_new {F = ℕ})
unfolding dispatch_new
new-IsBounded = record { within = omega arith; allocated = refl }

abbrev fds : List (ℤ × ℤ)
fds = (pos 9, pos 1) ∷ (pos 10, pos 4) ∷ []
