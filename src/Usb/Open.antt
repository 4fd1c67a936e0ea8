-- ===== src/Usb/Open.antt =====
-- `usbdali_open`, `usbdali_find_device` and the rest of `usbdali_close` of lib/usb.c: what is
-- acquired and released on the way to an open device. What libusb returns is in a `Host`, and the
-- calls that acquire or release something are kept, the latest first.
pub mod Held
pub mod Paths
pub mod Released
pub mod Watched
mod Tests
use mathlib.Core.Option
use daliserver.Common.{
  ℕ, Bool, true, false, not, ◌&&◌, ◌||◌, Option, none, some, List, [], ◌∷◌, ◌==◌, if◌then◌else◌,
  bit_and,
}
use daliserver.Common.Int.{ℤ, pos, negsuc, eq_ℤ}
use daliserver.Dispatch.{PollFlags, Slot, Dispatch, dispatch_add, dispatch_remove_fd}
use daliserver.Pack.{Machine}
use daliserver.Usb.{UsbDali, LibUsb, usbdali_next, initial}

abbrev pub vendor_id : ℕ
vendor_id = 0x17b5

abbrev pub product_id : ℕ
product_id = 0x0020

-- A device in the list of libusb; `described` is the result of reading its descriptor.
pub record Device : Type 0 where
  pub described : ℤ
  pub vendor : ℕ
  pub product : ℕ
  pub bus : ℕ
  pub address : ℕ

-- The configuration, as far as it is read.
pub record Config : Type 0 where
  pub interfaces : ℕ
  pub altsettings : ℕ
  pub endpoints : ℕ
  pub endpoint_0 : ℕ
  pub endpoint_1 : ℕ

-- What libusb and the allocations return. An error is negative; 0 is LIBUSB_SUCCESS.
pub record Host : Type 0 where
  pub init : ℤ
  pub devices : Option (List Device)
  pub open_device : Device → ℤ
  pub get_config : ℤ
  pub config : Config
  pub direction_mask : ℕ
  pub direction_in : ℕ
  pub driver_active : ℤ
  pub detach : ℤ
  pub set_configuration : ℤ
  pub claim : ℤ
  pub set_alt_setting : ℤ
  pub new_array : Bool
  pub pollfds : Option (List (ℤ × ℤ))
  pub new_dali : Bool

-- `try_detach` is the call, and `detach_driver` that it succeeds.
pub data Act : Type 0 where
  init_context exit_context : Act
  get_devices free_devices : Act
  open_handle close_handle : Act
  get_config free_config : Act
  try_detach detach_driver attach_driver : Act
  claim_interface release_interface : Act
  make_array free_array : Act
  get_pollfds free_pollfds : Act

-- What `usbdali_open` returns, with the driver's state.
pub record Opened : Type 0 where
  pub free_context : Bool
  pub endpoint_in : ℕ
  pub endpoint_out : ℕ
  pub detached : Bool
  pub driver : UsbDali

abbrev pub success : ℤ → Bool
success e = eq_ℤ e (pos 0)

abbrev pub is_error : ℤ → Bool
is_error (negsuc n) = true
is_error (pos n) = false

-- The numbers are negative where any device will do.
abbrev pub is_at : ℤ → ℤ → Device → Bool
is_at (pos b) (pos a) d = (d.bus == b) && (d.address == a)
is_at busnum devnum d = true

abbrev pub is_adapter : ℤ → ℤ → Device → Bool
is_adapter busnum devnum d =
    if success d.described
    then if (d.vendor == vendor_id) && (d.product == product_id)
      then is_at busnum devnum d
      else false
    else false

-- The loop goes on while nothing is found.
unfoldable pub search_devices : ℤ → ℤ → List Device → Option Device
search_devices busnum devnum [] = none
search_devices busnum devnum (d ∷ devices) =
    if is_adapter busnum devnum d then some d else search_devices busnum devnum devices

abbrev pub open_found : Host → Option Device → List Act → Bool × List Act
open_found host none acts = (false, free_devices ∷ acts)
open_found host (some d) acts =
    if is_error (host.open_device d)
    then (false, free_devices ∷ acts)
    else (true, free_devices ∷ open_handle ∷ acts)

-- Whether a handle is returned.
abbrev pub find_in : Host → ℤ → ℤ → Option (List Device) → List Act → Bool × List Act
find_in host busnum devnum none acts = (false, acts)
find_in host busnum devnum (some devices) acts =
    open_found host (search_devices busnum devnum devices) (get_devices ∷ acts)

unfoldable pub usbdali_find_device : Host → ℤ → ℤ → List Act → Bool × List Act
usbdali_find_device host busnum devnum acts = find_in host busnum devnum host.devices acts

abbrev pub when : Bool → Act → List Act → List Act
when b act acts = if b then act ∷ acts else acts

-- The clean-up behind a nested block: it is reached unless the block returned the device.
abbrev pub behind : (List Act → List Act) → Option Opened × List Act → Option Opened × List Act
behind clean (none, acts) = (none, clean acts)
behind clean (some o, acts) = (some o, acts)

module _ {F : Type 0} (flags : PollFlags) (unset : Slot F) (readyfn errorfn : F) (dali : ℕ) where
  -- `usbdali_add_pollfd` and `usbdali_remove_pollfd`, which libusb calls too.
  unfoldable pub usbdali_add_pollfd : ℤ → ℤ → Dispatch F → Dispatch F
  usbdali_add_pollfd fd events table =
      dispatch_add flags unset table fd events (some readyfn) (some errorfn) none dali

  unfoldable pub usbdali_remove_pollfd : ℤ → Dispatch F → Option (Dispatch F)
  usbdali_remove_pollfd fd table = dispatch_remove_fd table fd

  pub add_pollfds : List (ℤ × ℤ) → Dispatch F → Dispatch F
  unfolding usbdali_add_pollfd
  add_pollfds [] table = table
  add_pollfds ((fd, events) ∷ fds) table = add_pollfds fds (usbdali_add_pollfd fd events table)

  -- The table after `usbdali_open`: the descriptors are added only if the device is returned.
  abbrev pub watch : Option Opened → Option (List (ℤ × ℤ)) → Dispatch F → Dispatch F
  watch none fds table = table
  watch (some o) none table = table
  watch (some o) (some fds) table = add_pollfds fds table

module _ (lib : LibUsb) (m : Machine) (host : Host) (own : Bool) where
  abbrev pub endpoints_of : Config → Bool → UsbDali → Opened
  endpoints_of c detached driver =
      if bit_and c.endpoint_0 host.direction_mask == host.direction_in
      then record {
        free_context = own;
        endpoint_in = c.endpoint_0;
        endpoint_out = c.endpoint_1;
        detached = detached;
        driver = driver;
      }
      else record {
        free_context = own;
        endpoint_in = c.endpoint_1;
        endpoint_out = c.endpoint_0;
        detached = detached;
        driver = driver;
      }

  abbrev pub make_dali : Bool → Bool → Bool → List Act → Option Opened × List Act
  make_dali detached true true acts =
      if host.new_dali
      then (
        some (endpoints_of host.config detached (usbdali_next lib m (initial lib m))),
        free_pollfds ∷ free_config ∷ acts,
      )
      else (none, free_pollfds ∷ free_array ∷ acts)
  make_dali detached array fds acts = (none, when fds free_pollfds (when array free_array acts))

  abbrev pub is_there : Option (List (ℤ × ℤ)) → Bool
  is_there none = false
  is_there (some fds) = true

  abbrev pub allocate : Bool → List Act → Option Opened × List Act
  allocate detached acts =
      let array = host.new_array in
      let fds = is_there host.pollfds in
      make_dali detached array fds (when fds get_pollfds (when array make_array acts))

  abbrev pub set_up : Bool → List Act → Option Opened × List Act
  set_up detached acts =
      if success host.set_alt_setting then allocate detached acts else (none, acts)

  abbrev pub claimed : Bool → List Act → Option Opened × List Act
  claimed detached acts =
      if success host.set_configuration
      then if success host.claim
        then behind (λ a. release_interface ∷ a) (set_up detached (claim_interface ∷ acts))
        else (none, acts)
      else (none, acts)

  -- The driver of the kernel; the flag is set even if it cannot be detached.
  abbrev pub detach : List Act → Option Opened × List Act
  detach acts =
      if is_error host.driver_active
      then (none, acts)
      else if eq_ℤ host.driver_active (pos 1)
      then behind (λ a. attach_driver ∷ a)
          (claimed true (when (success host.detach) detach_driver (try_detach ∷ acts)))
      else claimed false acts

  abbrev pub configured : List Act → Option Opened × List Act
  configured acts =
      if success host.get_config
      then behind (λ a. free_config ∷ a)
          (let a = get_config ∷ acts in
            if (host.config.interfaces == 1)
              && (host.config.altsettings == 1)
              && (host.config.endpoints == 2)
            then detach a
            else (none, a))
      else (none, acts)

  abbrev pub with_handle : Bool × List Act → Option Opened × List Act
  with_handle (false, acts) = (none, acts)
  with_handle (true, acts) = behind (λ a. close_handle ∷ a) (configured acts)

  -- `own` is that no context is given. The table of descriptors is there.
  unfoldable pub usbdali_open : ℤ → ℤ → Option Opened × List Act
  unfolding usbdali_find_device
  usbdali_open busnum devnum =
      if own && not (success host.init)
      then (none, [])
      else behind (when own exit_context)
          (with_handle (usbdali_find_device host busnum devnum (when own init_context [])))

-- What `usbdali_close` releases when the transfers are done with.
unfoldable pub usbdali_release : Opened → List Act → List Act
usbdali_release o acts =
    when o.free_context exit_context
      (close_handle ∷ when o.detached attach_driver (release_interface ∷ acts))
