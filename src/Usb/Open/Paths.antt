-- ===== src/Usb/Open/Paths.antt =====
-- Each way through `usbdali_open` of lib/usb.c, and what is held on it.
use daliserver.Common.{
  ◌≡◌, refl, ap, Bool, true, false, ◌&&◌, Option, none, some, List, [], ◌∷◌, ◌==◌, if◌then◌else◌,
  Bool-cases, inl, inr, bit_and,
}
use daliserver.Common.Int.{ℤ, pos, eq_ℤ}
use daliserver.Pack.{Machine}
use daliserver.Usb.{UsbDali, LibUsb, usbdali_next, initial}
use daliserver.Usb.Open.{
  Host, Device, Config, Act, Opened, init_context, exit_context, get_devices, free_devices,
  open_handle, close_handle, get_config, free_config, try_detach, detach_driver, attach_driver,
  claim_interface, release_interface, make_array, get_pollfds, success, is_error, when, behind,
  open_found, find_in, usbdali_find_device, search_devices, make_dali, is_there, set_up, claimed,
  detach, configured, with_handle, usbdali_open, endpoints_of,
}
use daliserver.Usb.Open.Held.{Held, nothing, apply, held, held_open, Leaves, Leaves-behind}

module _ (lib : LibUsb) (m : Machine) (host : Host) (own : Bool) where
  -- The state of affairs after the handle was opened.
  abbrev at : (config asked driver interface : Bool) → Held
  at config asked driver interface = record nothing {
    context = own;
    handle = true;
    config = config;
    asked = asked;
    driver = driver;
    interface = interface;
  }

  abbrev done : (asked driver : Bool) → Held
  done asked driver = held_open asked driver (at true asked driver true)

  endpoints_flags :
      (c : Config) (detached : Bool) (driver : UsbDali)
      → ((endpoints_of lib m host own c detached driver).free_context ≡ own)
        × ((endpoints_of lib m host own c detached driver).detached ≡ detached)
  endpoints_flags c detached driver =
      elim (Bool-cases (bit_and c.endpoint_0 host.direction_mask == host.direction_in)) [
        | inl e ↦ rw e (refl, refl)
        | inr e ↦ rw e (refl, refl)
      ]

  make_dali-Leaves :
      (detached driver array fds : Bool) (acts : List Act)
      → held acts ≡ at true detached driver true
      → Leaves own detached (at true detached driver true) (done detached driver) (
          make_dali lib m host own detached array fds
            (when fds get_pollfds (when array make_array acts)))
  make_dali-Leaves detached driver true true acts e = elim (Bool-cases host.new_dali) [
    | inl f ↦
        let (free, flag) =
          endpoints_flags host.config detached (usbdali_next lib m (initial lib m)) in
        rw f (rw e refl, free, flag)
    | inr f ↦ rw f (rw e refl)
  ]
  make_dali-Leaves detached driver true false acts e = rw e refl
  make_dali-Leaves detached driver false true acts e = rw e refl
  make_dali-Leaves detached driver false false acts e = e

  set_up-Leaves :
      (detached driver : Bool) (acts : List Act)
      → held acts ≡ at true detached driver true
      → Leaves own detached
          (at true detached driver true)
          (done detached driver)
          (set_up lib m host own detached acts)
  set_up-Leaves detached driver acts e = elim (Bool-cases (success host.set_alt_setting)) [
    | inl f ↦ rw f (
        make_dali-Leaves detached driver host.new_array (is_there lib m host own host.pollfds) acts
          e)
    | inr f ↦ rw f e
  ]

  claimed-Leaves :
      (detached driver : Bool) (acts : List Act)
      → held acts ≡ at true detached driver false
      → Leaves own detached
          (at true detached driver false)
          (done detached driver)
          (claimed lib m host own detached acts)
  claimed-Leaves detached driver acts e = elim (Bool-cases (success host.set_configuration)) [
    | inr f ↦ rw f e
    | inl f ↦ rw f (elim (Bool-cases (success host.claim)) [
      | inr g ↦ rw g e
      | inl g ↦ rw g (
          Leaves-behind own detached (at true detached driver true) (at true detached driver false)
            (done detached driver) release_interface
            (set_up lib m host own detached (claim_interface ∷ acts)) refl
            (set_up-Leaves detached driver (claim_interface ∷ acts) (ap (apply claim_interface) e)))
    ])
  ]

  -- Whether the driver of the kernel is detached in the end.
  abbrev pub is_detached : Bool
  is_detached = eq_ℤ host.driver_active (pos 1) && success host.detach

  -- Whether `usbdali_open` asked for that.
  abbrev pub is_asked : Bool
  is_asked = eq_ℤ host.driver_active (pos 1)

  detach-Leaves :
      (acts : List Act)
      → held acts ≡ at true false false false
      → Leaves own is_asked
          (at true false false false)
          (done is_asked is_detached)
          (detach lib m host own acts)
  detach-Leaves acts e = elim (Bool-cases (is_error host.driver_active)) [
    | inl f ↦ rw f e
    | inr f ↦ rw f (elim (Bool-cases (eq_ℤ host.driver_active (pos 1))) [
      | inr g ↦ rw g (claimed-Leaves false false acts e)
      | inl g ↦ rw g (elim (Bool-cases (success host.detach)) [
        | inl k ↦ rw k (
            Leaves-behind own true (at true true true false) (at true false false false)
              (done true true) attach_driver
              (claimed lib m host own true (detach_driver ∷ try_detach ∷ acts)) refl
              (claimed-Leaves true true (detach_driver ∷ try_detach ∷ acts)
                (ap (λ h. apply detach_driver (apply try_detach h)) e)))
        | inr k ↦ rw k (
            Leaves-behind own true (at true true false false) (at true false false false)
              (done true false) attach_driver (claimed lib m host own true (try_detach ∷ acts)) refl
              (claimed-Leaves true false (try_detach ∷ acts) (ap (apply try_detach) e)))
      ])
    ])
  ]

  configured-Leaves :
      (acts : List Act)
      → held acts ≡ at false false false false
      → Leaves own is_asked
          (at false false false false)
          (done is_asked is_detached)
          (configured lib m host own acts)
  configured-Leaves acts e = elim (Bool-cases (success host.get_config)) [
    | inr f ↦ rw f e
    | inl f ↦
        let c = host.config in
        let a = get_config ∷ acts in
        let e' : held a ≡ at true false false false = ap (apply get_config) e in
        rw f (
          Leaves-behind own is_asked (at true false false false) (at false false false false)
            (done is_asked is_detached) free_config _ refl
            (elim (Bool-cases ((c.interfaces == 1) && (c.altsettings == 1) && (c.endpoints == 2))) [
              | inl g ↦ rw g (detach-Leaves a e')
              | inr g ↦ rw g e'
            ]))
  ]

  abbrev start : Held
  start = record nothing { context = own }

  -- The handle is all that the search for the device leaves.
  find-held :
      (busnum devnum : ℤ) (acts : List Act)
      → held acts ≡ start
      → let r = usbdali_find_device host busnum devnum acts in
        held r.1 ≡ (if r.0 then at false false false false else start)
  unfolding usbdali_find_device
  find-held busnum devnum acts e = go host.devices
    where
      found :
          (o : Option Device) (a : List Act)
          → held a ≡ record start { devices = true }
          → held (open_found host o a).1
            ≡ (if (open_found host o a).0 then at false false false false else start)
      found none a f = ap (apply free_devices) f
      found (some d) a f = elim (Bool-cases (is_error (host.open_device d))) [
        | inl g ↦ rw g (ap (apply free_devices) f)
        | inr g ↦ rw g (ap (λ h. apply free_devices (apply open_handle h)) f)
      ]

      go :
          (o : Option (List Device))
          → held (find_in host busnum devnum o acts).1
            ≡ (if (find_in host busnum devnum o acts).0 then at false false false false else start)
      go none = e
      go (some devices) =
          found (search_devices busnum devnum devices) (get_devices ∷ acts)
            (ap (apply get_devices) e)

  handle-Leaves :
      (r : Bool × List Act)
      → held r.1 ≡ (if r.0 then at false false false false else start)
      → Leaves own is_asked start (done is_asked is_detached) (with_handle lib m host own r)
  handle-Leaves (false, acts) e = e
  handle-Leaves (true, acts) e =
      Leaves-behind own is_asked (at false false false false) start (done is_asked is_detached)
        close_handle (configured lib m host own acts) refl (configured-Leaves acts e)

-- Whatever libusb and the allocations return, `usbdali_open` releases nothing twice and nothing that
-- it does not hold; it attaches the driver of the kernel again just if it has asked for it to be
-- detached, be it in vain. If it returns NULL, it holds nothing. If it returns a device, it holds
-- the context if it made one, the handle, the interface, the driver of the kernel if that was
-- detached, and an array of descriptors.
pub open-Leaves :
    (lib : LibUsb) (m : Machine) (host : Host) (own : Bool) (busnum devnum : ℤ)
    → Leaves own
        (is_asked lib m host own)
        nothing
        (held_open
          (is_asked lib m host own)
          (is_detached lib m host own)
          (record nothing { context = own }))
        (usbdali_open lib m host own busnum devnum)
unfolding usbdali_open
open-Leaves lib m host false busnum devnum =
    Leaves-id (with_handle lib m host false (usbdali_find_device host busnum devnum [])) (
      handle-Leaves lib m host false (usbdali_find_device host busnum devnum [])
        (find-held lib m host false busnum devnum [] refl))
  where
    Leaves-id :
        (r : Option Opened × List Act)
        → Leaves false
            (is_asked lib m host false)
            nothing
            (held_open (is_asked lib m host false) (is_detached lib m host false) nothing)
            r
        → Leaves false
            (is_asked lib m host false)
            nothing
            (held_open (is_asked lib m host false) (is_detached lib m host false) nothing)
            (behind (when false exit_context) r)
    Leaves-id (none, acts) h = h
    Leaves-id (some o, acts) h = h
open-Leaves lib m host true busnum devnum = elim (Bool-cases (success host.init)) [
  | inr e ↦ rw e refl
  | inl e ↦ rw e (
      Leaves-behind true (is_asked lib m host true) (record nothing { context = true }) nothing _
        exit_context _ refl
        (handle-Leaves lib m host true (usbdali_find_device host busnum devnum (init_context ∷ []))
          (find-held lib m host true busnum devnum (init_context ∷ []) refl)))
]
