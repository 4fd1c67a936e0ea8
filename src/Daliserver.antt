-- ===== src/Daliserver.antt =====
-- src/daliserver.c: the handlers that join the server of lib/net.c and the driver of lib/usb.c.
pub mod Contract
pub mod Handlers
pub mod Ownership
pub mod World
pub mod Safe
pub mod Expected
pub mod Shutdown
pub mod Frames
pub mod Exchange
pub mod Answered
pub mod Heard
pub mod Protocol
mod Tests
use daliserver.Common.{
  ℕ, Bool, true, false, Option, none, some, List, [], ◌∷◌, ltb, ◌==◌, if◌then◌else◌, length, ◌%◌,
}
use daliserver.Frame.{DaliFrame, daliframe_new}
use daliserver.Pack.{Machine}
use daliserver.Usb.{UsbDaliError, UsbDali, LibUsb, Callbacks, usbdali_queue, usbdali_cancel}
use daliserver.Net.{Server, Sockets, connection_reply, server_broadcast}

abbrev pub net_framesize : ℕ
net_framesize = 4

abbrev pub net_protocol : ℕ
net_protocol = 2

pub data NetStatus : Type 0 where
  success response broadcast error : NetStatus

abbrev pub status_code : NetStatus → ℕ
status_code NetStatus.success = 0
status_code NetStatus.response = 1
status_code NetStatus.broadcast = 2
status_code NetStatus.error = 255

abbrev pub frame_of : NetStatus → ℕ → ℕ → List ℕ
frame_of status a b = net_protocol ∷ status_code status ∷ (a % 256) ∷ (b % 256) ∷ []

-- The frame that answers a request.
unfoldable pub reply_frame : UsbDaliError → ℕ → List ℕ
reply_frame UsbDaliError.response value = frame_of NetStatus.response value 0
reply_frame UsbDaliError.success value = frame_of NetStatus.success 0 0
reply_frame err value = frame_of NetStatus.error 0 0

module _ (net : Sockets) where
  -- `net_dequeue_connection`, which runs before a connection is freed.
  abbrev pub net_dequeue_connection : ℕ → UsbDali → UsbDali
  net_dequeue_connection p d = usbdali_cancel d p

  unfoldable pub dali_inband_handler :
      UsbDaliError → DaliFrame → ℕ → ℕ → Option ℕ → UsbDali × Server → UsbDali × Server
  unfolding reply_frame
  dali_inband_handler err frame value status none s = s
  dali_inband_handler err frame value status (some conn) s =
      connection_reply net net_dequeue_connection conn (reply_frame err value) s

  abbrev pub broadcast_frame : Option DaliFrame → UsbDali × Server → UsbDali × Server
  broadcast_frame none (d, sv) = (d, record sv { faulted = true })
  broadcast_frame (some frame) s =
      server_broadcast net net_dequeue_connection
        (frame_of NetStatus.broadcast frame.address frame.command) s

  unfoldable pub dali_outband_handler :
      UsbDaliError → Option DaliFrame → ℕ → UsbDali × Server → UsbDali × Server
  dali_outband_handler UsbDaliError.success frame status s = broadcast_frame frame s
  dali_outband_handler err frame status s = s

  -- The callbacks that `main` registers.
  abbrev pub callbacks : Callbacks Server
  callbacks = record { inband = dali_inband_handler; outband = dali_outband_handler }

  -- The command of a complete frame.
  abbrev pub net_send : LibUsb → Machine → ℕ → ℕ → ℕ → UsbDali × Server → UsbDali × Server
  net_send lib m conn address command (d, sv) =
      ((usbdali_queue lib m d (daliframe_new address command) (some conn)).0, sv)

  unfoldable pub net_frame_handler :
      LibUsb → Machine → ℕ → List ℕ → UsbDali × Server → UsbDali × Server
  net_frame_handler lib m conn (version ∷ type ∷ address ∷ command ∷ rest) s =
      if version == net_protocol
      then if type == 0 then net_send lib m conn address command s else s
      else s
  net_frame_handler lib m conn _ s = s

-- In dry-run mode there is no driver, and the answer is made up.
unfoldable pub net_frame_handler_dry :
    {D : Type 0} → Sockets → (ℕ → D → D) → ℕ → List ℕ → D × Server → D × Server
net_frame_handler_dry net destroy conn (version ∷ type ∷ address ∷ command ∷ rest) s =
    if version == net_protocol
    then if type == 0
      then connection_reply net destroy conn (frame_of NetStatus.response 0 0) s
      else s
    else s
net_frame_handler_dry net destroy conn _ s = s
