-- ===== src/Daliserver/Shutdown.antt =====
-- What the end of the program of src/daliserver.c does: `server_close` comes before
-- `usbdali_close`, and the driver forgets every connection that is freed.
use mathlib.Core.Path.{subst}
use daliserver.Common.{ℕ, ◌≡◌, refl, true, none, some, List, [], ◌∷◌, arith, ◌==◌}
use daliserver.Pack.{Machine}
use daliserver.Usb.{LibUsb}
use daliserver.Usb.Requests.{Request, outstanding}
use daliserver.Net.{Connection, Sockets, list_find, list_remove, free_connections, server_close}
use daliserver.Net.Listed.{AllListed}
use daliserver.Daliserver.{net_dequeue_connection}
use daliserver.Daliserver.Handlers.{World}
use daliserver.Daliserver.Ownership.{Owned, remove-Owned}
use daliserver.Daliserver.World.{WorldReach, WorldReach-IsOwned}

-- No request names a connection.
abbrev pub AreAnonymous : List Request → Type 0
AreAnonymous [] = Unit
AreAnonymous ((frame, arg) ∷ rest) = (arg ≡ none) × AreAnonymous rest

listed-AreAnonymous : (r : List Request) → AllListed [] r → AreAnonymous r
unfolding list_find
listed-AreAnonymous [] h = tt
listed-AreAnonymous ((frame, none) ∷ r) (h, t) = (refl, listed-AreAnonymous r t)
listed-AreAnonymous ((frame, some p) ∷ r) (h, t) = cc

first-list_remove : (c : Connection) (l : List Connection) → list_remove c.address (c ∷ l) ≡ l
unfolding list_remove
first-list_remove c l = let same : (c.address == c.address) ≡ true = ground arith in rw same refl

module _ (net : Sockets) where
  free-all :
      (l : List Connection) (s : World)
      → s.1.connections ≡ l
      → Owned s.0 l
      → let r = free_connections net (net_dequeue_connection net) l s in
        (r.1.connections ≡ []) × AreAnonymous (outstanding r.0) × (r.1.faulted ≡ s.1.faulted)
  unfolding free_connections
  free-all [] s e h = (e, listed-AreAnonymous (outstanding s.0) h, refl)
  free-all (c ∷ l) (d, sv) e h = free-all l _ refl (
      subst (Owned (net_dequeue_connection net c.address d)) (first-list_remove c l)
        (remove-Owned net c.address d (c ∷ l) h))

  -- When the server closes, in any state that the program reaches, it frees all connections without
  -- an access to freed memory, and no request of the driver names a connection afterwards.
  pub server_close-AreAnonymous :
      (lib : LibUsb) (m : Machine) (listener : ℕ) {s : World}
      → WorldReach net lib m s
      → let r = server_close net (net_dequeue_connection net) listener s in
        (r.1.connections ≡ []) × AreAnonymous (outstanding r.0) × (r.1.faulted ≡ s.1.faulted)
  unfolding server_close
  server_close-AreAnonymous lib m listener {s} reach =
      free-all s.1.connections (s.0, _) refl (WorldReach-IsOwned net lib m reach)
