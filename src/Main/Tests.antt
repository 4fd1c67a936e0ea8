-- ===== src/Main/Tests.antt =====
-- Runs of main() of src/daliserver.c.
use daliserver.Common.{◌≡◌, true, false, some}
use daliserver.Options.{defaults}
use daliserver.Main.{Outcome, stopped, main}
use daliserver.Main.Order.{held_after, nothing, main_releases}

abbrev no_server : Outcome
no_server = record { dispatch = true; usb = true; server = false; ipc = true }

main_releases_example :
    held_after (main true (some defaults) no_server stopped).0 (some nothing) ≡ some nothing
main_releases_example = main_releases true (some defaults) no_server stopped
