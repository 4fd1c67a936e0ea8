-- ===== src/Lib.antt =====
-- A model of daliserver, the program that lets clients on the network send commands to a DALI bus
-- through a USB adapter, and what is proved of it.
--
-- The program is one thread. Its table of file descriptors (lib/dispatch.c) calls the server
-- (lib/net.c) when a socket is ready and the driver (lib/usb.c) when libusb has finished a transfer.
-- A frame that a client sends goes through net_frame_handler of src/daliserver.c into the queue of
-- the driver, with the connection as its argument. The driver sends one command at a time and hands
-- the answer to dali_inband_handler, which replies on that connection; what it hears on the bus
-- otherwise goes to dali_outband_handler, which broadcasts it to the connections that do not wait.
--
-- The files:
--   Common       lists, options, integers and counting on native numbers
--   Frame        lib/frame.c: a frame is a value
--   Pack         lib/pack.c: pack, unpack and pack_length; Pack/Fields has the bytes of one field,
--                Pack/Rounds and Pack/RoundTrip whole formats
--   Dispatch     lib/dispatch.c: the table, dispatch_add, dispatch_remove, dispatch_remove_fd and
--                dispatch_run; Dispatch/Add, Dispatch/Remove, Dispatch/Cleared,
--                Dispatch/Ahead, Dispatch/Run and
--                Dispatch/Returns have what they do
--   Usb          lib/usb.c: usbdali_next, usbdali_queue, usbdali_cancel and the two callbacks of
--                transfers. Usb/Packet is about the bytes, Usb/Live about the transfers in flight,
--                Usb/Client about what a callback of the client may change, Usb/Steps about all
--                events, Usb/Requests and Usb/Answers about commands and answers, Usb/Retired,
--                Usb/Remaining and Usb/Settled about how long answers take, Usb/Stall about
--                a submission that libusb refuses, Usb/Close about usbdali_close. Usb/Print has
--                what is printed of packets, with Usb/Print/Shown about what that shows. Usb/Open has
--                usbdali_open and usbdali_find_device, with Usb/Open/Held, Usb/Open/Paths and
--                Usb/Open/Released about what is acquired and released, and
--                Usb/Open/Watched about the search and the file descriptors
--   Net          lib/net.c: replies, broadcasts and the events of connections. Net/Listed and
--                Net/Connections are about the list of connections, Net/Broadcast and Net/Failure
--                about what is written, Net/Waiting about who waits, Net/Written about all that
--                is written. Net/Listen has server_open, and Net/Watched carries out what the
--                server does to the dispatch table on the table of Dispatch, as calls of
--                dispatch_add and dispatch_remove_fd by Net/Changes
--   Daliserver   src/daliserver.c: the handlers. Daliserver/Contract joins them to the driver,
--                Daliserver/Frames is about frames, Daliserver/Handlers, Daliserver/Ownership,
--                Daliserver/World, Daliserver/Safe and Daliserver/Expected about the events of
--                the whole program, Daliserver/Shutdown about its end, Daliserver/Exchange and
--                Daliserver/Answered about one command from the client to the adapter and back,
--                Daliserver/Heard about what is heard on the bus, Daliserver/Protocol about the
--                frames that clients get
--   Array        lib/array.c: the growing array; Array/Elements has what its operations do
--   LinkedList   lib/list.c: doubly linked nodes on a heap. LinkedList/Links says when nodes make up
--                a list, LinkedList/Ends and LinkedList/Remove are about the operations, and
--                LinkedList/Refines joins them to the lists of values in Net and Usb, and
--                LinkedList/Reached is about any use of a list from list_new on
--   Ipc          lib/ipc.c: the pair of sockets that wakes the loop. Ipc/Register is about its entry
--                in the table, Ipc/Wake says what a pair of sockets does
--   Options      src/daliserver.c: the command line. Options/Number is strtol() of the C library,
--                Options/Usbdev is about -u and Options/Described about all options
--   Log          lib/log.c: where messages go. Log/File is about the file and the syslog, Log/Levels
--                about all calls that change the settings
--   Main         src/daliserver.c: main() as its calls in order. Main/Order is about what is held,
--                Main/Status about the loop and the exit status
--   Daemon       lib/util.c: daemonize(); Daemon/Report is about what its caller learns
--   Hexdump      lib/util.c: hexdump(); Hexdump/Rows and Hexdump/Read read its output
--                back
--   Signals      src/daliserver.c: the signal handler; Signals/Delivered is about any signals
--
-- Parameters. LibUsb says which transfer libusb allocates and whether it accepts a submission,
-- both of them functions of the calls made before. Machine is the order of bytes and the bits of
-- a float. Sockets is what write() returns; what read(), accept() and poll() return is an
-- argument of the handlers. PollFlags has the bits of poll(). Host has what libusb returns while
-- the device is opened, Calls what the system calls of daemonize return, Listening what those of
-- server_open return, Outcome which parts main can make, and Rounds how its loop ends. Whether
-- fopen() and strdup() succeed are arguments of the functions of the log, and the state of the
-- kernel is one of ipc_notify. Allocation succeeds everywhere but in pack, in usbdali_open and
-- in log_set_logfile, where its failure is an argument.
--
-- States. A pointer to a connection is its address, and an access to one that is not listed any
-- more sets `faulted` in the server. A NULL transaction that lib/usb.c would read is `none`, as
-- is a read outside the table of lib/dispatch.c, and a read of the transaction that usbdali_close
-- has freed. The calls of libusb and of the sockets are kept in the states, the latest first.
--
-- In LinkedList, Ipc, Options, Log, Main, Daemon and Signals the state is a value of its own;
-- main and usbdali_open record the calls that they make, and other files model what these calls
-- do.
--
-- Fuel. dispatch_remove_fd takes the number of entries, since each round removes an entry or
-- passes one. dispatch_run takes a limit on its rounds, since the handlers may add entries; a new
-- entry has no event pending, so some limit is always enough. The loops of lib/list.c take the
-- length of the list. All other loops go along a list.
--
-- Not modelled: the timeouts of libusb and the setters of callbacks, the formats of dates and
-- messages, the names of errors, the help texts and the locks of lists. They are output and
-- wrappers of system calls for the most part, and the program has one thread.
pub mod Common
pub mod Frame
pub mod Pack
pub mod Dispatch
pub mod Usb
pub mod Net
pub mod Daliserver
pub mod Array
pub mod LinkedList
pub mod Ipc
pub mod Options
pub mod Log
pub mod Main
pub mod Daemon
pub mod Hexdump
pub mod Signals
