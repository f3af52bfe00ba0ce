-- ===== src/Lib.antt =====
-- Verification of the device link firmware (Contiki).
--
-- The firmware turns a node's relay, LEDs, mains detector, pulse counter and button into CoAP resources
-- with events, pairs them with resources of other nodes, and links the node to a sensor board
-- over a UART. Its parts, and the modules that model them:
--
-- * Uart (apps/uartsensors/uarthandler.c): the receive buffers, `proxy_rx_callback` byte by byte,
--   `frameandsend`. Uart.Framing proves what arrives of a stuffed frame, Uart.Ring follows whole
--   frames through the ring of five buffers.
-- * Uart.Message (sensorsUnleashed/lib/cmp_helpers.c, of which
--   apps/uartsensors/uart_protocolhandler.c is a copy): `cp_encodemessage`, `cp_decodemessage`.
--   Uart.Link joins messages and frames. Uart.Host is the other end of the link, as UartTest/uart.cpp has it.
-- * Uart.Proxy (apps/uartsensors/uartsensors.c): the board's sensors as the node sees them,
--   `handleSensorMessages` and the requests to the board. Uart.Config (lib/cmp_helpers.c) is the
--   configuration of a resource as a message, Uart.Server the process with its start.
-- * Cmp (sensorsUnleashed/lib/cmp.h): the values of the MessagePack library, whose readers and writers
--   are the fields of the interface `Codec`.
-- * Sensor (sensorsUnleashed/lib/susensors.h, lib/cmp_helpers.h): the data of a device.
--   Sensor.Events and Sensor.Config are sensorsUnleashed/dev/susensorcommon.c: `setEventU8` and
--   `setEventU16`, which a driver calls after a new value, and `suconfig`.
-- * Device (sensorsUnleashed/dev): one child per driver: Relay, Led, Mains, Pulse, Button; and Setup, the
--   default configurations and the functions that register a device.
-- * Registry (sensorsUnleashed/lib/susensors.c): the registered devices, `susensors_find`, the round of
--   the process that notifies observers (Notify), the pairing event with its callbacks (Pair), and the search for
--   nodes that do not answer (Missing), which the build option USE_BR_DETECT adds.
-- * Pairing (sensorsUnleashed/pairing.c): the assembly of a pairing message, `parseMessage`,
--   `pairing_handle`. Pairing.Flash is the file of a device's pairs: storing, reading in parts, removing
--   by index (Remove) and restoring at the start (Restore). Pairing.Flash.Refines states it as a
--   list of messages.
-- * ReverseNotify (sensorsUnleashed/reverseNotify.c): the nodes that observe this one, in a list and in a
--   flash file, which ReverseNotify.Save relates.
-- * Coap (sensorsUnleashed/resources, apps/uartsensors/res-uartsensors.c): the handlers of the resources, with
--   the commands of a query. Coap.Get and Coap.Put are res-susensors.c, Coap.System is res-systeminfo.c with
--   the messages by which a node tells others that it has started, Coap.Sensors is res-uartsensors.c, and
--   Coap.Text the printing of a value (`cp_cmp_to_string` of lib/cmp_helpers.c).
-- * Startup (sensorsUnleashed/er-uart-server.c): the devices that the server registers at its start, and
--   their resources.
-- * Gui (SensorsUnleasedGui/suGui/wsn.cpp): the CoAP client of the desktop program. Gui.Block is the block
--   option, Gui.Wsn the messages that wait for an answer: sending them, repeating them (Timeout), and what
--   is done with a datagram (Receive). Gui.Wsn.Delivered joins it with Coap.Put: what the client sends is given
--   to the node.
-- * Contiki, interfaces to its lib/memb.h and lib/list.h; and Common, shared types and lemmas.
--
-- A driver's interrupt or command changes a device's value and calls the event engine, which sets bits in
-- the device's flag and polls the process; the process tells the observers and clears the flag.
-- An observer is another node's pair: its notification callback runs the handler that the pairing
-- set, which switches that node's device.
--
-- A struct is a record, an enum a data type or its numbers, a pointer that may be NULL an `Option`. State
-- that C changes in place is passed on. Code whose behaviour C leaves undefined, such as a write
-- behind a buffer's end, gives `none`. Integers of the target are natural numbers with their
-- wrap-around written out; `char` is unsigned, as on the ARM targets. Loops over lists and arrays
-- are structural; the array decoders recurse on the room that is left in the array, which ends
-- every run, since one more value is a write behind its end. The loop that reads the file of
-- reverseNotify.c takes a block of a pool of 20 in each round, and has 21 rounds. The loops over the file of
-- pairing.c read a record of a byte at least in each round, and have one round more than the file has
-- bytes; a loop that would go on is `none`. The loop of res-uartsensors.c has a result of its own for an undefined
-- round, for rounds that are left to do, and for its end.
--
-- What is not of the repository is a parameter with documented behaviour: GPIO pins and LEDs
-- (`Gpio`, `Leds`), memory pools and lists (`Memb`, `Lists`), files (`Cfs`), the checksum, the MessagePack library,
-- and how the desktop program's CoAP library (cantcoap) reads a datagram; a message of it is a record.
-- The modules named Tests hold concrete instances of all of them.
--
-- Not modelled: the MessagePack library itself (sensorsUnleashed/lib/cmp.c) and cantcoap, copies of other
-- projects'; the wait of the server for a route after its start, and its prints; the register set-up of the
-- drivers, platform code (targets) and the rest of the desktop applications. Files are written whole: a flash
-- that is full is a file that cannot be opened.
pub mod Common
pub mod Contiki
pub mod Gui
pub mod Uart
pub mod Cmp
pub mod Coap
pub mod Startup
pub mod Sensor
pub mod Device
pub mod Registry
pub mod Pairing
pub mod ReverseNotify
