-- ===== src/Lib.antt =====
-- zerowire, a wireless USB hub: a device that is plugged into one machine (the sender) is used from
-- another (the receiver). All traffic of a session goes through envelopes on one stream. This library
-- models the Rust code: the wire protocol (protocol/src) and the desktop code on both ends of it
-- (desktop-linux/src).
--
-- The parts, from the wire up, with paths from the root of the repository:
--   Bytes, Prelude, Bits     bytes and big- and little-endian numbers; shared lists, results, integers
--   Envelope                 protocol/src/envelope.rs: `Channel`, `Envelope`, `encode_into`, `encode`,
--                            `parse`; RoundTrip and Incremental hold what is proved of them
--   Usbip                    protocol/src/usbip.rs: opcodes, `UsbipFrame` (Usbip/Frame) and the four
--                            URB headers (Usbip/CmdSubmit and so on), `peek_urb_op` (Usbip/Dispatch)
--   Hid, Control             protocol/src/hid.rs and control.rs
--   Io, Wire                 fallible code over a stream, and `recv_envelope`, `send_envelope`,
--                            `recv_control`, `send_control` of desktop-linux/src/tls.rs, which wire.rs
--                            repeats for a TCP socket; Wire/Laws holds what is asked of a stream
--   Duplex                   the in-memory stream of the tests of urb_pump.rs, which keeps those laws
--   Device, Pump             desktop-linux/src/urb_pump.rs: the fake device (`dispatch_submit`,
--                            `execute_control`, `execute_bulk`) and the loop `run_pump`
--   Driver                   desktop-linux/src/urb_driver.rs: `script_default` and `run_script`, which
--                            talk to the pump (Driver/Exchange, Driver/Loopback)
--   HidDescriptor            desktop-linux/src/hid_descriptor.rs: `classify`
--   Uinput, Keymap, Reports  desktop-linux/src/uinput.rs and receiver.rs: input reports as events
--   Receiver                 desktop-linux/src/receiver.rs: `pick_hid_device`, the handshake, the loop
--                            (`run_receive`, in whole in Receiver/Whole); Receiver/Machine is what it
--                            answers to what is said
--   Pinned                   desktop-linux/src/tls.rs: `PinnedPeerVerifier`
--   Text, Vhci, Transcript   desktop-linux/src/usbip.rs: `find_free_port`, `attach_socket`, and the lines
--                            that `SimulatedAttach` writes
--   UsbipReceiver            desktop-linux/src/usbip_receiver.rs: `run_usbip_receive` and the three ways
--                            in which it goes on
--   Sender, AndroidPump,     desktop-linux/src/bin/simulate_android_pump.rs and mock_sender.rs:
--   MockSender               `run_session` of both; AndroidPump/Session and MockSender/Session put a
--                            sender and a receiver together
--   LinuxSender              desktop-linux/src/bin/linux_sender.rs: `serve_session`, which forwards the
--                            reports of a real device; LinuxSender/Session puts it and a receiver together
--   Tests                    runs on concrete inputs
--
-- How code is modelled. A function of Rust is a function here, with its guards in the order of the
-- source. A `Result` is `Result`; a function that reads or writes is an action of `Io`, which gives
-- back the state of the stream also when it fails, and `Failure` has a case for each kind of error
-- without its text. `?` is the bind of a `do` block. Machine integers are natural numbers with the
-- wrap-around written out, an `i32` is an integer with `as` in both directions; a `+=` on a counter
-- wraps, as in a release build. A slice index that can be out of range is the failure `panic`.
-- Function-local statics are a record that is passed along.
--
-- Loops run on fuel. `pump_loop` takes one unit for each envelope, and more units than there are
-- bytes to come are enough, since an envelope has a header of eight bytes; `scan` takes one unit for
-- each item of a descriptor, and its length is enough; `receive_loop` and `relay_loop` take
-- one for each round, and the number of bytes to come is enough there too; `forward_reports` takes
-- one for each read, and one more than the file has reads before its end are enough.
--
-- Not modelled: TLS and the key derivation (protocol/src/psk.rs, the rest of tls.rs), which end in a
-- stream, the parameter `Stream`; the JSON form of messages, which is serde's, the parameter `Json`;
-- the writing of an event to /dev/uinput, the parameter `UinputDevice`; sysfs and the transcript file,
-- the parameters `Sysfs` and `Transcript`; mDNS, sockets, logs, the lines that `run_script` adds to the
-- transcript; the command line; the Kotlin sender. The file of a HID device and the list of the devices
-- that linux_sender.rs makes from sysfs are the parameters `Hidraw` and `listing`.
pub mod Prelude
pub mod Bytes
pub mod Envelope
pub mod Usbip
pub mod Json
pub mod Hid
pub mod Control
pub mod Io
pub mod Wire
pub mod Duplex
pub mod Bits
pub mod Device
pub mod Pump
pub mod Driver
pub mod HidDescriptor
pub mod Uinput
pub mod Keymap
pub mod Reports
pub mod Receiver
pub mod Text
pub mod Vhci
pub mod Transcript
pub mod UsbipReceiver
pub mod Sender
pub mod AndroidPump
pub mod MockSender
pub mod LinuxSender
pub mod Pinned
pub mod Tests
