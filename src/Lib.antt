-- ===== src/Lib.antt =====
-- Audio-Studio: the framework of the server, the framing and the JSON of its RPC connection, and the
-- device's end of the link to it.
--
-- The server moves packets between a host and an audio device. A client's RPC request arrives in a
-- binary frame (rpc); the services of the framework (audio sessions, dumps, controls, plugins,
-- sessions, named services) answer it; what has to go to the device leaves through a channel of the
-- transport manager, which puts it into a transport frame, and the data-link manager cuts that into
-- fragments that it sends until each is acknowledged. The device answers in C (audio_controller):
-- its own codec and its own stop-and-wait loop on the same frames.
--
-- Which file models what (paths from the repository's root):
-- Prelude, OrderedMap: numbers, lists, text and std::map with its order of keys, as the rest uses
--   them. A map is the list of its entries in key order.
-- Framework/Status, Framework/Action: server/framework/common status.hpp and status.cpp. A method
--   that may return early is a function from the object to a result and the object, so that what
--   was written before the return stays written.
-- Framework/ServiceRegistry, SessionRegistry, DumpService, ControlService, PluginManager:
--   the classes of the same names under server/framework; Framework/PlatformRegistry:
--   server/platform/core. A method is the function of its name in snake case.
-- Wire: the byte order and the checksums of all frames (`appendU16`, `readU32`, `crc32`, ...).
-- Transport/Frame: frame_codec.cpp of server/framework/transport; Transport/DataLinkFrame:
--   datalink_frame.cpp there.
-- Transport/DataLink: datalink_manager.cpp. `readFrame` is `read_frame` with one `round` of its
--   loop; Send holds `sendPacket` (`send_packet`, for a fragment `deliver`, for one write and its
--   acknowledgement `attempt`); Receive holds `receivePacket`.
-- Transport/Channel: `ChannelRuntime` and `channelWorker` of transport_manager.cpp, with the steps
--   of its threads as a relation; Transport/Manager: the other methods of transport_manager.cpp,
--   its child Binding those that bind a device, Closing those that drain and close channels.
-- Audio: server/framework/audio and the driver interface drivers/audio/include/audio_device.hpp.
--   Session has what playback and capture sessions share, Service the service.
-- Rpc/BinaryFrame and TextFrame: rpc/src/rpc_framing.cpp, the binary frames and those with a
--   `Content-Length` header.
-- Rpc/Json: rpc/src/json_value.cpp. Scan, Text, Number and Parser hold the class `Parser`, whose
--   position is the input that is left; Dump holds `dump`, Access the accessors, Numerals the
--   whole numbers as texts.
-- Rpc/Endpoint, Client, Params: rpc/src/json_rpc.cpp. `handleRequest` is `handle_request`; the checks
--   of `handleSingleRequest` are `handle_single_request`, `handle_object`, `handle_method` and
--   `handle_params`, in that order. A method is a function of its parameters to what it returns or
--   throws. The client's transport is a function on a state of its own.
-- Rpc/RuntimeContext: rpc/src/rpc_runtime_context.cpp, the numbers of sessions and streams;
--   Rpc/ApiRegistry: rpc/src/rpc_api_registry.cpp, whose `addMethod` is `add_spec`.
-- Controller: audio_controller/src. LinkFrame and DataLink are ac_datalink.c, TransportFrame and
--   RequestQueue are parts of ac_transport.c; a function is that of its name without the prefix
--   `ac_datalink_` or `ac_transport_`. A call gives `ok` for 0, `returns` for any other code, and
--   `overrun` where the C code would write past a buffer.
-- Tests: devices and objects to run the definitions on, and the theorems at concrete inputs.
--
-- Numbers are natural numbers; where the source's type wraps, the reduction is written out
-- (`u16`, `u32`, `% 2 ^ 64`). Counters of the data link count without bound.
-- `readFrame` loops on fuel. A round adds a byte to the buffer or sleeps a millisecond, a buffer
-- without a whole frame is shorter than 2 ^ 32 + 36 bytes, and the deadline is the timeout away:
-- 2 ^ 32 + 36 + 1000000 * timeout_ms rounds are enough, and with them the result is never `stuck`,
-- the one value that the program does not have.
-- `parseJson` runs on fuel, two units for each byte of the text and one more, which is enough for
-- every text; the loop of a string has a unit for each byte. The loops of the controller run on
-- fuel that their caller gives: a device that sends bytes without end can keep its read going.
-- Devices, drivers, driver factories and the clock are parameters: records of functions on a state
-- of their own, any functions unless a theorem asks for more.
--
-- Not modelled: `sendSync` on several channels at once, the services that the RPC runtime context
-- hands out, the RPC servers and socket transports, JSON numbers of type double, configuration, log
-- and system information, drivers that call the operating system, the threads, dispatch and commands
-- of the audio controller, the command line, and the start-up code of the server.
pub mod Prelude
pub mod OrderedMap
pub mod Framework
pub mod Wire
pub mod Transport
pub mod Audio
pub mod Rpc
pub mod Controller
pub mod Tests
