-- ===== src/Lib.antt =====
-- Verification of the core libraries of the ground software GSW.
--
-- The ground station receives telemetry packets of a vehicle. A configuration file says which
-- packets there are and where each measurement lies in them (lib/vcm). The packets are kept in
-- shared memory, one block per packet, which many processes read and write at once
-- (lib/telemetry/src/TelemetryShm.cpp). Raw measurements are turned into C values and back by
-- lib/convert, and a trigger file says which function runs when a measurement changes
-- (lib/trigger, lib/daq, lib/ec). A countdown clock is kept in shared memory of its own (lib/clock), and
-- so are the locks of the vehicle's resources (lib/vlock) and the addresses of its network devices
-- (lib/nm). The parser's
-- packets size the blocks of shared memory, its places of measurements are where the telemetry
-- writer puts values, and its `get_info` serves the trigger parser.
--
-- Files, and the code that they are about:
--   Vcm/Types, Vcm/Config   include/lib/vcm/vcm.h; the constructors and lookups of lib/vcm/src/vcm.cpp
--   Vcm/Parse               VCM::init and VCM::parse_consts of lib/vcm/src/vcm.cpp, a function for each
--                           kind of line; under it the layout of measurements (Layout), the kinds
--                           of lines (Steps) and the whole file (Sound)
--   Convert/To, From        lib/convert/src/convert.cpp, a function for each overload; Convert/RoundTrip,
--                           Convert/Text, Convert/To/Signed and Convert/To/Unsigned hold proofs
--   Telemetry/Shm/State     include/lib/telemetry/TelemetryShm.h; init, create, open, close
--   Telemetry/Shm/Write     write, clear, write_lock, write_unlock
--   Telemetry/Shm/Read      the two read_lock, read_unlock, and the bits of the futex; Held is the
--                           memory that a lock was taken over, which stays until the unlock
--   Telemetry/Shm/Query     get_buffer, packet_updated, update_value, more_recent_packet
--   Telemetry/Shm/Locking   the semaphores of write, clear, read_lock and read_unlock as steps of any
--                           number of processes: Roles is the invariant, Invariant its
--                           preservation, Safety and Progress what follows, Interrupted what a call
--                           leaves that returns at master nonce 0
--   Telemetry/Writer        lib/telemetry/src/TelemetryWriter.cpp: init, write, write_raw on the buffers of
--                           virtual packets; Copies and Places are the steps to Laws;
--                           Flush is flush, over Telemetry/Shm/Write; Holds is about several writes
--   Telemetry/Viewer        lib/telemetry/src/TelemetryViewer.cpp: what a reader tracks (Tracking,
--                           Distinct), update over Telemetry/Shm/Read (Copies, Update), and the
--                           latest value of a measurement (Latest, Values)
--   Telemetry/RoundTrip     a measurement on its way from the writer over shared memory to the viewer
--   Clock                   lib/clock/src/clock.cpp: create, the commands of parse_cmd, read_time; Show is
--                           to_str
--   Trigger/Parse           parse_trigger_file of lib/trigger/src/trigger.cpp and the table of
--                           include/lib/trigger/map.h
--   Trigger/Basic           the functions of lib/trigger/src/basic.cpp, over Telemetry/Viewer and
--                           Telemetry/Writer
--   Xbee                    what lib/dev/xbee/src/xbee.c sends, and hton of lib/dev/xbee/src/net.c
--   Xbee/Receive            xb_rx_complete of the same file, with the loop of
--                           app/xbee/xbee_bridge/src/main.cpp: Header and Reading are the parts of a frame
--   Daq                     lib/daq/src/sensors.cpp, over Telemetry/Viewer and Telemetry/Writer; Polynomial
--                           is the loops over the coefficients
--   Ec                      lib/ec/src/ec.cpp
--   Sem, Shm                calls on semaphores; the class of lib/shm/src/shm.cpp
--   Vlock                   lib/vlock/src/vlock.cpp over Shm; World are processes that use it, Guarded the
--                           invariant of its semaphores
--   Nm/Blocks               the addresses of devices in shared memory, lib/nm/src/NmShm.cpp; Calls is what its
--                           two functions do
--   Nm/Sockets              receivers, transmitters and QueueUDPMessage of lib/nm/src/nm.cpp; Net is a
--                           receiver and a transmitter of a device, Steps and Laws what they do
--   Prelude, Bytes, Text    shared types and lemmas, byte orders, and the parts of the C++ library that
--                           the parsers use (tokens of a stream, std::stoi)
--   Tests                   runs on concrete inputs
--
-- How the code is modelled. A call returns a value, a code that is not SUCCESS, or `fault`, which is
-- an access out of bounds or an uncaught exception (Prelude/Effects). Integers of w bits are
-- natural numbers below 2 ^ w with their wrap-around written out; a float is its bit pattern. Memory
-- is a list of bytes. A loop over a file is a recursion on its lines, and the inner loop of a
-- packet's block is the state in which a packet is open. The unordered maps are association lists.
-- `read_lock` loops until another process lets it return, so it is given a list of what it sees in
-- each pass, and says "still waiting" at the end of the list; nothing is assumed of the list but
-- that shared memory has its size. A step of `Locking` is one access to shared memory. A
-- `read_lock` of a list that sees the master nonce 0 returns INTERRUPTED as a reader that has entered:
-- in `Locking` that process is `interrupted` and stays counted, and the field `entered` of an object
-- says how often it is counted.
-- The bound of 2 ^ 33 lines of a configuration file keeps sizes of packets below 2 ^ 64, as a
-- measurement's size is below 2 ^ 31; fewer than 2 ^ 32 processes keep the counts of readers and
-- writers from wrapping.
--
-- Parameters: arithmetic on doubles, in the trigger functions and `Daq`; the write function of the
-- XBee, which the caller supplies; System V shared memory and the calls on semaphores, for `Shm`,
-- `Vlock` and `Nm`; answers of the calls on sockets and message queues, for `Nm`; `inet_pton`,
-- `snprintf` and `std::to_string`, which belong to the C and C++ libraries; for `flush`, whether the
-- packet logger of lib/dls takes each packet. Not modelled: failing calls of the operating system in
-- lib/telemetry, signal handlers, destructors, logging, attaching and naming the countdown clock's
-- memory, the lock and unlock of the telemetry writer, and the programs around this core
-- (lib/dev/serial, lib/python, proc, and app but for the loop of the XBee's bridge).
pub mod Prelude
pub mod Sem
pub mod Shm
pub mod Bytes
pub mod Clock
pub mod Text
pub mod Vcm
pub mod Vlock
pub mod Nm
pub mod Convert
pub mod Daq
pub mod Ec
pub mod Telemetry
pub mod Trigger
pub mod Xbee
