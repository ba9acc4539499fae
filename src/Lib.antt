-- ===== src/Lib.antt =====
-- rust-user-net, a network stack in user space: Ethernet, ARP, IP, ICMP, UDP and TCP over a TAP
-- device. A frame that a device reads is queued by its type (src/devices, src/protocols/mod.rs),
-- ARP and IP take it from there, and IP hands its payload to ICMP, UDP or TCP. On the way out TCP,
-- UDP and ICMP call the output of IP, which looks up a route, resolves the hardware address with
-- ARP and calls the transmission of the device. Paths are those of the repository.
--
-- The modules, with the code they are about:
--   Utils: src/utils (byte order, the checksum `cksum16`, the linked list).
--   Net: src/net.rs, src/interrupt.rs and the types of src/protocols/mod.rs.
--   Device: src/devices and src/drivers; `Dispatch` is `NetDevice` and `NetDevices`.
--   Arp: src/protocols/arp.rs; `Table` is `ArpTable`, `Handlers` the requests, replies and input.
--   Ip: src/protocols/ip/mod.rs; `Addr` the text of addresses, `Route` the routes, `Header`,
--     `Output` and `Input` the functions of these names.
--   Protocols: the queues of src/protocols/mod.rs and `handle_data`.
--   Icmp: src/protocols/ip/icmp.rs.
--   Udp: src/protocols/ip/udp.rs; `Pcbs` the control blocks, `Datagram` input and output, `Socket`
--     the user commands. `Mailbox` and `Apart` are about these over time.
--   Tcp: src/protocols/ip/tcp.rs; `Early` and `Phases` are the parts of `segment_arrives` in their
--     order, `Arrives` puts them together, `Retransmit` is a pass of the thread, `Commands` and
--     `Sending` are the user commands. `Live` and `System` are about all of these over time,
--     `Window` about the buffer, `Handshake` and `Transfer` about two hosts.
--   App: src/app.rs and src/main.rs; `Setup` is `NetApp::new`, `Signals` the loop over the signals
--     and what it calls, `Commands` the steps of the threads of the four commands,
--     `CommandLine` their start, `Locks` the order in which each call takes the four locks.
--   Network: packets and datagrams from one program to another, over `Ip`, `Udp`, `Device`,
--     `Protocols` and `App`.
--   Context: what the handlers take as `device` and `contexts`, as one state that is passed on.
--   Channel: the channels that wake a command. Base: lists, tests, and how a call ends.
--   Tests: examples at concrete inputs.
--
-- The model. A call that panics ends in `panic`; a build with overflow checks is meant, so an
-- addition that overflows panics too. A read of a structure from a slice that is too short ends in
-- `fault`. `Result<T, ()>` is `Res`. Words are natural numbers with their wrap-around written out,
-- on a little-endian target. A time is a number of microseconds, the same during one call. A
-- command that waits is split into the parts before and after its wait. What is random, the time,
-- the file of the TAP device and the answer of `raise` are arguments.
--
-- Bounds and fuel: the loop that folds the carries of a checksum runs on fuel, and the sum itself is
-- enough. The inner loop of `send` runs on fuel, and one round more than there are bytes to send is
-- enough. Checksums are taken of at most 131000 bytes, more than a packet has.
--
-- Threads: what a thread does between taking the locks and giving them back is one step. `Tcp.System`
-- takes the steps of all threads in any order; a step is a call that returns. `connect`, which takes
-- the lock of the control blocks three times, is one step up to its wait.
--
-- In `App.Locks` each call is the list of the locks that it takes and gives and of its waits.
--
-- Not modelled: the parser of the command line, a third-party crate, whose result is an argument;
-- sleeps, the order of a command between its waits and the other threads in src/app.rs and
-- src/main.rs; logging. Of src/drivers/tap.rs the ioctl calls, a write that fails, which is logged
-- there, and a read with no frame there, which waits: in the model it ends in `panic`.
mod Base
pub mod Utils
pub mod Net
pub mod Ip
pub mod Device
pub mod Arp
pub mod Context
pub mod Icmp
pub mod Channel
pub mod Udp
pub mod Tcp
pub mod Protocols
pub mod App
pub mod Network
pub mod Tests
