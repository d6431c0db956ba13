-- ===== src/Lib.antt =====
-- The streaming core of iiod: what libiio's daemon does between a DMA engine that must not wait and a
-- client that may be slow, and what the library does with the samples that arrive. These parts are here, each with
-- the theorems that it rests on:
--   DdrRing      iiod/ddr-ring-core.c, .h: a ring of DDR frames between one producer and one consumer.
--                Its record `Ring` is `struct iiod_ddr_ring_core`; each function `init`,
--                `producer_reserve`, ... is `iiod_ddr_ring_core_` with that name. Inv and Ops hold the
--                invariant, Step the calls in any order, Fifo the abstract queue of slots, Progress the
--                counters and the terminal states, Continuity the sample counters.
--   VisitQueue   iiod/spf-visit-queue.c, .h: capture windows that are reserved against a budget, bound
--                to source time, cut out of leased DMA blocks, and handed to the transport. Feed is
--                `spf_visit_queue_feed`, Ops the other calls; Sums, Accounts, Books and Step keep
--                the books, Cover and Complete follow the samples.
--   ScanPolicy   iiod/spf-scan-policy.c, .h: the lottery over scan targets under revisit deadlines.
--                Select is `spf_scan_policy_select` and `_commit`, Receipts the feedback and its
--                acknowledgements; Mailbox and Ledger count those, Appends and Order
--                queue them, Owed, Paid and Run say which are owed; Deadline is the schedule and Lottery the draw.
--   HopProtocol  iiod/spf-hop-protocol.c, .h: the wire format of hop requests, sidecars and status.
--                RequestWire, EventWire and StatusWire are the codecs, the Trip modules their round
--                trips, Wire the little-endian bytes.
--   HopSession   iiod/spf-hop-session.c, .h: the session that carries out one hop plan over a device.
--                Restore ends it, Events validates what the device reports, Ops are the calls
--                (`init`, `arm`, `start`, `on_block`, `cancel` are `spf_hop_session_v1_` with that
--                name), Counter extends counters. Inv, Live and Run hold the invariant and the calls in any
--                order, Frame what a call does to the device, Plan, Aligned and Whole follow the events, Reaching,
--                UnderWay and Ending their end,
--                Once, Sendable, Encode, Complete and Covered say what comes of it.
--   RingWire     iiod/spf-ddr-ring-request.c, iiod/spf-ddr-burst-request.c: the requests of a ring and of
--                a burst; Status is iiod/spf-ddr-ring-status.c, StatusTrip its round trip, and Snapshot
--                what `read_buffer_metadata_status` of iiod/ops.c copies from a ring.
--   BufferLayout iiod/spf-buffer-layout.c: the sizes of a buffer, in Sequence the numbers of frames;
--                Coverage is iiod/spf-sampler-coverage.c.
--   CounterMetadata  iiod/spf-counter-metadata.c: the frame header with its CRC-32; Seal is about the check sum, Trip
--                the round trip.
--   Channel      channel.c of the library: `iio_channel_convert` and `iio_channel_convert_inverse` between the bytes
--                of a sample and its number. Value, Mask, Sign and Convert follow the number through the
--                shifts, the mask and the sign, Sample puts them together.
--   Scan         scan.c of the library, and `iio_context_info_compare` of sort.c: the search for contexts. Order holds
--                the laws of the comparison, Distinct follows the duplicates, Search the whole of it; `qsort` and
--                the backends are parameters, `qsort` with what its manual says of it for
--                consistent comparisons (`IsQsort`).
--   Prelude      what they share: the libraries' names, Boolean tests, lists and machine words.
-- In the daemon a scan session asks the policy for a target, reserves and binds a window in the visit
-- queue, feeds it blocks and reports back as feedback; the ring carries the frames of a burst to its
-- client. That session is not modelled, so these parts do not take one another as a parameter: each is
-- stated for every sequence of calls that a session could make. A hop session validates its request with
-- the encoder of the hop protocol, and what it makes goes to that encoder; the device under it is a
-- parameter, a record of its three operations, of which the theorems assume only that the profile it
-- reports as restored is one of the eight or none (`DeviceContract`). The daemon numbers frames with
-- BufferLayout.Sequence before a hop session sees them, and the status of a ring goes to RingWire.
--
-- A stateful function takes the state and returns it with its status, an `int` that is 0 or a negated
-- errno; what goes out through a pointer is an option. The model starts behind the tests of pointers
-- for NULL, and allocations succeed. Numbers are natural numbers: where a sum of uint64_t or uint32_t
-- can wrap the model wraps (add64, sub32, ...), and where the code has just tested that it cannot, the
-- plain operation stands. Memory for the wire is a function from offsets to bytes; a sample of a channel
-- and a text are lists of bytes.
-- All loops are structural recursion but one: the rejection of random draws in `select` runs on fuel,
-- and a call whose fuel is spent has not returned; no bound on the number of draws is claimed, since
-- the code has none. The callback `release` of the visit queue is a function of the token.
--
-- Not modelled: adaptive hop sessions, the scan session, the scheduler and the device backends,
-- the metadata provider, the daemon's sockets, threads and parser, the rest of the client
-- library and its transports, which are mostly calls of the operating system and of other libraries. Of
-- Channel and Scan, conversion is proved for little-endian hosts, and where the second sort of a search puts
-- the freed entries is not said: its comparison is not consistent, and then the manual of `qsort` promises nothing.
pub mod Prelude
pub mod DdrRing
pub mod VisitQueue
pub mod HopProtocol
pub mod HopSession
pub mod RingWire
pub mod Channel
pub mod BufferLayout
pub mod CounterMetadata
pub mod Scan
pub mod ScanPolicy
