-- ===== src/Lib.antt =====
-- A model of esp_ptp, a PTP (IEEE 1588) and gPTP (IEEE 802.1AS) daemon for ESP32 targets, over Ethernet
-- and Wi-Fi, with the theorems that make its parts correct.
--
-- The program. The daemon (ptp.c) keeps a socket for each port, reads messages, selects the best source
-- and disciplines a clock. It leaves each protocol decision to a header of pure functions on a small state
-- that it owns: what a message is worth reading (ptp_message_bounds.h, ptp_path_trace.h, ptp_signaling.h),
-- when the next one is due (ptp_capable_interval.h, ptp_capable_schedule.h, ptp_announce_schedule.h,
-- ptp_sync_interval.h, ptp_sync_receipt.h), how the clock is moved (ptp_clock_affine.h, ptp_clock_sw.c,
-- ptp_wired_pi.h), what one peer delay exchange measures (ptp_peer_exchange.h), what is known of a Wi-Fi
-- association (ptp_wifi_*.h) and of Fine Timing Measurement (ptp_ftm_*.h). These are what is modelled;
-- each state is a record with the fields of the C structure, and each function is one definition, with
-- the name of the C function in a comment above it.
--
-- The files.
--   Base, Base/Tests, Lists, Int, Word, Bytes: what the modules share. Signed C integers are integers in
--     Base/Int, with division that rounds towards zero; unsigned words are natural numbers with their
--     wrap-around written out in Base/Word; a byte array is a list, read as 0 and written not at all out of
--     range.
--   Message/Bounds: ptp_message_bounds.h. Message/Normalize: ptp_gptp_wire.h.
--   Message/PathTrace: ptp_path_trace.h; its loops are Parse, its two directions RoundTrip.
--   Message/Signaling: ptp_signaling.h; Decode is the walk over the TLVs, Local what bounds its reads,
--     RoundTrip the messages that it writes.
--   Schedule/Timing, Interval, Capable, Announce, SyncInterval, SyncReceipt: the five scheduling headers.
--   Clock/Affine: ptp_clock_affine.h. Clock/Software: ptp_clock_sw.c. Clock/WiredPi: ptp_wired_pi.h.
--   Peer/Wire: the structures of ptp.h that are read from the wire. Peer/Exchange: ptp_peer_exchange.h.
--   Peer/CapableReceive, Capability, WiredCapable: the headers of those names.
--   Wifi/Port, Media, Neighbor, Peers: ptp_wifi_association.h, ptp_wifi_capable.h, ptp_wifi_neighbor.h,
--     ptp_wifi_peers.h; the last has Slots (lookups), Registry (associations), Messages and Reconcile with Only.
--   Ftm/Session, Success, Counter, Probe: ptp_ftm_session.h, ptp_ftm_success.h, ptp_ftm_counter.h with
--     ptp_ftm_rtt.h, and ptp_source_loss_probe.h.
--   Peer/Rate: ptp_peer_rate.h, over a parameter for the arithmetic of double.
--   Daemon: the parts of ptp.c. Format and Times: the conversions of times. Rank: is_better_clock.
--     LiteTlv: the AVB Lite TLVs. Injected: the queue of radio frames, with Refine (the queue as a list)
--     and Laws (one call). Selection: ptp_process_announce and is_selected_source_valid, with Best (which
--     source) and Valid (how long). Unicast: unicast Delay_Req. Servo: ptp_update_local_clock, with Jump
--     and Bounds. Snapshot: ptp_timing_snapshot.h and its state. Sync: Sync and Follow_Up. Delay: the
--     delay responses. TimeBase: ptp_fill_gm_fields. Links: the link and
--     association events of the ports, with Retire. Profile: the reset for a profile and the AVB Lite
--     fallback. Each has a record with the fields of struct ptp_state_s and of its port 0 that it uses:
--     Sync holds the servo's record and the snapshots in it, Profile the servo's too, and Selection
--     calls the path trace, the Wi-Fi neighbour and the receipt of Sync. Samples: states for the tests.
--   A module Tests holds runs of its parent and an instance of each theorem of the list below.
--
-- Pointers. An optional pointer argument is an Option, none for NULL; a pointer that every caller gives is
-- its value. A function that changes a structure returns the new one, with its result.
--
-- The clock, the random numbers and the options of the build are arguments: what esp_timer_get_time and
-- clock_gettime read, what the calls that set and trim the clock return, the timespec functions of the
-- system, CONFIG_ values. A `static` variable of a function is a field of its record. Where a lock divides
-- a function, what other tasks may do between is an argument (the state at the second lock in Injected,
-- `meanwhile` in Sync) or the definition says that nothing is done.
--
-- Bounds and fuel. The three loops over TLVs (Message/PathTrace, Message/Signaling, Daemon/LiteTlv) run on one
-- more step than the message has bytes, which is enough since each TLV is at least four bytes long. Times in microseconds and
-- nanoseconds are exact integers: where the code guards against int64_t overflow the guard is in the
-- definition.
--
-- correction_ns is a double in the C code, which holds whole nanoseconds below 2 ^ 47 exactly, and an
-- integer here; what a sum with it gives in double and back in int64_t is a parameter of the servo
-- (add_correction). No theorem excludes an overflow of int64_t in other sums of nanoseconds.
--
-- Not modelled. The sockets, tasks and event handlers of ptp.c, its loop but for the judgement of the source in
-- it (Daemon/Selection), the dispatch of received messages and the messages that it builds; ptp_wifi.c, ptp_radio_association.c and ptp_beacon_ie.c; log messages and the
-- counters that only they print; the tests, tools and examples.
pub mod Base
pub mod Message
pub mod Schedule
pub mod Clock
pub mod Peer
pub mod Wifi
pub mod Ftm
pub mod Daemon
