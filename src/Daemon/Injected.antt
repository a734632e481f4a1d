-- ===== src/Daemon/Injected.antt =====
-- The queue of received radio frames of ptp.c: ptp_inject_received_frame_from, the drain of the daemon's
-- loop and what retires frames. The critical sections are the steps.
use esp_ptp.Base.{
  ℕ, zero, suc, ◌+◌, ◌-◌, ◌*◌, ◌/◌, ◌%◌, ◌^◌, ◌≤◌, ◌<◌, Bool, true, false, not, ◌&&◌, ◌||◌,
  if◌then◌else◌, ◌==◌, ltb, leb, ◌≡◌, refl, sym, ap, ◌∙◌, ◌≢◌, ◌↔◌, ◌⊎◌, inl, inr, Option, none,
  some, List, [], ◌∷◌, ◌++◌, map, arith, Bool-cases, Option-cases, ==_iff, length, get_or,
  get_elem?, set, take, drop, replicate, length-set, length-append, length-take, length-drop,
  length-replicate, length-map, take-append-drop,
}
use esp_ptp.Base.Int.{
  ℤ, pos, negsuc, neg, pos_part, neg_part, sub_ℕ, ◌+ℤ◌, ◌-ℤ◌, ◌*ℤ◌, lt_ℤ, le_ℤ, ◌==ℤ◌, ◌≤ℤ◌, ◌<ℤ◌,
  int64_max, int32_max, quot, rem, wrap, signed, min_ℤ, max_ℤ, int_laws, +ℤ_parts, -ℤ_parts,
  eq_of_parts,
}
use esp_ptp.Base.Word.{u8, u16, u32, uint16_max, next_nonzero}
use esp_ptp.Base.Bytes.{
  Bytes, byte, same, same_iff, same_refl, slice, be16, zeros, copy, fill, byte-set, byte-fill,
  byte-copy, length-fill, length-copy, byte-take, byte-drop, byte_past, slice-copy, bytes_ext,
}
use esp_ptp.Peer.Wire.{Timespec}
pub mod Refine
pub mod Laws
mod Tests

-- PTP_INJECT_DEPTH
abbrev pub depth : ℕ
depth = 8

-- sizeof ptp_msgbuf, and struct ptp_header_s
abbrev pub raw_size : ℕ
raw_size = 256

abbrev pub header_size : ℕ
header_size = 34

-- struct ptp_injected_frame_s; `length` is `size` here
pub record Frame : Type 0 where
  pub size : ℕ
  pub port_index : ℕ
  pub link_generation : ℕ
  pub source_mac : Bytes
  pub source_mac_valid : Bool
  pub received : Timespec
  pub message : Bytes

abbrev pub no_frame : Frame
no_frame = record {
  size = 0;
  port_index = 0;
  link_generation = 0;
  source_mac = zeros 6;
  source_mac_valid = false;
  received = record { tv_sec = pos 0; tv_nsec = pos 0 };
  message = zeros raw_size;
}

-- s_injected, s_injected_head, s_injected_count, s_injected_generation and s_injected_enabled; the list
-- of generations has CONFIG_ESP_PTP_NUM_PORTS members
pub record Queue : Type 0 where
  pub slots : List Frame
  pub head : ℕ
  pub count : ℕ
  pub generations : List ℕ
  pub enabled : Bool

-- The values returned: OK, and the negative ones of errno.
pub data Status : Type 0 where
  ok einval eio esrch estale enobufs : Status

pub data Taken : Type 0 where
  nothing retired : Taken
  current : Frame → Taken

abbrev pub generation_of : Queue → ℕ → ℕ
generation_of q port = get_or q.generations port 0

abbrev pub has_port : Queue → ℤ → Bool
has_port q port = le_ℤ (pos 0) port && lt_ℤ port (pos (length q.generations))

-- The first test of ptp_inject_received_frame_from, on the bytes of a frame and their number.
pub injectable : Queue → ℤ → Option Bytes → Bool
injectable q port none = false
injectable q port (some frame) =
    has_port q port && leb header_size (length frame) && leb (length frame) raw_size

-- ptp_wifi_link_generation, and the first critical section
pub link_generation : Queue → ℤ → ℕ
link_generation q port = if has_port q port then generation_of q (pos_part port) else 0

-- What the second critical section writes to a slot.
pub make_frame : ℕ → ℕ → Bytes → Timespec → Option Bytes → Frame
make_frame generation port frame received mac = record {
  size = length frame;
  port_index = u8 port;
  link_generation = generation;
  source_mac = elim mac [ none ↦ zeros 6 | some m ↦ copy (zeros 6) 0 (take 6 m) ];
  source_mac_valid = elim mac [ none ↦ false | some m ↦ true ];
  received = received;
  message = copy (zeros raw_size) 0 frame;
}

-- The second critical section of ptp_inject_received_frame_from.
pub enqueue : Queue → ℕ → ℕ → Bytes → Timespec → Option Bytes → Queue × Status
enqueue q generation port frame received mac =
    if not q.enabled
    then (q, esrch)
    else if not (generation == generation_of q port)
    then (q, estale)
    else if q.count == depth
    then (q, enobufs)
    else (
      record q {
        slots =
            set q.slots ((q.head + q.count) % depth)
              (make_frame generation port frame received mac);
        count = q.count + 1;
      },
      ok,
    )

-- ptp_inject_received_frame_from: `before` is the queue at the first critical section and `q` the one at
-- the second; `clock` is what ptp_gettime returns, without a value when it fails
pub inject : Queue → Queue → Option Timespec → ℤ → Option Bytes → Option Bytes → Queue × Status
inject before q clock port none mac = (q, einval)
inject before q clock port (some frame) mac =
    if not (injectable q port (some frame)) then (q, einval) else elim clock [
      | none ↦ (q, eio)
      | some received ↦
          enqueue q (generation_of before (pos_part port)) (pos_part port) frame received mac
    ]

-- The critical section of the drain in the daemon's loop.
pub dequeue : Queue → Queue × Taken
dequeue q =
    let incoming = get_or q.slots q.head no_frame in
    if q.count == 0 then (q, nothing) else (
      record q { head = (q.head + 1) % depth; count = q.count - 1 },
      (if incoming.link_generation == generation_of q incoming.port_index
          then current incoming
          else retired),
    )

-- The drain of one pass of the loop, with no step of another task between: the frames processed.
pub drain : ℕ → Queue → Queue × List Frame
drain zero q = (q, [])
drain (suc n) q =
    let (q', taken) = dequeue q in
    let rest = drain n q' in
    elim taken [ nothing ↦ (q', []) | retired ↦ rest | current f ↦ (rest.0, f ∷ rest.1) ]

-- `++s_injected_generation[port]`
pub retire : Queue → ℕ → Queue
retire q port = record q { generations = set q.generations port (u32 (generation_of q port + 1)) }

-- The loops over all ports.
unfoldable pub bump_all : List ℕ → List ℕ
bump_all gs = map (λ g. u32 (g + 1)) gs

pub retire_all : Queue → Queue
retire_all q = record q { generations = bump_all q.generations }

-- The end of ptp_initialize_state's set-up, and the end of the daemon's loop.
pub start : Queue → Queue
start q = record q { head = 0; count = 0; generations = bump_all q.generations; enabled = true }

pub shutdown : Queue → Queue
shutdown q = record q { enabled = false; count = 0; generations = bump_all q.generations }
