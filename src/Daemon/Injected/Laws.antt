-- ===== src/Daemon/Injected/Laws.antt =====
-- What one call of Daemon.Injected does: the refusals of a received frame, and the drain.
use esp_ptp.Base.{
  ℕ, zero, suc, ◌+◌, ◌≤◌, ◌<◌, true, false, if◌then◌else◌, ◌≡◌, ◌≢◌, ◌⊎◌, Option, List, [], ◌∷◌,
  ◌++◌, arith, length, take, length-replicate,
}
use esp_ptp.Base.Bytes.{Bytes, zeros, length-copy}
use esp_ptp.Peer.Wire.{Timespec}
use esp_ptp.Base.Bytes.{take-copy}
use esp_ptp.Daemon.Injected.{
  Frame, Queue, Status, ok, esrch, estale, enobufs, depth, raw_size, generation_of, make_frame,
  dequeue, drain,
}
use esp_ptp.Daemon.Injected.Refine.{IsQueue, ring, is_current, ring_pop}

-- The frames of the present generations.
pub live : List ℕ → List Frame → List Frame
live gs [] = []
live gs (f ∷ fs) = if is_current gs f then f ∷ live gs fs else live gs fs

-- How the second critical section ends, for a frame of a call that began at `generation`.
abbrev pub Enqueued : Queue → ℕ → ℕ → Frame → Queue → Status → Type 0
Enqueued q generation port f q' s =
    (s ≡ esrch) × (q' ≡ q) × (q.enabled ≡ false)
    ⊎ (q.enabled ≡ true)
      × ((s ≡ estale) × (q' ≡ q) × (generation ≢ generation_of q port)
          ⊎ (generation ≡ generation_of q port)
            × ((s ≡ enobufs) × (q' ≡ q) × (q.count ≡ depth)
                ⊎ (s ≡ ok)
                  × (q.count < depth)
                  × (q'.count ≡ q.count + 1)
                  × (ring q'.slots q'.head q'.count ≡ ring q.slots q.head q.count ++ f ∷ [])))

-- The slot of a frame holds its bytes, its number of bytes, its port and its time of reception.
pub make_frame_keeps :
    (generation port : ℕ) (frame : Bytes) (received : Timespec) (mac : Option Bytes)
    → port < 256
    → length frame ≤ raw_size
    → let f = make_frame generation port frame received mac in
      (take f.size f.message ≡ frame)
      × (length f.message ≡ raw_size)
      × (f.port_index ≡ port)
      × (f.received ≡ received)
unfolding make_frame
make_frame_keeps generation port frame received mac p l = ground (
  arith,
  take-copy (zeros raw_size) frame,
  length-copy (zeros raw_size) 0 frame,
  length-replicate {A = ℕ} raw_size 0,
)

drain-live :
    (n : ℕ) (q : Queue)
    → q.count ≤ n
    → let (q', fs) = drain n q in
      (q'.count ≡ 0)
      × (q'.generations ≡ q.generations)
      × (fs ≡ live q.generations (ring q.slots q.head q.count))
unfolding drain dequeue live is_current ring
drain-live zero q l = ground arith
drain-live (suc n) q l = ground (arith, ring_pop q.slots q.head q.count, drain-live n (dequeue q).0)

-- One pass of the daemon's loop takes every frame that waits and processes, in the order of their
-- arrival, those and only those whose port was not retired since.
pub drain_result :
    (q : Queue)
    → IsQueue q
    → let (q', fs) = drain depth q in
      (q'.count ≡ 0)
      × (q'.generations ≡ q.generations)
      × (fs ≡ live q.generations (ring q.slots q.head q.count))
drain_result q h = drain-live depth q h.count_bound
