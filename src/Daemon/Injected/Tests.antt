-- ===== src/Daemon/Injected/Tests.antt =====
-- A queue with its ring about to wrap around, and instances of its theorems.
use esp_ptp.Base.{true, ◌≡◌, refl, none, List, [], ◌∷◌, arith, replicate}
use esp_ptp.Base.Bytes.{Bytes, zeros}
use esp_ptp.Peer.Wire.{no_time}
use esp_ptp.Daemon.Injected.{Queue, no_frame}
use esp_ptp.Daemon.Injected.Refine.{
  IsQueue, view, Step, send, take_one, retire_port, run, fifo_run, view-run,
}

abbrev empty : Queue
empty = record {
  slots = replicate 8 no_frame;
  head = 7;
  count = 0;
  generations = 5 ∷ 6 ∷ [];
  enabled = true;
}

abbrev frame : Bytes
frame = 1 ∷ 2 ∷ zeros 32

empty-IsQueue : IsQueue empty
empty-IsQueue = record { slots_length = refl; head_bound = omega arith; count_bound = omega arith }

-- Two frames come in, the port of one is retired, and both are taken.
abbrev steps : List Step
steps =
    send 5 0 frame no_time none
    ∷ send 6 1 frame no_time none
    ∷ retire_port 0
    ∷ take_one
    ∷ take_one
    ∷ []

view-run_example :
    IsQueue (run empty steps).0
    × (view (run empty steps).0 ≡ (fifo_run (view empty) steps).0)
    × ((run empty steps).1 ≡ (fifo_run (view empty) steps).1)
view-run_example = view-run empty steps (empty-IsQueue)
