-- ===== src/Daemon/Injected/Refine.antt =====
-- The ring buffer of Daemon.Injected as a bounded first-in first-out list.
use esp_ptp.Base.{
  ℕ, zero, suc, ◌+◌, ◌-◌, ◌%◌, ◌≤◌, ◌<◌, Bool, true, false, not, ◌&&◌, if◌then◌else◌, ◌==◌, ltb,
  ◌≡◌, refl, sym, ap, ◌≢◌, ◌⊎◌, inl, inr, Option, List, [], ◌∷◌, ◌++◌, arith, length, get_or, set,
  length-set,
}
use esp_ptp.Base.Word.{u32}
use esp_ptp.Base.Bytes.{Bytes}
use mathlib.Core.Path.{ap₂}
use esp_ptp.Peer.Wire.{Timespec}
use esp_ptp.Daemon.Injected.{
  Frame, Queue, Status, Taken, ok, esrch, estale, enobufs, nothing, retired, current, depth,
  no_frame, make_frame, enqueue, dequeue, retire, bump_all, retire_all, start, shutdown,
}

pub record IsQueue (q : Queue) : Type 0 where
  pub slots_length : length q.slots ≡ depth
  pub head_bound : q.head < depth
  pub count_bound : q.count ≤ depth

-- The frames in the ring, oldest first.
unfoldable pub ring : List Frame → ℕ → ℕ → List Frame
ring slots head zero = []
ring slots head (suc n) = get_or slots head no_frame ∷ ring slots ((head + 1) % depth) n

-- The abstract queue.
pub record Fifo : Type 0 where
  pub frames : List Frame
  pub generations : List ℕ
  pub enabled : Bool

pub view : Queue → Fifo
view q = record {
  frames = ring q.slots q.head q.count;
  generations = q.generations;
  enabled = q.enabled;
}

unfoldable pub is_current : List ℕ → Frame → Bool
is_current gs f = f.link_generation == get_or gs f.port_index 0

-- The steps of all tasks on the queue.
pub data Step : Type 0 where
  send : ℕ → ℕ → Bytes → Timespec → Option Bytes → Step
  take_one close open_again retire_ports : Step
  retire_port : ℕ → Step

pub data Output : Type 0 where
  silent : Output
  sent : Status → Output
  taken : Taken → Output

pub step : Queue → Step → Queue × Output
step q (send generation port frame received mac) =
    let (q', s) = enqueue q generation port frame received mac in (q', sent s)
step q take_one = let (q', t) = dequeue q in (q', taken t)
step q close = (shutdown q, silent)
step q open_again = (start q, silent)
step q retire_ports = (retire_all q, silent)
step q (retire_port port) = (retire q port, silent)

pub fifo_send : Fifo → ℕ → ℕ → Bytes → Timespec → Option Bytes → Fifo × Output
fifo_send f generation port frame received mac =
    if not f.enabled
    then (f, sent esrch)
    else if not (generation == get_or f.generations port 0)
    then (f, sent estale)
    else if length f.frames == depth
    then (f, sent enobufs)
    else (
      record f { frames = f.frames ++ make_frame generation port frame received mac ∷ [] },
      sent ok,
    )

pub fifo_take : Fifo → List Frame → Fifo × Output
fifo_take f [] = (f, taken nothing)
fifo_take f (x ∷ xs) =
    (record f { frames = xs }, taken (if is_current f.generations x then current x else retired))

pub fifo_step : Fifo → Step → Fifo × Output
fifo_step f (send generation port frame received mac) =
    fifo_send f generation port frame received mac
fifo_step f take_one = fifo_take f f.frames
fifo_step f close =
    (record { frames = []; generations = bump_all f.generations; enabled = false }, silent)
fifo_step f open_again =
    (record { frames = []; generations = bump_all f.generations; enabled = true }, silent)
fifo_step f retire_ports = (record f { generations = bump_all f.generations }, silent)
fifo_step f (retire_port port) = (
  record f { generations = set f.generations port (u32 (get_or f.generations port 0 + 1)) },
  silent,
)

pub run : Queue → List Step → Queue × List Output
run q [] = (q, [])
run q (s ∷ ss) = let (q', o) = step q s in let (q'', os) = run q' ss in (q'', o ∷ os)

pub fifo_run : Fifo → List Step → Fifo × List Output
fifo_run f [] = (f, [])
fifo_run f (s ∷ ss) = let (f', o) = fifo_step f s in let (f'', os) = fifo_run f' ss in (f'', o ∷ os)

length-ring : (slots : List Frame) (head n : ℕ) → length (ring slots head n) ≡ n
unfolding ring
length-ring slots head zero = refl
length-ring slots head (suc n) = ap suc (length-ring slots ((head + 1) % depth) n)

get_or-set :
    (xs : List Frame) (i : ℕ) (v : Frame) (j : ℕ)
    → get_or (set xs i v) j no_frame
      ≡ (if i == j && ltb j (length xs) then v else get_or xs j no_frame)
get_or-set [] i v j = ground arith
get_or-set (x ∷ xs) zero v zero = ground arith
get_or-set (x ∷ xs) zero v (suc j) = ground arith
get_or-set (x ∷ xs) (suc i) v zero = ground arith
get_or-set (x ∷ xs) (suc i) v (suc j) = ground (arith, get_or-set xs i v j)

-- A write to a free slot leaves the frames in the ring.
ring-set :
    (slots : List Frame) (head n k at : ℕ) (x : Frame)
    → at ≡ (head + n + k) % depth
    → head < depth
    → n + k < depth
    → ring (set slots at x) head n ≡ ring slots head n
unfolding ring
ring-set slots head zero k at x e h l = refl
ring-set slots head (suc n) k at x e h l =
    let ne : at ≢ head = λ d. omega arith in
    ap₂ ◌∷◌ (ground (arith, get_or-set slots at x head))
      (ring-set slots ((head + 1) % depth) n k at x (omega arith) (omega arith) (omega arith))

pub ring-snoc :
    (slots : List Frame) (head n at : ℕ) (x : Frame)
    → at ≡ (head + n) % depth
    → length slots ≡ depth
    → head < depth
    → n < depth
    → ring (set slots at x) head (suc n) ≡ ring slots head n ++ x ∷ []
unfolding ring
ring-snoc slots head zero at x e full h l =
    ap (λ y. y ∷ []) (ground (arith, get_or-set slots at x head))
ring-snoc slots head (suc n) at x e full h l =
    let ne : at ≢ head = λ d. omega arith in
    ap₂ ◌∷◌ (ground (arith, get_or-set slots at x head))
      (ring-snoc slots ((head + 1) % depth) n at x (omega arith) full (omega arith) (omega arith))

-- The oldest frame stands at the head.
pub ring_pop :
    (slots : List Frame) (head n : ℕ)
    → (n ≡ 0) × (ring slots head n ≡ [])
      ⊎ (n ≢ 0)
        × (ring slots head n ≡ get_or slots head no_frame ∷ ring slots ((head + 1) % depth) (n - 1))
unfolding ring
ring_pop slots head zero = inl (refl, refl)
ring_pop slots head (suc n) = inr (omega arith, ground arith)

pub step-IsQueue : (q : Queue) (s : Step) → IsQueue q → IsQueue (step q s).0
unfolding step enqueue dequeue retire retire_all start shutdown
step-IsQueue q (send generation port frame received mac) h = ground (
  arith,
  h,
  length-set q.slots ((q.head + q.count) % depth) (make_frame generation port frame received mac),
)
step-IsQueue q take_one h = ground (arith, h)
step-IsQueue q close h = ground (arith, h)
step-IsQueue q open_again h = ground (arith, h)
step-IsQueue q retire_ports h = ground (arith, h)
step-IsQueue q (retire_port port) h = ground (arith, h)

view-step :
    (q : Queue) (s : Step)
    → IsQueue q
    → (view (step q s).0 ≡ (fifo_step (view q) s).0) × ((step q s).1 ≡ (fifo_step (view q) s).1)
unfolding step fifo_step view enqueue dequeue retire retire_all start shutdown fifo_send fifo_take
    ring is_current
view-step q (send generation port frame received mac) h = ground (
  arith,
  h,
  length-ring q.slots q.head q.count,
  ring-snoc q.slots q.head q.count ((q.head + q.count) % depth)
      (make_frame generation port frame received mac),
)
view-step q take_one h = ground (arith, h, ring_pop q.slots q.head q.count)
view-step q close h = (refl, refl)
view-step q open_again h = (refl, refl)
view-step q retire_ports h = (refl, refl)
view-step q (retire_port port) h = (refl, refl)

-- Whatever the tasks do in whatever order, each call on the ring buffer of eight frames returns what the
-- same call returns on a first-in first-out list that refuses a ninth frame, and the frames in the ring
-- remain those of the list, oldest first.
pub view-run :
    (q : Queue) (ss : List Step)
    → IsQueue q
    → IsQueue (run q ss).0
      × (view (run q ss).0 ≡ (fifo_run (view q) ss).0)
      × ((run q ss).1 ≡ (fifo_run (view q) ss).1)
unfolding run fifo_run
view-run q [] h = (h, refl, refl)
view-run q (s ∷ ss) h =
    let rest = view-run (step q s).0 ss (step-IsQueue q s h) in
    let one = view-step q s h in rw (sym one.0) (rest.0, rest.1, ap₂ ◌∷◌ one.1 rest.2)
