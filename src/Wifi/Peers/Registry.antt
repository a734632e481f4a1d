-- ===== src/Wifi/Peers/Registry.antt =====
-- Associations and disassociations: the well-formed registry, and who is found in it.
use esp_ptp.Base.{
  ℕ, zero, suc, ◌^◌, ◌<◌, true, ◌≡◌, refl, ◌∙◌, ◌≢◌, ◌⊎◌, inl, inr, none, some, List, [], ◌∷◌,
  arith, Bool-cases, Option-cases, length, set, length-set,
}
use esp_ptp.Base.Word.{next_nonzero}
use esp_ptp.Base.Bytes.{Bytes, same_iff, same_refl}
use mathlib.Core.Path.{subst}
use esp_ptp.Wifi.Peers.{
  Peer, Peers, peers_max, empty, entry, holds, find, unicast, slot_for, joined, join, leave,
}
use esp_ptp.Wifi.Peers.Slots.{
  IsUnique, find-holds, free_lem, find-set_new, find-set_same, find-set_other, find-set-empty,
  IsUnique-set, IsUnique-set-empty,
}

-- Sixteen slots, with no address in two of them, and a 32-bit generation.
abbrev pub IsValid : Peers → Type 0
IsValid p = (length p.entries ≡ peers_max) × IsUnique p.entries × (p.generation < 2 ^ 32)

next_nonzero-lt :
    (n : ℕ) → n < 2 ^ 32 → (next_nonzero n < 2 ^ 32) × (next_nonzero n ≢ 0) × (next_nonzero n ≢ n)
next_nonzero-lt n h = ground arith

set_twice : {A : Type 0} (xs : List A) (i : ℕ) (a b : A) → set (set xs i a) i b ≡ set xs i b
set_twice [] i a b = refl
set_twice (x ∷ xs) zero a b = refl
set_twice (x ∷ xs) (suc i) a b = rw (set_twice xs i a b)

-- A station that takes a slot keeps the addresses unique, whether it had the slot or it was free.
slot_for-IsUnique :
    (ps : List Peer) (q : Peer) (i : ℕ)
    → IsUnique ps
    → slot_for ps q.mac ≡ some i
    → IsUnique (set ps i q)
unfolding slot_for
slot_for-IsUnique ps q i u h = elim (Option-cases (find ps q.mac)) [
  | inl e ↦ IsUnique-set ps i q u e
  | inr (j, e) ↦ subst IsUnique (set_twice ps i empty q) (
      IsUnique-set (set ps i empty) i q (IsUnique-set-empty ps i u)
        (find-set-empty ps i q.mac u (ground (arith, e, h))))
]

slot_for-find :
    (ps : List Peer) (q : Peer) (i : ℕ)
    → slot_for ps q.mac ≡ some i
    → holds q q.mac ≡ true
    → (find (set ps i q) q.mac ≡ some i) × (i < length ps)
unfolding slot_for
slot_for-find ps q i h m = elim (Option-cases (find ps q.mac)) [
  | inl e ↦ ground (arith, e, find-set_new ps i q q.mac e, free_lem ps i)
  | inr (j, e) ↦ ground (arith, e, find-set_same ps i q q.mac, find-holds ps q.mac i)
]

slot_for-other :
    (ps : List Peer) (q : Peer) (i : ℕ) (other : Bytes)
    → slot_for ps q.mac ≡ some i
    → (other ≡ q.mac) ⊎ (find (set ps i q) other ≡ find ps other)
unfolding slot_for
slot_for-other ps q i other h = elim (Option-cases (find ps q.mac)) [
  | inl e ↦ ground (arith, e, find-set_other ps i q other, free_lem ps i, same_iff q.mac other)
  | inr (j, e) ↦ ground (
    arith,
    e,
    find-set_other ps i q other,
    find-holds ps q.mac i,
    same_iff q.mac other,
    same_iff (entry ps i).mac other,
    same_iff (entry ps i).mac q.mac,
  )
]

-- An association and a disassociation keep the registry well formed, and so does clearing it.
pub join-IsValid : (p : Peers) (mac : Bytes) → IsValid p → IsValid (join p mac).0
unfolding join
join-IsValid p mac v = elim (Bool-cases (unicast mac)) [
  | inr e ↦ rw e v
  | inl e ↦ elim (Option-cases (slot_for p.entries mac)) [
    | inl n ↦ rw (e, n) v
    | inr (i, n) ↦
        rw (e, n)
          (
            length-set p.entries i (joined mac (next_nonzero p.generation)) ∙ v.0,
            slot_for-IsUnique p.entries (joined mac (next_nonzero p.generation)) i v.1 n,
            (next_nonzero-lt p.generation v.2).0,
          )
  ]
]

pub leave-IsValid : (p : Peers) (mac : Bytes) → IsValid p → IsValid (leave p mac)
unfolding leave
leave-IsValid p mac v = elim (Option-cases (find p.entries mac)) [
  | inl n ↦ rw (leave, n) v
  | inr (i, n) ↦
      rw (leave, n)
        (
          length-set p.entries i empty ∙ v.0,
          IsUnique-set-empty p.entries i v.1,
          (next_nonzero-lt p.generation v.2).0,
        )
]

entry-set : (ps : List Peer) (i : ℕ) (q : Peer) → i < length ps → entry (set ps i q) i ≡ q
entry-set [] i q h = ground arith
entry-set (p ∷ ps) zero q h = refl
entry-set (p ∷ ps) (suc i) q h = entry-set ps i q (omega arith)

joined-find :
    (p : Peers) (mac other : Bytes) (i : ℕ)
    → p.generation < 2 ^ 32
    → slot_for p.entries mac ≡ some i
    → let g = next_nonzero p.generation in
      let ps = set p.entries i (joined mac g) in
      (k : ℕ) × (some i ≡ some k)
      × (find ps mac ≡ some k)
      × (entry ps k ≡ joined mac g)
      × (g ≢ 0)
      × (g ≢ p.generation)
      × ((other ≡ mac) ⊎ (find ps other ≡ find p.entries other))
joined-find p mac other i h n =
    let g = next_nonzero p.generation in
    let found = slot_for-find p.entries (joined mac g) i n (same_refl mac) in
    (
      i,
      refl,
      found.0,
      entry-set p.entries i (joined mac g) found.1,
      (next_nonzero-lt p.generation h).1,
      (next_nonzero-lt p.generation h).2,
      slot_for-other p.entries (joined mac g) i other n,
    )

-- An association that is refused changes nothing. One that is accepted starts a new lifetime of the
-- station: it is found in the slot it got, with nothing bound and a new nonzero association number that
-- is the registry's generation; every other station is found where it was.
pub join-find :
    (p : Peers) (mac other : Bytes)
    → p.generation < 2 ^ 32
    → let (p', got) = join p mac in
      ((got ≡ none) × (p' ≡ p))
      ⊎ (i : ℕ) × (got ≡ some i)
        × (find p'.entries mac ≡ some i)
        × (entry p'.entries i ≡ joined mac p'.generation)
        × (p'.generation ≢ 0)
        × (p'.generation ≢ p.generation)
        × ((other ≡ mac) ⊎ (find p'.entries other ≡ find p.entries other))
unfolding join
join-find p mac other h = elim (Bool-cases (unicast mac)) [
  | inr e ↦ rw e (inl (refl, refl))
  | inl e ↦ elim (Option-cases (slot_for p.entries mac)) [
    | inl n ↦ rw (e, n) (inl (refl, refl))
    | inr (i, n) ↦ rw (e, n) (inr (joined-find p mac other i h n))
  ]
]

found_other :
    (ps : List Peer) (mac other : Bytes) (i : ℕ)
    → find ps mac ≡ some i
    → (other ≡ mac) ⊎ (find (set ps i empty) other ≡ find ps other)
found_other ps mac other i n = ground (
  arith,
  n,
  find-set_other ps i empty other,
  find-holds ps mac i n,
  same_iff (entry ps i).mac other,
  same_iff (entry ps i).mac mac,
)

-- A station that leaves is not found any more, and every other station is found where it was.
pub leave-find :
    (p : Peers) (mac other : Bytes)
    → IsUnique p.entries
    → (find (leave p mac).entries mac ≡ none)
      × ((other ≡ mac) ⊎ (find (leave p mac).entries other ≡ find p.entries other))
unfolding leave
leave-find p mac other u = elim (Option-cases (find p.entries mac)) [
  | inl n ↦ rw (leave, n) (n, inr refl)
  | inr (i, n) ↦
      rw (leave, n) (find-set-empty p.entries i mac u n, found_other p.entries mac other i n)
]
