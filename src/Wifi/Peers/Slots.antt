-- ===== src/Wifi/Peers/Slots.antt =====
-- Lookup in the slots of the registry after one of them is overwritten.
use esp_ptp.Base.{
  ℕ, zero, suc, ◌≤◌, ◌<◌, true, false, ◌≡◌, refl, ◌⊎◌, inl, inr, none, some, List, [], ◌∷◌, arith,
  Option-cases, length, set,
}
use esp_ptp.Base.Bytes.{Bytes, same_iff}
use esp_ptp.Wifi.Peers.{Peer, empty, entry, holds, find, free}

-- No two associated slots have one address.
unfoldable pub IsUnique : List Peer → Type 0
IsUnique [] = 0 ≤ 0
IsUnique (p ∷ ps) = ((p.associated ≡ false) ⊎ (find ps p.mac ≡ none)) × IsUnique ps

pub find-holds :
    (ps : List Peer) (mac : Bytes) (i : ℕ)
    → find ps mac ≡ some i
    → (holds (entry ps i) mac ≡ true) × (i < length ps)
unfolding find
find-holds [] mac i h = ground arith
find-holds (p ∷ ps) mac zero h = ground (arith, Option-cases (find ps mac))
find-holds (p ∷ ps) mac (suc i) h = ground (arith, find-holds ps mac i)

pub free_lem :
    (ps : List Peer) (i : ℕ)
    → free ps ≡ some i
    → ((entry ps i).associated ≡ false) × (i < length ps)
unfolding free
free_lem [] i h = ground arith
free_lem (p ∷ ps) zero h = ground (arith, Option-cases (free ps))
free_lem (p ∷ ps) (suc i) h = ground (arith, free_lem ps i)

-- A lookup that finds nothing finds what is written, where it is written.
pub find-set_new :
    (ps : List Peer) (i : ℕ) (q : Peer) (mac : Bytes)
    → find ps mac ≡ none
    → i < length ps
    → holds q mac ≡ true
    → find (set ps i q) mac ≡ some i
unfolding find
find-set_new [] i q mac h k m = ground arith
find-set_new (p ∷ ps) zero q mac h k m = ground (arith, m)
find-set_new (p ∷ ps) (suc i) q mac h k m = ground (arith, find-set_new ps i q mac)

-- So does a lookup of the slot that is overwritten.
pub find-set_same :
    (ps : List Peer) (i : ℕ) (q : Peer) (mac : Bytes)
    → find ps mac ≡ some i
    → holds q mac ≡ true
    → find (set ps i q) mac ≡ some i
unfolding find
find-set_same [] i q mac h m = ground arith
find-set_same (p ∷ ps) zero q mac h m = ground (arith, m)
find-set_same (p ∷ ps) (suc i) q mac h m = ground (arith, find-set_same ps i q mac)

-- A lookup that neither the old nor the new contents of the slot answer is as before.
pub find-set_other :
    (ps : List Peer) (i : ℕ) (q : Peer) (mac : Bytes)
    → holds (entry ps i) mac ≡ false
    → holds q mac ≡ false
    → find (set ps i q) mac ≡ find ps mac
unfolding find
find-set_other [] i q mac h m = refl
find-set_other (p ∷ ps) zero q mac h m = ground (arith, h, m)
find-set_other (p ∷ ps) (suc i) q mac h m = ground (arith, find-set_other ps i q mac h m)

pub find-set-none :
    (ps : List Peer) (i : ℕ) (q : Peer) (mac : Bytes)
    → find ps mac ≡ none
    → holds q mac ≡ false
    → find (set ps i q) mac ≡ none
unfolding find
find-set-none [] i q mac h m = refl
find-set-none (p ∷ ps) zero q mac h m = ground (arith, h, m)
find-set-none (p ∷ ps) (suc i) q mac h m = ground (arith, find-set-none ps i q mac)

rest_empty :
    (p : Peer) (ps : List Peer) (mac : Bytes)
    → (p.associated ≡ false) ⊎ (find ps p.mac ≡ none)
    → holds p mac ≡ true
    → find ps mac ≡ none
rest_empty p ps mac u h = ground (arith, u, h, same_iff p.mac mac)

-- Where the addresses are unique, emptying the slot of a station leaves none that holds it.
pub find-set-empty :
    (ps : List Peer) (i : ℕ) (mac : Bytes)
    → IsUnique ps
    → find ps mac ≡ some i
    → find (set ps i empty) mac ≡ none
unfolding find IsUnique
find-set-empty [] i mac u h = refl
find-set-empty (p ∷ ps) zero mac u h = rw (rest_empty p ps mac u.0 (find-holds (p ∷ ps) mac 0 h).0)
find-set-empty (p ∷ ps) (suc i) mac u h = ground (arith, find-set-empty ps i mac)

holds_self :
    (p q : Peer) (mac : Bytes)
    → holds p mac ≡ false
    → q.mac ≡ mac
    → (p.associated ≡ false) ⊎ (holds q p.mac ≡ false)
holds_self p q mac h e = ground (arith, same_iff p.mac mac, same_iff q.mac p.mac)

head_free :
    (p : Peer) (ps : List Peer) (mac : Bytes) → find (p ∷ ps) mac ≡ none → holds p mac ≡ false
unfolding find
head_free p ps mac h = ground (arith, h)

tail_free :
    (p : Peer) (ps : List Peer) (mac : Bytes) → find (p ∷ ps) mac ≡ none → find ps mac ≡ none
unfolding find
tail_free p ps mac h = ground (arith, h, Option-cases (find ps mac))

-- Writing a station that no slot holds keeps the addresses unique.
pub IsUnique-set :
    (ps : List Peer) (i : ℕ) (q : Peer) → IsUnique ps → find ps q.mac ≡ none → IsUnique (set ps i q)
unfolding find IsUnique
IsUnique-set [] i q u h = u
IsUnique-set (p ∷ ps) zero q u h = (inr (tail_free p ps q.mac h), u.1)
IsUnique-set (p ∷ ps) (suc i) q u h = (
  elim u.0 [
    | inl e ↦ inl e
    | inr e ↦ elim (holds_self p q q.mac (head_free p ps q.mac h) refl) [
      | inl d ↦ inl d
      | inr d ↦ inr (find-set-none ps i q p.mac e d)
    ]
  ],
  IsUnique-set ps i q u.1 (tail_free p ps q.mac h),
)

-- So does emptying a slot.
pub IsUnique-set-empty : (ps : List Peer) (i : ℕ) → IsUnique ps → IsUnique (set ps i empty)
unfolding IsUnique
IsUnique-set-empty [] i u = u
IsUnique-set-empty (p ∷ ps) zero u = (inl refl, u.1)
IsUnique-set-empty (p ∷ ps) (suc i) u = (
  elim u.0 [ inl e ↦ inl e | inr e ↦ inr (find-set-none ps i empty p.mac e refl) ],
  IsUnique-set-empty ps i u.1,
)
