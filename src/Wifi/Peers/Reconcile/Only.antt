-- ===== src/Wifi/Peers/Reconcile/Only.antt =====
-- What a reconciliation of Wifi.Peers.Reconcile leaves in the registry, and when it is refused.
use esp_ptp.Base.{
  ℕ, suc, ◌^◌, ◌≤◌, ◌<◌, Bool, true, false, not, ◌&&◌, ◌==◌, ◌≡◌, refl, ap, ◌∙◌, ◌≢◌, ◌⊎◌, inl, inr,
  none, some, List, [], ◌∷◌, arith, Bool-cases, Option-cases, length,
}
use esp_ptp.Base.Bytes.{Bytes, same_iff}
use esp_ptp.Wifi.Peers.{Peer, Peers, peers_max, advance, find, join}
use esp_ptp.Wifi.Peers.Slots.{IsUnique}
use esp_ptp.Wifi.Peers.Registry.{IsValid, join-IsValid, join-find}
use esp_ptp.Wifi.Peers.Reconcile.{
  listed, acceptable, count_listed, prune, join_all, adopt, difference, reconcile,
}

find-prune :
    (ps : List Peer) (macs : List Bytes) (mac : Bytes)
    → (find ps mac ≡ none)
    → (find (prune ps macs) mac ≡ none)
unfolding prune find
find-prune [] macs mac h = refl
find-prune (q ∷ qs) macs mac h =
    ground (arith, find-prune qs macs mac, Option-cases (find qs mac), h)

prune-IsUnique : (ps : List Peer) (macs : List Bytes) → IsUnique ps → IsUnique (prune ps macs)
unfolding prune IsUnique
prune-IsUnique [] macs u = u
prune-IsUnique (q ∷ qs) macs u = elim (Bool-cases (q.associated && not (listed macs q.mac))) [
  | inl e ↦ rw e (inl refl, prune-IsUnique qs macs u.1)
  | inr e ↦ rw e (
    elim u.0 [ inl d ↦ inl d | inr d ↦ inr (find-prune qs macs q.mac d) ],
    prune-IsUnique qs macs u.1,
  )
]

length-prune : (ps : List Peer) (macs : List Bytes) → length (prune ps macs) ≡ length ps
unfolding prune
length-prune [] macs = refl
length-prune (q ∷ qs) macs = ap suc (length-prune qs macs)

prune_only :
    (ps : List Peer) (macs : List Bytes) (mac : Bytes)
    → (listed macs mac ≡ true) ⊎ (find (prune ps macs) mac ≡ none)
unfolding prune find
prune_only [] macs mac = inr refl
prune_only (q ∷ qs) macs mac = ground (arith, prune_only qs macs mac, same_iff q.mac mac)

join_all-IsValid : (p : Peers) (macs : List Bytes) → IsValid p → IsValid (join_all p macs)
unfolding join_all
join_all-IsValid p [] v = v
join_all-IsValid p (mac ∷ macs) v = join_all-IsValid (join p mac).0 macs (join-IsValid p mac v)

join_all_only :
    (p : Peers) (macs : List Bytes) (mac : Bytes)
    → IsValid p
    → find p.entries mac ≡ none
    → (listed macs mac ≡ true) ⊎ (find (join_all p macs).entries mac ≡ none)
unfolding join_all listed
join_all_only p [] mac v h = inr h
join_all_only p (x ∷ xs) mac v h = ground (
  arith,
  join_all_only (join p x).0 xs mac (join-IsValid p x v),
  join-find p x mac v.2,
  same_iff mac x,
)

pruned-IsValid :
    (p : Peers) (macs : List Bytes)
    → IsValid p
    → IsValid (advance (record p { entries = prune p.entries macs }))
pruned-IsValid p macs v =
    (length-prune p.entries macs ∙ v.0, prune-IsUnique p.entries macs v.1, ground (arith, v.2))

adopt-IsValid :
    (p : Peers) (boot generation : ℕ) (macs : List Bytes)
    → IsValid p
    → IsValid (adopt p boot generation macs)
unfolding adopt
adopt-IsValid p boot generation macs v = join_all-IsValid _ macs (pruned-IsValid p macs v)

adopt_only :
    (p : Peers) (boot generation : ℕ) (macs : List Bytes) (mac : Bytes)
    → IsValid p
    → ((listed macs mac ≡ true) ⊎ (find (adopt p boot generation macs).entries mac ≡ none))
      × ((adopt p boot generation macs).reconciled_generation
          ≡ (adopt p boot generation macs).generation)
      × ((adopt p boot generation macs).radio_boot ≡ boot)
      × ((adopt p boot generation macs).radio_generation ≡ generation)
unfolding adopt
adopt_only p boot generation macs mac v = (
  elim (prune_only p.entries macs mac) [
    | inl e ↦ inl e
    | inr e ↦ join_all_only _ macs mac (pruned-IsValid p macs v) e
  ],
  refl,
  refl,
  refl,
)

-- Reconciliation keeps the registry well formed, refusals included.
pub reconcile-IsValid :
    (p : Peers) (boot generation : ℕ) (macs : List Bytes)
    → IsValid p
    → IsValid (reconcile p boot generation macs).0
unfolding reconcile
reconcile-IsValid p boot generation macs v =
    ground (arith, v, adopt-IsValid p boot generation macs v)

count_listed_only :
    (ps : List Peer) (macs : List Bytes) (mac : Bytes) (n : ℕ)
    → count_listed ps macs ≡ some n
    → (listed macs mac ≡ true) ⊎ (find ps mac ≡ none)
unfolding count_listed find
count_listed_only [] macs mac n h = inr refl
count_listed_only (q ∷ qs) macs mac n h = elim (Option-cases (count_listed qs macs)) [
  | inl e ↦ ground (arith, h, e, same_iff q.mac mac)
  | inr (k, e) ↦ ground (arith, h, e, count_listed_only qs macs mac k e, same_iff q.mac mac)
]

repeats : Peers → List Bytes → Bool
repeats p macs = elim (count_listed p.entries macs) [ none ↦ false | some n ↦ n == length macs ]

repeats_only :
    (p : Peers) (macs : List Bytes) (mac : Bytes)
    → repeats p macs ≡ true
    → (listed macs mac ≡ true) ⊎ (find p.entries mac ≡ none)
unfolding repeats
repeats_only p macs mac h = elim (Option-cases (count_listed p.entries macs)) [
  | inl e ↦ ground (arith, h, e)
  | inr (k, e) ↦ count_listed_only p.entries macs mac k e
]

repeats_lem :
    (p : Peers) (macs : List Bytes)
    → repeats p macs ≡ false
    → count_listed p.entries macs ≢ some (length macs)
unfolding repeats
repeats_lem p macs h = λ e. ground (arith, h, e)

-- What a report is refused for: no radio lifetime or generation, too many addresses or unacceptable
-- ones, a generation older than the last one, or the last one again with other stations than the
-- registry has, or with a registry that has changed since.
abbrev pub IsRefused : Peers → ℕ → ℕ → List Bytes → Type 0
IsRefused p boot generation macs =
    (boot ≡ 0)
    ⊎ (generation ≡ 0)
    ⊎ (peers_max < length macs)
    ⊎ (acceptable [] macs ≡ false)
    ⊎ (p.radio_boot ≡ boot)
      × ((2 ^ 31 ≤ difference generation p.radio_generation)
          ⊎ (difference generation p.radio_generation ≡ 0)
            × ((p.reconciled_generation ≢ p.generation)
                ⊎ (count_listed p.entries macs ≢ some (length macs))))

-- A reconciliation that returns false changes nothing, and is refused for one of the reasons. After one
-- that returns true no station is in the registry that the radio did not report, and the registry is
-- reconciled. It changes nothing only where it repeats the last generation of the same radio lifetime;
-- any other that returns true is newer than the last one of that lifetime, and its lifetime and
-- generation are kept.
pub reconcile_only :
    (p : Peers) (boot generation : ℕ) (macs : List Bytes) (mac : Bytes)
    → IsValid p
    → let (p', ok) = reconcile p boot generation macs in
      (ok ≡ false) × (p' ≡ p) × IsRefused p boot generation macs
      ⊎ (ok ≡ true)
        × ((listed macs mac ≡ true) ⊎ (find p'.entries mac ≡ none))
        × (p'.reconciled_generation ≡ p'.generation)
        × ((p' ≡ p) × (p.radio_boot ≡ boot) × (difference generation p.radio_generation ≡ 0)
            ⊎ ((p'.radio_boot ≡ boot) × (p'.radio_generation ≡ generation))
              × ((p.radio_boot ≢ boot)
                  ⊎ (0 < difference generation p.radio_generation)
                    × (difference generation p.radio_generation < 2 ^ 31)))
unfolding reconcile repeats
reconcile_only p boot generation macs mac v =
    ground
      (arith, adopt_only p boot generation macs mac v, repeats_only p macs mac, repeats_lem p macs)
