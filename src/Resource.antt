-- ===== src/Resource.antt =====
-- execution/resource.rs: limits, the counters of a resource hierarchy, and reservations that charge
-- a node with all its ancestors. `Arc`s are ids of nodes on a heap, so that accounts share them.
mod Charge
pub mod Atomic
pub mod Reserve
pub mod Release
pub mod Sharing
mod Runs
use proofframe.Prelude.{
  ℕ, ◌+◌, ◌-◌, ◌*◌, ◌%◌, ◌^◌, max, List, [], ◌∷◌, ◌++◌, Bool, true, false, ltb, ◌==◌, if◌then◌else◌,
  String,
}
use proofframe.Error.{resource_limit, cancelled, Result, ok, err}

-- every width but u128 is below 2 ^ 64
abbrev pub u64_mod : ℕ
u64_mod = 2 ^ 64

pub record ResourceLimits : Type 0 where
  pub max_memory_bytes : ℕ
  pub max_temp_bytes : ℕ
  pub max_output_records : ℕ
  pub max_samples : ℕ

abbrev pub default_limits : ResourceLimits
default_limits = record {
  max_memory_bytes = 512 * 1024 * 1024;
  max_temp_bytes = 4 * 1024 * 1024 * 1024;
  max_output_records = 100000;
  max_samples = 100;
}

pub record Counters : Type 0 where
  pub memory_cap : ℕ
  pub temp_cap : ℕ
  pub memory : ℕ
  pub peak_memory : ℕ
  pub temp : ℕ
  pub peak_temp : ℕ

abbrev pub new_counters : ℕ → ℕ → Counters
new_counters memory_cap temp_cap = record {
  memory_cap = memory_cap;
  temp_cap = temp_cap;
  memory = 0;
  peak_memory = 0;
  temp = 0;
  peak_temp = 0;
}

pub data ResourceKind : Type 0 where
  memory temp : ResourceKind

abbrev pub name : ResourceKind → String
name memory = "memory"
name temp = "temporary storage"

-- `used_and_limit`, and `peak`: which counter a kind reads
abbrev pub used : ResourceKind → Counters → ℕ
used memory c = c.memory
used temp c = c.temp

abbrev pub cap : ResourceKind → Counters → ℕ
cap memory c = c.memory_cap
cap temp c = c.temp_cap

abbrev pub peak : ResourceKind → Counters → ℕ
peak memory c = c.peak_memory
peak temp c = c.peak_temp

abbrev pub set_used : ResourceKind → ℕ → Counters → Counters
set_used memory v c = record c { memory = v }
set_used temp v c = record c { temp = v }

abbrev pub set_peak : ResourceKind → ℕ → Counters → Counters
set_peak memory v c = record c { peak_memory = v }
set_peak temp v c = record c { peak_temp = v }

-- The nodes that exist, by id; `next` is the first id that is free.
pub record Heap : Type 0 where
  pub next : ℕ
  pub at : ℕ → Counters

abbrev pub update : ℕ → Counters → Heap → Heap
update n c h = record h { at = λ m. if m == n then c else h.at m }

-- `nodes` is the path from the root down to the account's own node.
pub record ResourceAccount : Type 0 where
  pub root : ℕ
  pub below : List ℕ
  pub limits : ResourceLimits

abbrev pub nodes : ResourceAccount → List ℕ
nodes a = a.root ∷ a.below

pub new_root : ResourceLimits → Heap → ResourceAccount × Heap
new_root limits h = (
  record { root = h.next; below = []; limits = limits },
  record {
    next = h.next + 1;
    at = λ m.
        if m == h.next then new_counters limits.max_memory_bytes limits.max_temp_bytes else h.at m;
  },
)

pub child : ResourceAccount → ℕ → ℕ → Heap → ResourceAccount × Heap
child a memory_cap temp_cap h = (
  record a { below = a.below ++ h.next ∷ [] },
  record {
    next = h.next + 1;
    at = λ m. if m == h.next then new_counters memory_cap temp_cap else h.at m;
  },
)

-- `self.nodes.last()`
unfoldable pub last_or : ℕ → List ℕ → ℕ
last_or n [] = n
last_or n (m ∷ ms) = last_or m ms

unfoldable pub current : ResourceAccount → Heap → Counters
unfolding last_or
current a h = h.at (last_or a.root a.below)

pub memory_used : ResourceAccount → Heap → ℕ
memory_used a h = (current a h).memory

unfoldable pub peak_memory_used : ResourceAccount → Heap → ℕ
peak_memory_used a h = (current a h).peak_memory

pub temp_used : ResourceAccount → Heap → ℕ
temp_used a h = (current a h).temp

unfoldable pub peak_temp_used : ResourceAccount → Heap → ℕ
peak_temp_used a h = (current a h).peak_temp

-- `Ok next`, or `Err (current, limit)`. `checked_add` fails past u64.
pub data Charged : Type 0 where
  charged : ℕ → Charged
  full : ℕ → ℕ → Charged

-- With no other thread the compare-exchange succeeds in its first round; `Sharing` has its retries.
unfoldable pub try_charge : ℕ → ℕ → ℕ → Charged
try_charge used limit bytes =
    if ltb (used + bytes) u64_mod
    then (if ltb limit (used + bytes) then full used limit else charged (used + bytes))
    else full used limit

-- `fetch_sub` wraps
abbrev pub sub_u64 : ℕ → ℕ → ℕ
sub_u64 a b = (a + u64_mod - b) % u64_mod

unfoldable pub release : ResourceKind → ℕ → List ℕ → Heap → Heap
release k bytes [] h = h
release k bytes (n ∷ ns) h =
    release k bytes ns (update n (set_used k (sub_u64 (used k (h.at n)) bytes) (h.at n)) h)

-- the loop of `try_new`: `done` are the nodes that are charged, `usages` is `committed_usage`
unfoldable pub charge : ResourceKind → ℕ → List ℕ → List ℕ → List ℕ → Heap → Result (List ℕ) × Heap
unfolding try_charge release
charge k bytes done usages [] h = (ok usages, h)
charge k bytes done usages (n ∷ ns) h = elim (try_charge (used k (h.at n)) (cap k (h.at n)) bytes) [
  | charged usage ↦
      charge k bytes (done ++ n ∷ []) (usages ++ usage ∷ []) ns
        (update n (set_used k usage (h.at n)) h)
  | full current limit ↦ (err (resource_limit (name k) bytes current limit), release k bytes done h)
]

-- `fetch_max` over the nodes zipped with the committed usages
unfoldable pub raise_peaks : ResourceKind → List ℕ → List ℕ → Heap → Heap
raise_peaks k (n ∷ ns) (u ∷ us) h =
    raise_peaks k ns us (update n (set_peak k (max (peak k (h.at n)) u) (h.at n)) h)
raise_peaks k _ _ h = h

pub record Reservation : Type 0 where
  pub held : List ℕ
  pub bytes : ℕ
  pub kind : ResourceKind

-- the rest of `try_new`, after its loop
unfoldable pub commit :
    ResourceKind → ℕ → List ℕ → Result (List ℕ) → Heap → Result Reservation × Heap
unfolding raise_peaks
commit k bytes ns (ok usages) h =
    (ok (record { held = ns; bytes = bytes; kind = k }), raise_peaks k ns usages h)
commit k bytes ns (err e) h = (err e, h)

unfoldable pub try_new : ResourceKind → ℕ → List ℕ → Heap → Result Reservation × Heap
unfolding charge commit
try_new k bytes ns h = let (r, h') = charge k bytes [] [] ns h in commit k bytes ns r h'

unfoldable pub try_reserve_memory : ResourceAccount → ℕ → Heap → Result Reservation × Heap
unfolding try_new
try_reserve_memory a bytes = try_new memory bytes (nodes a)

unfoldable pub try_reserve_temp : ResourceAccount → ℕ → Heap → Result Reservation × Heap
unfolding try_new
try_reserve_temp a bytes = try_new temp bytes (nodes a)

-- `Drop for Reservation`
unfoldable pub drop_reservation : Reservation → Heap → Heap
unfolding release
drop_reservation r = release r.kind r.bytes r.held

-- `CancellationToken.check`, of the flag that its clones share
abbrev pub check : Bool → Result (Unit {0})
check true = err cancelled
check false = ok tt
