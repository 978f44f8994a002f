-- ===== src/Resource/Reserve.antt =====
-- A reservation as one transaction, and its release: `try_new` and `Drop` of execution/resource.rs.
use proofframe.Prelude.{
  ℕ, ◌+◌, max, ◌≡◌, ◌≢◌, refl, sym, ap, ◌∙◌, Bool, true, false, List, [], ◌∷◌, map, Option, none,
  some, arith, ◌==◌, if◌then◌else◌, All,
}
use proofframe.Error.{resource_limit, Result, ok, err}
use proofframe.Resource.{
  ResourceKind, Counters, memory, temp, name, Heap, used, cap, peak, set_used, set_peak, update,
  raise_peaks, commit, Reservation, try_new, charge, ResourceAccount, nodes, try_reserve_memory,
}
use proofframe.Resource.Charge.{held_at}
use proofframe.Resource.Atomic.{
  Distinct, FitsU64, Holding, answer, charged_at, blocked, usages_of, charge_lem,
}

abbrev pub mem : ℕ → List ℕ → Bool
mem n [] = false
mem n (m ∷ ms) = if n == m then true else mem n ms

pub mem-apart : (n : ℕ) (ns : List ℕ) → All (λ m. n ≢ m) ns → mem n ns ≡ false
mem-apart n [] a = refl
mem-apart n (m ∷ ms) a = ground (arith, mem-apart n ms a.1)

pub held_at-Distinct :
    (n bytes : ℕ) (ns : List ℕ) → Distinct ns → held_at n bytes ns ≡ (if mem n ns then bytes else 0)
unfolding held_at
held_at-Distinct n bytes [] d = refl
held_at-Distinct n bytes (m ∷ ms) d =
    ground (arith, held_at-Distinct n bytes ms d.1, mem-apart m ms d.0)

-- one node with the bytes charged to it and its peak raised
abbrev pub reserved : ResourceKind → ℕ → Counters → Counters
reserved k bytes c =
    set_peak k (max (peak k c) (used k c + bytes)) (set_used k (used k c + bytes) c)

set_peak_if :
    (k : ResourceKind) (n : ℕ) (h : Heap) (v m : ℕ)
    → (update n (set_peak k v (h.at n)) h).at m ≡ (if m == n then set_peak k v (h.at m) else h.at m)
set_peak_if memory n h v m = ground arith
set_peak_if temp n h v m = ground arith

at-raise_peaks :
    (k : ResourceKind) (f : ℕ → ℕ) (ns : List ℕ) (h : Heap) (m : ℕ)
    → Distinct ns
    → (raise_peaks k ns (map f ns) h).at m
      ≡ (if mem m ns then set_peak k (max (peak k (h.at m)) (f m)) (h.at m) else h.at m)
unfolding raise_peaks
at-raise_peaks k f [] h m d = refl
at-raise_peaks k f (n ∷ ns) h m d =
    let v : ℕ = max (peak k (h.at n)) (f n) in
    let h' : Heap = update n (set_peak k v (h.at n)) h in
    at-raise_peaks k f ns h' m d.1 ∙ ground (arith, set_peak_if k n h v m, mem-apart n ns d.0)

at-committed :
    (k : ResourceKind) (bytes : ℕ) (ns : List ℕ) (h : Heap) (c : Counters) (m : ℕ)
    → c ≡ set_used k (used k (h.at m) + (if mem m ns then bytes else 0)) (h.at m)
    → (if mem m ns then set_peak k (max (peak k c) (used k (h.at m) + bytes)) c else c)
      ≡ (if mem m ns then reserved k bytes (h.at m) else h.at m)
at-committed memory bytes ns h c m e = ground arith
at-committed temp bytes ns h c m e = ground arith

-- What a reservation answers: the reservation itself, or the first node of the path without room.
abbrev pub outcome : ResourceKind → ℕ → List ℕ → Heap → Option ℕ → Result Reservation
outcome k bytes ns h none = ok (record { held = ns; bytes = bytes; kind = k })
outcome k bytes ns h (some n) =
    err (resource_limit (name k) bytes (used k (h.at n)) (cap k (h.at n)))

abbrev pub node_after : ResourceKind → ℕ → List ℕ → Heap → Option ℕ → ℕ → Counters
node_after k bytes ns h none m = if mem m ns then reserved k bytes (h.at m) else h.at m
node_after k bytes ns h (some n) m = h.at m

Holding-nil : (k : ResourceKind) (bytes : ℕ) (h : Heap) → Holding k bytes [] h h
unfolding held_at
Holding-nil memory bytes h m = ground arith
Holding-nil temp bytes h m = ground arith

commit_lem :
    (k : ResourceKind) (bytes : ℕ) (ns : List ℕ) (h h' : Heap) (r : Result (List ℕ)) (o : Option ℕ)
    → Distinct ns
    → r ≡ answer k bytes (usages_of k bytes h ns) h o
    → ((m : ℕ) → h'.at m ≡ charged_at k bytes ns h o m)
    → ((commit k bytes ns r h').0 ≡ outcome k bytes ns h o)
      × ((m : ℕ) → (commit k bytes ns r h').1.at m ≡ node_after k bytes ns h o m)
unfolding commit
commit_lem k bytes ns h h' r (some n) d e f = rw e (refl, f)
commit_lem k bytes ns h h' r none d e f = rw e (
  refl,
  λ m.
      at-raise_peaks k (λ n. used k (h.at n) + bytes) ns h' m d
      ∙ at-committed k bytes ns h (h'.at m) m (
          f m
          ∙ ap (λ x. set_used k (used k (h.at m) + x) (h.at m)) (held_at-Distinct m bytes ns d)),
)

-- On a path of distinct nodes with counters and limits in u64, `try_new` is one transaction. If every
-- node has room, it returns the reservation, adds the bytes to the used counter of each node of the
-- path, raises that node's peak to the new usage, and changes nothing else. If a node has none, the
-- error names the usage and the limit of the first such node, and every counter is as it was.
pub try_new-atomic :
    (k : ResourceKind) (bytes : ℕ) (ns : List ℕ) (h : Heap)
    → Distinct ns
    → FitsU64 k h
    → ((try_new k bytes ns h).0 ≡ outcome k bytes ns h (blocked k bytes ns h))
      × ((m : ℕ) → (try_new k bytes ns h).1.at m ≡ node_after k bytes ns h (blocked k bytes ns h) m)
unfolding try_new
try_new-atomic k bytes ns h d fits =
    let (result, heap) =
      charge_lem k bytes h fits ns [] [] h d (Holding-nil k bytes h) fits.used_fits in
    commit_lem k bytes ns h _ _ (blocked k bytes ns h) d result heap

-- A reservation that was granted holds the bytes that were asked for.
pub try_new-bytes :
    (k : ResourceKind) (b : ℕ) (ns : List ℕ) (h : Heap) (r : Reservation)
    → (try_new k b ns h).0 ≡ ok r
    → r.bytes ≡ b
unfolding try_new commit
try_new-bytes k b ns h r e = of_commit (charge k b [] [] ns h).0 (charge k b [] [] ns h).1 e
  where
    of_commit : (c : Result (List ℕ)) (h : Heap) → (commit k b ns c h).0 ≡ ok r → r.bytes ≡ b
    of_commit (ok us) h e =
        let same : record { held = ns; bytes = b; kind = k } ≡ r = cc in
        sym (ap (λ r. r.bytes) same)
    of_commit (err x) h e = cc

pub try_reserve_memory-bytes :
    (a : ResourceAccount) (b : ℕ) (h : Heap) (r : Reservation)
    → (try_reserve_memory a b h).0 ≡ ok r
    → r.bytes ≡ b
unfolding try_reserve_memory
try_reserve_memory-bytes a b h r e = try_new-bytes memory b (nodes a) h r e
