-- ===== src/Resource/Atomic.antt =====
-- `Reservation::try_new` of execution/resource.rs is all or nothing.
use proofframe.Prelude.{
  ℕ, ◌+◌, ◌<◌, ◌≡◌, ◌≢◌, refl, ap, ◌∙◌, true, false, List, [], ◌∷◌, ◌++◌, map, Option, none, some,
  arith, leb, if◌then◌else◌, All, Bool-cases, inl, inr, append_assoc, append-nil,
}
use proofframe.Error.{resource_limit, Result, ok, err}
use proofframe.Resource.{
  u64_mod, ResourceKind, Counters, memory, temp, name, Heap, used, cap, set_used, update,
  try_charge, charged, full, release, charge,
}
use proofframe.Resource.Charge.{held_at, held_at-snoc, at-release, used-update}

abbrev pub Distinct : List ℕ → Type 0
Distinct [] = Unit
Distinct (n ∷ ns) = All (λ m. n ≢ m) ns × Distinct ns

-- The heap after some nodes of a path were charged, against the heap at the start.
abbrev pub Holding : ResourceKind → ℕ → List ℕ → Heap → Heap → Type 0
Holding k bytes done start h =
    (m : ℕ) → h.at m ≡ set_used k (used k (start.at m) + held_at m bytes done) (start.at m)

-- no counter or limit leaves u64
pub record FitsU64 (k : ResourceKind) (h : Heap) : Type 0 where
  pub used_fits : (m : ℕ) → used k (h.at m) < u64_mod
  pub cap_fits : (m : ℕ) → cap k (h.at m) < u64_mod

-- The first node of a path that has no room for the bytes.
unfoldable pub blocked : ResourceKind → ℕ → List ℕ → Heap → Option ℕ
blocked k bytes [] h = none
blocked k bytes (n ∷ ns) h =
    if leb (used k (h.at n) + bytes) (cap k (h.at n)) then blocked k bytes ns h else some n

held_at-fresh :
    (n bytes : ℕ) (done ns : List ℕ) → Distinct (done ++ n ∷ ns) → held_at n bytes done ≡ 0
unfolding held_at
held_at-fresh n bytes [] ns d = refl
held_at-fresh n bytes (m ∷ done) ns (apart, d) =
    ground (arith, All-middle n done ns apart, held_at-fresh n bytes done ns d)
  where
    All-middle : {m : ℕ} (n : ℕ) (done ns : List ℕ) → All (λ i. m ≢ i) (done ++ n ∷ ns) → m ≢ n
    All-middle n [] ns a = a.0
    All-middle n (i ∷ done) ns a = All-middle n done ns a.1

module _ (c d : Counters) where
  used-set_used : (k : ResourceKind) (v : ℕ) → c ≡ set_used k v d → used k c ≡ v
  used-set_used memory v e = ground arith
  used-set_used temp v e = ground arith

  cap-set_used : (k : ResourceKind) (v : ℕ) → c ≡ set_used k v d → cap k c ≡ cap k d
  cap-set_used memory v e = ground arith
  cap-set_used temp v e = ground arith

  set_used_back :
      (k : ResourceKind) (v w : ℕ) → c ≡ set_used k v d → w ≡ used k d → set_used k w c ≡ d
  set_used_back memory v w e f = ground arith
  set_used_back temp v w e f = ground arith

try_charge_lem :
    (u limit bytes : ℕ)
    → limit < u64_mod
    → try_charge u limit bytes
      ≡ (if leb (u + bytes) limit then charged (u + bytes) else full u limit)
unfolding try_charge
try_charge_lem u limit bytes h = ground arith

-- One more node is charged.
Holding-charge :
    (k : ResourceKind) (bytes : ℕ) (done : List ℕ) (n : ℕ) (start h : Heap) (v : ℕ)
    → Holding k bytes done start h
    → v ≡ used k (h.at n) + bytes
    → Holding k bytes (done ++ n ∷ []) start (update n (set_used k v (h.at n)) h)
Holding-charge memory bytes done n start h v holding e m =
    ground (arith, holding m, holding n, held_at-snoc m bytes done n)
Holding-charge temp bytes done n start h v holding e m =
    ground (arith, holding m, holding n, held_at-snoc m bytes done n)

-- Releasing what was charged gives the heap of the start back.
release-Holding :
    (k : ResourceKind) (bytes : ℕ) (done : List ℕ) (start h : Heap)
    → Holding k bytes done start h
    → ((m : ℕ) → used k (h.at m) < u64_mod)
    → (m : ℕ) → (release k bytes done h).at m ≡ start.at m
release-Holding k bytes done start h holding fits m =
    at-release k bytes done h m (λ i. omega (arith, used-set_used _ _ k _ (holding i))) fits
    ∙ set_used_back _ _ k _ _ (holding m) (omega (arith, used-set_used _ _ k _ (holding m)))

module _ (k : ResourceKind) (bytes : ℕ) (done usages : List ℕ) (n : ℕ) (ns : List ℕ)
    (h : Heap) where
  charge-room :
      leb (used k (h.at n) + bytes) (cap k (h.at n)) ≡ true
      → cap k (h.at n) < u64_mod
      → charge k bytes done usages (n ∷ ns) h
        ≡ charge k bytes
            (done ++ n ∷ [])
            (usages ++ (used k (h.at n) + bytes) ∷ [])
            ns
            (update n (set_used k (used k (h.at n) + bytes) (h.at n)) h)
  unfolding charge
  charge-room room small = rw (try_charge_lem _ _ bytes small, room, charge)

  charge-full :
      leb (used k (h.at n) + bytes) (cap k (h.at n)) ≡ false
      → cap k (h.at n) < u64_mod
      → charge k bytes done usages (n ∷ ns) h ≡ (
        err (resource_limit (name k) bytes (used k (h.at n)) (cap k (h.at n))),
        release k bytes done h,
      )
  unfolding charge
  charge-full no_room small = rw (try_charge_lem _ _ bytes small, no_room, charge)

-- What `try_new` answers, told from the heap before it.
abbrev pub answer : ResourceKind → ℕ → List ℕ → Heap → Option ℕ → Result (List ℕ)
answer k bytes usages start none = ok usages
answer k bytes usages start (some n) =
    err (resource_limit (name k) bytes (used k (start.at n)) (cap k (start.at n)))

abbrev pub charged_at : ResourceKind → ℕ → List ℕ → Heap → Option ℕ → ℕ → Counters
charged_at k bytes ns start none m =
    set_used k (used k (start.at m) + held_at m bytes ns) (start.at m)
charged_at k bytes ns start (some n) m = start.at m

-- the usages that `try_new` commits along a path
abbrev pub usages_of : ResourceKind → ℕ → Heap → List ℕ → List ℕ
usages_of k bytes start = map (λ n. used k (start.at n) + bytes)

module _ (k : ResourceKind) (bytes : ℕ) (start : Heap) (fits : FitsU64 k start) where
  pub charge_lem :
      (ns done usages : List ℕ) (h : Heap)
      → Distinct (done ++ ns)
      → Holding k bytes done start h
      → ((m : ℕ) → used k (h.at m) < u64_mod)
      → ((charge k bytes done usages ns h).0
          ≡ answer k bytes (usages ++ usages_of k bytes start ns) start (blocked k bytes ns start))
        × ((m : ℕ)
            → (charge k bytes done usages ns h).1.at m
              ≡ charged_at k bytes (done ++ ns) start (blocked k bytes ns start) m)
  unfolding blocked
  charge_lem [] done usages h d holding small =
      unfold charge in (rw append-nil, λ m. rw append-nil (holding m))
  charge_lem (n ∷ ns) done usages h d holding small =
      let free : used k (h.at n) ≡ used k (start.at n) =
        omega (arith, used-set_used _ _ k _ (holding n), held_at-fresh n bytes done ns d) in
      let same_cap : cap k (h.at n) ≡ cap k (start.at n) = cap-set_used _ _ k _ (holding n) in
      let small_cap : cap k (h.at n) < u64_mod = omega (arith, fits.cap_fits n) in
      let u : ℕ = used k (h.at n) + bytes in
      let h' : Heap = update n (set_used k u (h.at n)) h in
      elim (Bool-cases (leb (used k (start.at n) + bytes) (cap k (start.at n)))) [
        | inl room ↦
            let room' : leb u (cap k (h.at n)) ≡ true = rw (free, same_cap) room in
            let ih =
              charge_lem ns (done ++ n ∷ []) (usages ++ u ∷ []) h'
                (rw (append_assoc done (n ∷ []) ns) d)
                (Holding-charge k bytes done n start h u holding refl)
                (λ m. rw (used-update k u n m h) (ground (arith, small m, fits.cap_fits n))) in
            rw (charge-room k bytes done usages n ns h room' small_cap, room)
              (
                ih.0
                    ∙ ap (λ us. answer k bytes us start (blocked k bytes ns start))
                        (rw (append_assoc usages (u ∷ []), free)),
                λ m.
                    ih.1 m
                    ∙ ap (λ ds. charged_at k bytes ds start (blocked k bytes ns start) m)
                        (append_assoc done (n ∷ []) ns),
              )
        | inr no_room ↦
            rw
              (
                charge-full k bytes done usages n ns h (rw (free, same_cap) no_room) small_cap,
                no_room,
              )
              (rw (free, same_cap), release-Holding k bytes done start h holding small)
      ]
