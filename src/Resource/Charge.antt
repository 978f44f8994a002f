-- ===== src/Resource/Charge.antt =====
-- What charging and releasing a path of nodes does to every counter of execution/resource.rs.
use proofframe.Prelude.{
  ℕ, ◌+◌, ◌-◌, ◌≤◌, ◌<◌, ◌≡◌, ap, ◌∙◌, List, [], ◌∷◌, ◌++◌, arith, ◌==◌, if◌then◌else◌,
}
use proofframe.Resource.{
  u64_mod, sub_u64, ResourceKind, memory, temp, Heap, used, cap, set_used, update, release,
}

-- what the nodes of a path add up to at one node
unfoldable pub held_at : ℕ → ℕ → List ℕ → ℕ
held_at n bytes [] = 0
held_at n bytes (m ∷ ms) = (if n == m then bytes else 0) + held_at n bytes ms

pub held_at-append :
    (n bytes : ℕ) (ms ns : List ℕ)
    → held_at n bytes (ms ++ ns) ≡ held_at n bytes ms + held_at n bytes ns
unfolding held_at
held_at-append n bytes [] ns = omega arith
held_at-append n bytes (m ∷ ms) ns = omega (arith, held_at-append n bytes ms ns)

-- one node added at the end
pub held_at-snoc :
    (n bytes : ℕ) (ms : List ℕ) (m : ℕ)
    → held_at n bytes (ms ++ m ∷ []) ≡ held_at n bytes ms + (if n == m then bytes else 0)
unfolding held_at
held_at-snoc n bytes [] m = omega arith
held_at-snoc n bytes (k ∷ ms) m = omega (arith, held_at-snoc n bytes ms m)

module _ (k : ResourceKind) (v : ℕ) (m n : ℕ) (h : Heap) where
  pub used-update :
      used k ((update m (set_used k v (h.at m)) h).at n) ≡ (if n == m then v else used k (h.at n))
  used-update = used_if k
    where
      used_if :
          (k : ResourceKind)
          → used k (if n == m then set_used k v (h.at m) else h.at n)
            ≡ (if n == m then v else used k (h.at n))
      used_if memory = ground arith
      used_if temp = ground arith

  pub cap-update : cap k ((update m (set_used k v (h.at m)) h).at n) ≡ cap k (h.at n)
  cap-update = cap_if k
    where
      cap_if :
          (k : ResourceKind)
          → cap k (if n == m then set_used k v (h.at m) else h.at n) ≡ cap k (h.at n)
      cap_if memory = ground arith
      cap_if temp = ground arith

  -- A later write of the same counter hides an earlier one.
  pub set_used-update :
      (w : ℕ) → set_used k w ((update m (set_used k v (h.at m)) h).at n) ≡ set_used k w (h.at n)
  set_used-update w = set_if k
    where
      set_if :
          (k : ResourceKind)
          → set_used k w (if n == m then set_used k v (h.at m) else h.at n) ≡ set_used k w (h.at n)
      set_if memory = ground arith
      set_if temp = ground arith

-- Releasing subtracts at each node what the path holds there, and touches nothing else.
pub at-release :
    (k : ResourceKind) (bytes : ℕ) (ns : List ℕ) (h : Heap) (n : ℕ)
    → ((m : ℕ) → held_at m bytes ns ≤ used k (h.at m))
    → ((m : ℕ) → used k (h.at m) < u64_mod)
    → (release k bytes ns h).at n ≡ set_used k (used k (h.at n) - held_at n bytes ns) (h.at n)
unfolding release held_at
at-release memory bytes [] h n enough fits = ground arith
at-release temp bytes [] h n enough fits = ground arith
at-release k bytes (m ∷ ms) h n enough fits =
    let v : ℕ = sub_u64 (used k (h.at m)) bytes in
    let h' : Heap = update m (set_used k v (h.at m)) h in
    let enough' : (i : ℕ) → held_at i bytes ms ≤ used k (h'.at i) =
      λ i. rw (used-update k v m i h) (ground (arith, enough i, fits m)) in
    let fits' : (i : ℕ) → used k (h'.at i) < u64_mod =
      λ i. rw (used-update k v m i h) (ground (arith, fits i)) in
    at-release k bytes ms h' n enough' fits'
    ∙ set_used-update k v m n h (used k (h'.at n) - held_at n bytes ms)
    ∙ ap (λ w. set_used k w (h.at n))
        (rw (used-update k v m n h) (ground (arith, enough n, fits m)))
