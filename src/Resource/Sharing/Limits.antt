-- ===== src/Resource/Sharing/Limits.antt =====
-- What holds of the counters of execution/resource.rs at every moment, however threads interleave.
use proofframe.Prelude.{ℕ, ◌≤◌, ◌<◌, ◌≡◌, ◌∷◌, ◌++◌, arith}
use proofframe.Resource.{u64_mod, ResourceKind, used, cap}
use proofframe.Resource.Sharing.{System, opt_task, Step, begin, move, Reach, here, next}
use proofframe.Resource.Sharing.Balance.{
  share, shares, shares-append, nothing_held, Move-balance, cap-Move, Move-within, insiders,
  insiders-append, taken, insiders-Move,
}

pub record IsBalanced (s : System) : Type 0 where
  -- a counter is the sum of what the tasks hold
  pub counted : (k : ResourceKind) (m : ℕ) → used k (s.heap.at m) ≡ shares k m s.tasks
  pub within : (k : ResourceKind) (m : ℕ) → used k (s.heap.at m) ≤ cap k (s.heap.at m)
  pub caps_fit : (k : ResourceKind) (m : ℕ) → cap k (s.heap.at m) < u64_mod
  -- one task at most is inside the lock, and none while it is free
  pub alone : insiders s.tasks ≡ taken s.locked

-- Every atomic step of a thread keeps the account of the bytes, the limits and the lock.
pub Step-IsBalanced : {s t : System} → Step s t → IsBalanced s → IsBalanced t
Step-IsBalanced (begin h ts k b path small) v = record {
  counted = λ j m. omega (arith, v.counted j m, nothing_held j k m b);
  within = v.within;
  caps_fit = v.caps_fit;
  alone = omega (arith, v.alone);
}
Step-IsBalanced (move pre post {h} {h'} {l} {l'} {t} {o} mv) v = record {
  counted = λ k m. omega (
    arith,
    v.counted k m,
    Move-balance k m mv (small k m) (enough k m),
    shares-append k m pre (t ∷ post),
    shares-append k m pre (opt_task o ++ post),
    shares-append k m (opt_task o) post,
  );
  within = λ k m.
      omega (arith, Move-within k m mv (small k m) (enough k m) (v.within k m), cap-Move k m mv);
  caps_fit = λ k m. omega (arith, v.caps_fit k m, cap-Move k m mv);
  alone = omega (
    arith,
    v.alone,
    insiders-Move mv,
    insiders-append pre (t ∷ post),
    insiders-append pre (opt_task o ++ post),
    insiders-append (opt_task o) post,
  );
}
  where
    small : (k : ResourceKind) (m : ℕ) → used k (h.at m) < u64_mod
    small k m = omega (arith, v.within k m, v.caps_fit k m)

    enough : (k : ResourceKind) (m : ℕ) → share k m t ≤ used k (h.at m)
    enough k m = omega (arith, v.counted k m, shares-append k m pre (t ∷ post))

-- However the loads, exchanges, rollbacks, peaks and drops of any number of threads interleave, in
-- every state that is reached from a balanced one, at every node and for both resources, the counter
-- is the sum of what live reservations and unfinished operations hold there, it is at most the limit
-- of the node, and one operation at most is inside the lock.
pub Reach-IsBalanced : {s t : System} → IsBalanced s → Reach s t → IsBalanced t
Reach-IsBalanced v here = v
Reach-IsBalanced v (next r st) = Step-IsBalanced st (Reach-IsBalanced v r)
