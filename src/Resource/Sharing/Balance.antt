-- ===== src/Resource/Sharing/Balance.antt =====
-- Every byte that a counter of execution/resource.rs counts is held by exactly one thread's task.
use proofframe.Prelude.{
  ℕ, ◌+◌, ◌≤◌, ◌<◌, max, ◌≡◌, refl, Bool, List, [], ◌∷◌, ◌++◌, Option, arith, if◌then◌else◌,
}
use proofframe.Resource.{
  u64_mod, sub_u64, ResourceKind, memory, temp, Heap, used, cap, peak, set_used, set_peak, update,
}
use proofframe.Resource.Charge.{held_at, held_at-snoc}
use proofframe.Resource.Sharing.{
  Task, charging, rolling_back, raising, holding, dropping, Move, opt_task,
}

-- an amount of one kind, counted for another
abbrev pub of_kind : ResourceKind → ResourceKind → ℕ → ℕ
of_kind memory memory v = v
of_kind temp temp v = v
of_kind _ _ v = 0

-- What a task holds at a node.
abbrev pub share : ResourceKind → ℕ → Task → ℕ
share k m (charging j b done todo us seen) = of_kind k j (held_at m b done)
share k m (rolling_back j b ns) = of_kind k j (held_at m b ns)
share k m (raising j b path ns us) = of_kind k j (held_at m b path)
share k m (holding j b path) = of_kind k j (held_at m b path)
share k m (dropping j b ns) = of_kind k j (held_at m b ns)

abbrev pub shares : ResourceKind → ℕ → List Task → ℕ
shares k m [] = 0
shares k m (t ∷ ts) = share k m t + shares k m ts

pub shares-append :
    (k : ResourceKind) (m : ℕ) (ts us : List Task)
    → shares k m (ts ++ us) ≡ shares k m ts + shares k m us
shares-append k m [] us = omega arith
shares-append k m (t ∷ ts) us = omega (arith, shares-append k m ts us)

pub nothing_held : (k j : ResourceKind) (m b : ℕ) → of_kind k j (held_at m b []) ≡ 0
unfolding held_at
nothing_held memory memory m b = refl
nothing_held memory temp m b = refl
nothing_held temp memory m b = refl
nothing_held temp temp m b = refl

-- giving bytes back at one node
give_back :
    (k j : ResourceKind) (b n m : ℕ) (ns : List ℕ) (h : Heap)
    → used k (h.at m) < u64_mod
    → of_kind k j (held_at m b (n ∷ ns)) ≤ used k (h.at m)
    → used k ((update n (set_used j (sub_u64 (used j (h.at n)) b) (h.at n)) h).at m)
        + of_kind k j (held_at m b (n ∷ ns))
      ≡ used k (h.at m) + of_kind k j (held_at m b ns)
unfolding held_at
give_back memory memory b n m ns h small enough = ground arith
give_back memory temp b n m ns h small enough = ground arith
give_back temp memory b n m ns h small enough = ground arith
give_back temp temp b n m ns h small enough = ground arith

take_more :
    (k j : ResourceKind) (b n m : ℕ) (done : List ℕ) (h : Heap) (v : ℕ)
    → v ≡ used j (h.at n)
    → used k ((update n (set_used j (v + b) (h.at n)) h).at m) + of_kind k j (held_at m b done)
      ≡ used k (h.at m) + of_kind k j (held_at m b (done ++ n ∷ []))
take_more memory memory b n m done h v e = ground (arith, held_at-snoc m b done n)
take_more memory temp b n m done h v e = ground (arith, held_at-snoc m b done n)
take_more temp memory b n m done h v e = ground (arith, held_at-snoc m b done n)
take_more temp temp b n m done h v e = ground (arith, held_at-snoc m b done n)

used-set_peak :
    (k j : ResourceKind) (v n m : ℕ) (h : Heap)
    → used k ((update n (set_peak j v (h.at n)) h).at m) ≡ used k (h.at m)
used-set_peak memory memory v n m h = ground arith
used-set_peak memory temp v n m h = ground arith
used-set_peak temp memory v n m h = ground arith
used-set_peak temp temp v n m h = ground arith

-- A move changes a counter by as much as it changes what its task holds there.
pub Move-balance :
    (k : ResourceKind) (m : ℕ) {h h' : Heap} {l l' : Bool} {t : Task} {o : Option Task}
    → Move h l t h' l' o
    → used k (h.at m) < u64_mod
    → share k m t ≤ used k (h.at m)
    → used k (h'.at m) + share k m t ≡ used k (h.at m) + shares k m (opt_task o)
Move-balance k m (Move.load h l j b done n todo us) small enough = omega arith
Move-balance k m (Move.exchange h l j b done n todo us v e fits room) small enough =
    omega (arith, take_more k j b n m done h v e)
Move-balance k m (Move.retry h l j b done n todo us v fits room) small enough = omega arith
Move-balance k m (Move.refuse h l j b done n todo us v full) small enough = omega arith
Move-balance k m (Move.roll_back h l j b n ns) small enough =
    omega (arith, give_back k j b n m ns h small enough)
Move-balance k m (Move.give_up h j b) small enough = omega (arith, nothing_held k j m b)
Move-balance k m (Move.all_charged h l j b done us seen) small enough = omega arith
Move-balance k m (Move.raise h l j b path n ns u us) small enough =
    omega (arith, used-set_peak k j (max (peak j (h.at n)) u) n m h)
Move-balance k m (Move.granted h j b path us) small enough = omega arith
Move-balance k m (Move.start_drop h l j b path) small enough = omega arith
Move-balance k m (Move.drop_node h l j b n ns) small enough =
    omega (arith, give_back k j b n m ns h small enough)
Move-balance k m (Move.dropped h l j b) small enough = omega (arith, nothing_held k j m b)

cap-set_used :
    (k j : ResourceKind) (v n m : ℕ) (h : Heap)
    → cap k ((update n (set_used j v (h.at n)) h).at m) ≡ cap k (h.at m)
cap-set_used memory memory v n m h = ground arith
cap-set_used memory temp v n m h = ground arith
cap-set_used temp memory v n m h = ground arith
cap-set_used temp temp v n m h = ground arith

cap-set_peak :
    (k j : ResourceKind) (v n m : ℕ) (h : Heap)
    → cap k ((update n (set_peak j v (h.at n)) h).at m) ≡ cap k (h.at m)
cap-set_peak memory memory v n m h = ground arith
cap-set_peak memory temp v n m h = ground arith
cap-set_peak temp memory v n m h = ground arith
cap-set_peak temp temp v n m h = ground arith

-- No move changes a limit.
pub cap-Move :
    (k : ResourceKind) (m : ℕ) {h h' : Heap} {l l' : Bool} {t : Task} {o : Option Task}
    → Move h l t h' l' o
    → cap k (h'.at m) ≡ cap k (h.at m)
cap-Move k m (Move.exchange h l j b done n todo us v e fits room) = cap-set_used k j (v + b) n m h
cap-Move k m (Move.roll_back h l j b n ns) = cap-set_used k j _ n m h
cap-Move k m (Move.raise h l j b path n ns u us) = cap-set_peak k j _ n m h
cap-Move k m (Move.drop_node h l j b n ns) = cap-set_used k j _ n m h
cap-Move k m _ = refl

used-exchange :
    (k j : ResourceKind) (v n m : ℕ) (h : Heap)
    → v ≤ cap j (h.at n)
    → used k (h.at m) ≤ cap k (h.at m)
    → used k ((update n (set_used j v (h.at n)) h).at m) ≤ cap k (h.at m)
used-exchange memory memory v n m h room within = ground arith
used-exchange memory temp v n m h room within = ground arith
used-exchange temp memory v n m h room within = ground arith
used-exchange temp temp v n m h room within = ground arith

of_kind-le :
    (k j : ResourceKind) (b n m : ℕ) (ns : List ℕ)
    → of_kind k j (held_at m b ns) ≤ of_kind k j (held_at m b (n ∷ ns))
unfolding held_at
of_kind-le memory memory b n m ns = ground arith
of_kind-le memory temp b n m ns = omega arith
of_kind-le temp memory b n m ns = omega arith
of_kind-le temp temp b n m ns = ground arith

-- No move takes a counter over its limit.
pub Move-within :
    (k : ResourceKind) (m : ℕ) {h h' : Heap} {l l' : Bool} {t : Task} {o : Option Task}
    → Move h l t h' l' o
    → used k (h.at m) < u64_mod
    → share k m t ≤ used k (h.at m)
    → used k (h.at m) ≤ cap k (h.at m)
    → used k (h'.at m) ≤ cap k (h.at m)
Move-within k m (Move.exchange h l j b done n todo us v e fits room) small enough within =
    used-exchange k j (v + b) n m h room within
Move-within k m (Move.roll_back h l j b n ns) small enough within =
    omega (arith, give_back k j b n m ns h small enough, of_kind-le k j b n m ns)
Move-within k m (Move.raise h l j b path n ns u us) small enough within =
    omega (arith, used-set_peak k j (max (peak j (h.at n)) u) n m h)
Move-within k m (Move.drop_node h l j b n ns) small enough within =
    omega (arith, give_back k j b n m ns h small enough, of_kind-le k j b n m ns)
Move-within k m _ small enough within = within

-- the tasks inside the lock
abbrev pub inside : Task → ℕ
inside (charging j b done todo us seen) = 1
inside (rolling_back j b ns) = 1
inside (raising j b path ns us) = 1
inside (holding j b path) = 0
inside (dropping j b ns) = 0

abbrev pub insiders : List Task → ℕ
insiders [] = 0
insiders (t ∷ ts) = inside t + insiders ts

pub insiders-append : (ts us : List Task) → insiders (ts ++ us) ≡ insiders ts + insiders us
insiders-append [] us = omega arith
insiders-append (t ∷ ts) us = omega (arith, insiders-append ts us)

abbrev pub taken : Bool → ℕ
taken l = if l then 1 else 0

pub insiders-Move :
    {h h' : Heap} {l l' : Bool} {t : Task} {o : Option Task}
    → Move h l t h' l' o
    → insiders (opt_task o) + taken l ≡ inside t + taken l'
insiders-Move (Move.give_up h j b) = omega arith
insiders-Move (Move.dropped h l j b) = omega arith
insiders-Move _ = omega arith
