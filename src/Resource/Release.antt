-- ===== src/Resource/Release.antt =====
-- What a released reservation leaves behind: `Drop for Reservation` of execution/resource.rs.
use proofframe.Prelude.{
  ℕ, ◌+◌, ◌-◌, ◌≤◌, ◌<◌, max, ◌≡◌, refl, sym, ap, ◌∙◌, Bool, true, List, Option, none, some, arith,
  if◌then◌else◌, ◌↔◌, All, [], ◌∷◌, leb, ◌==◌, ==_iff, leb→le, le→leb, Bool-cases, inl, inr,
}
use proofframe.Error.{ok}
use proofframe.Resource.{
  u64_mod, ResourceKind, Counters, memory, temp, Heap, used, cap, peak, set_used, set_peak,
  Reservation, try_new, drop_reservation,
}
use proofframe.Resource.Charge.{held_at, at-release}
use proofframe.Resource.Atomic.{Distinct, FitsU64, blocked}
use proofframe.Resource.Reserve.{
  mem, held_at-Distinct, reserved, outcome, node_after, try_new-atomic,
}

-- room for the bytes at every node of a path
abbrev pub Room : ResourceKind → ℕ → Heap → List ℕ → Type 0
Room k bytes h ns = All (λ n. used k (h.at n) + bytes ≤ cap k (h.at n)) ns

pub blocked-none :
    (k : ResourceKind) (bytes : ℕ) (h : Heap) (ns : List ℕ)
    → Room k bytes h ns
    → blocked k bytes ns h ≡ none
unfolding blocked
blocked-none k bytes h [] room = refl
blocked-none k bytes h (n ∷ ns) room = rw (le→leb _ _ room.0) (blocked-none k bytes h ns room.1)

Room-blocked :
    (k : ResourceKind) (bytes : ℕ) (h : Heap) (ns : List ℕ)
    → blocked k bytes ns h ≡ none
    → Room k bytes h ns
unfolding blocked
Room-blocked k bytes h [] e = tt
Room-blocked k bytes h (n ∷ ns) e =
    elim (Bool-cases (leb (used k (h.at n) + bytes) (cap k (h.at n)))) [
      | inl room ↦ (leb→le _ _ room, Room-blocked k bytes h ns (rw room at e))
      | inr full ↦ let clash : some n ≡ none = (rw full at e) in cc
    ]

-- On a path of distinct nodes with counters and limits in u64, a reservation is granted exactly when
-- at every node of the path the bytes in use and the bytes asked for are at most the limit.
pub try_new-granted_iff :
    (k : ResourceKind) (bytes : ℕ) (ns : List ℕ) (h : Heap)
    → Distinct ns
    → FitsU64 k h
    → ((r : Reservation) × ((try_new k bytes ns h).0 ≡ ok r)) ↔ Room k bytes h ns
try_new-granted_iff k bytes ns h d fits = (
  λ granted. Room-blocked k bytes h ns (none_of granted),
  λ room. (
    _,
    (try_new-atomic k bytes ns h d fits).0
        ∙ ap (outcome k bytes ns h) (blocked-none k bytes h ns room),
  ),
)
  where
    none_of : ((r : Reservation) × ((try_new k bytes ns h).0 ≡ ok r)) → blocked k bytes ns h ≡ none
    none_of (r, e) =
        from_outcome (blocked k bytes ns h) (sym (try_new-atomic k bytes ns h d fits).0 ∙ e)
      where
        from_outcome : (o : Option ℕ) → outcome k bytes ns h o ≡ ok r → o ≡ none
        from_outcome none e = refl
        from_outcome (some n) e = cc

restored :
    (k : ResourceKind) (bytes : ℕ) (inside : Bool) (c d : Counters)
    → d ≡ (if inside then reserved k bytes c else c)
    → set_used k (used k d - (if inside then bytes else 0)) d
      ≡ (if inside then set_peak k (max (peak k c) (used k c + bytes)) c else c)
restored memory bytes inside c d e = ground arith
restored temp bytes inside c d e = ground arith

reserved-used :
    (k : ResourceKind) (bytes : ℕ) (inside : Bool) (c d : Counters)
    → d ≡ (if inside then reserved k bytes c else c)
    → used k d ≡ used k c + (if inside then bytes else 0)
reserved-used memory bytes inside c d e = ground arith
reserved-used temp bytes inside c d e = ground arith

Room-mem :
    (k : ResourceKind) (bytes : ℕ) (h : Heap) (m : ℕ) (ns : List ℕ)
    → Room k bytes h ns
    → mem m ns ≡ true
    → used k (h.at m) + bytes ≤ cap k (h.at m)
Room-mem k bytes h m [] room e = cc
Room-mem k bytes h m (n ∷ ns) room e = elim (Bool-cases (m == n)) [
  | inl same ↦ rw ((==_iff m n).0 same) room.0
  | inr other ↦ Room-mem k bytes h m ns room.1 (rw other at e)
]

grow_fits :
    (k : ResourceKind) (bytes : ℕ) (h : Heap) (m : ℕ) (ns : List ℕ)
    → FitsU64 k h
    → Room k bytes h ns
    → used k (h.at m) + (if mem m ns then bytes else 0) < u64_mod
grow_fits k bytes h m ns fits room = elim (Bool-cases (mem m ns)) [
  | inl inside ↦ rw inside (omega (arith, Room-mem k bytes h m ns room inside, fits.cap_fits m))
  | inr outside ↦ rw outside (omega (arith, fits.used_fits m))
]

-- On a path of distinct nodes with counters and limits in u64, dropping a reservation that was just
-- granted leaves every counter as it was before, but for the peaks of the nodes of the path: those
-- keep the highest usage that was reached.
pub drop-try_new :
    (k : ResourceKind) (bytes : ℕ) (ns : List ℕ) (h : Heap) (r : Reservation)
    → Distinct ns
    → FitsU64 k h
    → (try_new k bytes ns h).0 ≡ ok r
    → (m : ℕ)
    → (drop_reservation r (try_new k bytes ns h).1).at m ≡ (
        if mem m ns
        then set_peak k (max (peak k (h.at m)) (used k (h.at m) + bytes)) (h.at m)
        else h.at m)
unfolding drop_reservation
drop-try_new k bytes ns h r d fits granted m =
    let h' : Heap = (try_new k bytes ns h).1 in
    let room : Room k bytes h ns = (try_new-granted_iff k bytes ns h d fits).0 (r, granted) in
    let free : blocked k bytes ns h ≡ none = blocked-none k bytes h ns room in
    let after : (i : ℕ)
        → (try_new k bytes ns h).1.at i ≡ (if mem i ns then reserved k bytes (h.at i) else h.at i) =
      λ i. (try_new-atomic k bytes ns h d fits).1 i ∙ ap (λ o. node_after k bytes ns h o i) free in
    let usage : (i : ℕ)
        → used k ((try_new k bytes ns h).1.at i)
          ≡ used k (h.at i) + (if mem i ns then bytes else 0) =
      λ i. reserved-used k bytes (mem i ns) (h.at i) _ (after i) in
    let held : (i : ℕ) → held_at i bytes ns ≡ (if mem i ns then bytes else 0) =
      λ i. held_at-Distinct i bytes ns d in
    let what : r ≡ record { held = ns; bytes = bytes; kind = k } =
      cc (granted, (try_new-atomic k bytes ns h d fits).0, ap (outcome k bytes ns h) free) in
    rw what (
      at-release k bytes ns h' m (λ i. omega (arith, usage i, held i))
        (λ i. rw usage (grow_fits k bytes h i ns fits room))
      ∙ ap (λ x. set_used k (used k (h'.at m) - x) (h'.at m)) (held m)
      ∙ restored k bytes (mem m ns) (h.at m) (h'.at m) (after m))
