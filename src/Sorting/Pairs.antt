-- ===== src/Sorting/Pairs.antt =====
-- The order of a pair by its parts, `a.0.cmp(b.0).then(a.1.cmp(b.1))`, and of numbers by `cmp`.
use proofframe.Prelude.{ℕ, ◌≡◌, Bool, true, false, arith, leb, ◌⊎◌, if◌then◌else◌}
use proofframe.Sorting.{Order}

pub leb_total : (a b : ℕ) → (leb a b ≡ true) ⊎ (leb b a ≡ true)
leb_total a b = ground arith

pub leb_antisym : (a b : ℕ) → leb a b ≡ true → leb b a ≡ true → a ≡ b
leb_antisym a b h k = ground arith

pub leb_trans : (a b c : ℕ) → leb a b ≡ true → leb b c ≡ true → leb a c ≡ true
leb_trans a b c h k = ground arith

abbrev pub nat_order : Order ℕ
nat_order = record { leq = leb; total = leb_total; antisym = leb_antisym; trans = leb_trans }

module _ {ℓ κ} {A : Type ℓ} {B : Type κ} (o : Order A) (p : Order B) where
  -- `Equal` of the first parts hands over to the second
  abbrev pub then_leq : A × B → A × B → Bool
  then_leq (a, b) (c, d) = if o.leq a c then (if o.leq c a then p.leq b d else true) else false

  pub then_total : (x y : A × B) → (then_leq x y ≡ true) ⊎ (then_leq y x ≡ true)
  then_total (a, b) (c, d) = ground (arith, o.total a c, p.total b d)

  pub then_antisym : (x y : A × B) → then_leq x y ≡ true → then_leq y x ≡ true → x ≡ y
  then_antisym (a, b) (c, d) h k = ground (arith, o.antisym a c, p.antisym b d)

  pub then_trans : (x y z : A × B) → then_leq x y ≡ true → then_leq y z ≡ true → then_leq x z ≡ true
  then_trans (a, b) (c, d) (e, f) h k =
      ground (arith, o.trans a c e, o.trans e c a, o.trans c e a, o.trans e a c, p.trans b d f)

  abbrev pub then_order : Order (A × B)
  then_order = record {
    leq = then_leq;
    total = then_total;
    antisym = then_antisym;
    trans = then_trans;
  }
