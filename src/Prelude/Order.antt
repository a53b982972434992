-- ===== src/Prelude/Order.antt =====
-- What `Ord` asks of `cmp`, and orders composed with `then_with`.
use Prim.Native.Nat.{compare, Ordering}
use Prim.Native.Nat.Ordering.{lt, eq, gt}
use mathlib.Core.Path.{◌≡◌}
use native.Mathlib.Omega.{arith}

-- `Ordering::reverse`.
abbrev pub reversed : Ordering → Ordering
reversed lt = gt
reversed gt = lt
reversed eq = eq

-- The contract of `Ord`: swapped arguments give the reversed answer, equal answers go with `==`,
-- which is read as `≡`, and smaller is transitive.
pub record IsLawful {ℓ} {K : Type ℓ} (cmp : K → K → Ordering) : Type ℓ where
  pub swapped : (x y : K) → cmp y x ≡ reversed (cmp x y)
  pub same : (x y : K) → cmp x y ≡ eq → x ≡ y
  pub chained : (x y z : K) → cmp x y ≡ lt → cmp y z ≡ lt → cmp x z ≡ lt

pub compare-IsLawful : IsLawful compare
compare-IsLawful = record {
  swapped = λ x y. ground arith;
  same = λ x y h. ground arith;
  chained = λ x y z h k. ground arith;
}

-- `Ordering::then`: the second order breaks ties of the first.
abbrev pub then_with : Ordering → Ordering → Ordering
then_with eq second = second
then_with first _ = first

module _ {ℓ κ} {A : Type ℓ} {B : Type κ} (f : A → A → Ordering) (g : B → B → Ordering) where
  pair_path : {p q : A × B} → p.0 ≡ q.0 → p.1 ≡ q.1 → p ≡ q
  pair_path on_first on_second = λ i. (on_first i, on_second i)

  -- The order of pairs by their first parts, and by their second parts where those are equal.
  abbrev pub pairwise : A × B → A × B → Ordering
  pairwise p q = then_with (f p.0 q.0) (g p.1 q.1)

  pub pairwise-IsLawful : IsLawful f → IsLawful g → IsLawful {K = A × B} pairwise
  pairwise-IsLawful on_a on_b = record {
    swapped = λ p q. ground (arith, on_a.swapped p.0 q.0, on_b.swapped p.1 q.1);
    same =
        λ p q h. pair_path (ground (arith, on_a.same p.0 q.0)) (ground (arith, on_b.same p.1 q.1));
    chained = λ p q r h k. ground (
      arith,
      on_a.same p.0 q.0,
      on_a.same q.0 r.0,
      on_a.chained p.0 q.0 r.0,
      on_b.chained p.1 q.1 r.1,
    );
  }
