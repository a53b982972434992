-- ===== src/Prelude/Exec.antt =====
-- Methods that change an object and may fail: the object comes back beside the result, also beside
-- an error, since what was written before the error stays written.
pub mod Rules
use mathlib.Core.Path.{◌≡◌, refl}
use mathlib.Core.List.{List, [], ◌∷◌}
use native.Mathlib.Omega.{arith}

pub data Result {ℓ κ} (E : Type ℓ) (A : Type κ) : Type (ℓ ⊔ κ) where
  ok : A → Result E A
  err : E → Result E A

abbrev pub Exec : Type 0 → Type 0 → Type 0 → Type 0
Exec S E A = S → Result E A × S

module _ {S E A : Type 0} where
  abbrev pub pure : A → Exec S E A
  pure a s = (ok a, s)

  abbrev pub raise : E → Exec S E A
  raise e s = (err e, s)

module _ {S E A B : Type 0} where
  abbrev pub continue : Result E A → (A → Exec S E B) → Exec S E B
  continue (ok a) f s = f a s
  continue (err e) f s = (err e, s)

  infixl 10 ◌>>=◌ ◌>>◌
  abbrev pub ◌>>=◌ : Exec S E A → (A → Exec S E B) → Exec S E B
  ◌>>=◌ m f s = let (r, t) = m s in continue r f t

  abbrev pub ◌>>◌ : Exec S E A → Exec S E B → Exec S E B
  m >> n = m >>= λ _. n

-- `map_err`.
abbrev pub wrap : {E F A : Type 0} → (E → F) → Result E A → Result F A
wrap f (ok a) = ok a
wrap f (err e) = err (f e)

module _ {S E F A : Type 0} where
  abbrev pub map_err : (E → F) → Exec S E A → Exec S F A
  map_err f m s = let (r, t) = m s in (wrap f r, t)

  -- `let _ = …`: whatever the result.
  abbrev pub ignoring : Exec S E A → Exec S F (Unit {0})
  ignoring m s = (ok tt, (m s).1)

-- `?` where there is no state.
abbrev pub and_then : {E A B : Type 0} → Result E A → (A → Result E B) → Result E B
and_then (ok a) f = f a
and_then (err e) f = err e

-- `collect`, of results: the first error, or all the values.
unfoldable pub collect_all : {E A B : Type 0} → (A → Result E B) → List A → Result E (List B)
collect_all f [] = ok []
collect_all f (a ∷ rest) =
    let later = collect_all f rest in and_then (f a) λ b. and_then later λ bs. ok (b ∷ bs)

-- A result that the state plays no part in, with `?`.
abbrev pub from_result : {S E A : Type 0} → Result E A → Exec S E A
from_result r s = (r, s)

-- Every call leaves its state in the relation, whatever its result.
pub record Keeps {S E A : Type 0} (R : S → S → Type 0) (m : Exec S E A) : Type 0 where
  pub holds : (s : S) → R s (m s).1

module _ {S : Type 0} (R : S → S → Type 0) (chain : (s t u : S) → R s t → R t u → R s u) where
  continue-Keeps :
      {E A B : Type 0} (f : A → Exec S E B) (s t : S) (r : Result E A)
      → R s t
      → ((a : A) → Keeps R (f a))
      → R s (continue r f t).1
  continue-Keeps f s t (ok a) h k = chain s t _ h ((k a).holds t)
  continue-Keeps f s t (err e) h k = h

  pub >>=-Keeps :
      {E A B : Type 0} (m : Exec S E A) (f : A → Exec S E B)
      → Keeps R m
      → ((a : A) → Keeps R (f a))
      → Keeps R (m >>= f)
  >>=-Keeps m f h k = record { holds = λ s. continue-Keeps f s (m s).1 (m s).0 (h.holds s) k }

-- What holds after a call that succeeds, where something holds before it.
pub record Returns {S E A : Type 0} (Before : S → Type 0) (m : Exec S E A) (After : A → S → Type 0)
    : Type 0 where
  pub holds : (s : S) → Before s → (a : A) → (m s).0 ≡ ok a → After a (m s).1

-- What two calls, one after the other, do from any state.
module _ {S E A B : Type 0} (P : Result E B × S → Type 0) where
  pub continue_post :
      (f : A → Exec S E B) (t : S) (r : Result E A)
      → ((a : A) → r ≡ ok a → P (f a t))
      → ((e : E) → r ≡ err e → P (err e, t))
      → P (continue r f t)
  continue_post f t (ok a) on_ok on_err = on_ok a refl
  continue_post f t (err e) on_ok on_err = on_err e refl

module _ {S : Type 0} (R : S → S → Type 0) where
  pub map_err-Keeps :
      {E F A : Type 0} (f : E → F) (m : Exec S E A) → Keeps R m → Keeps R (map_err f m)
  map_err-Keeps f m h = record { holds = λ s. h.holds s }

  pub ignoring-Keeps : {E F A : Type 0} (m : Exec S E A) → Keeps R m → Keeps R (ignoring {F = F} m)
  ignoring-Keeps m h = record { holds = λ s. h.holds s }

  pub from_result-Keeps :
      {E A : Type 0} (r : Result E A) → ((s : S) → R s s) → Keeps R (from_result r)
  from_result-Keeps r same = record { holds = same }

  pub pure-Keeps : {E A : Type 0} (a : A) → ((s : S) → R s s) → Keeps {E = E} R (pure a)
  pure-Keeps a same = record { holds = same }
