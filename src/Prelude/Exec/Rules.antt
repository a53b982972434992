-- ===== src/Prelude/Exec/Rules.antt =====
-- Rules for `Returns`, one for each part of a `do` block.
use mathlib.Core.Path.{◌≡◌, refl, ap, subst}
use native.Mathlib.Omega.{arith}
use fenrir.Prelude.Exec.{
  Result, ok, err, Exec, pure, raise, continue, ◌>>=◌, wrap, and_then, map_err, from_result,
  Returns, Keeps,
}

value : {E A : Type 0} → A → Result E A → A
value a (ok b) = b
value a (err e) = a

pub ok_injective : {E A : Type 0} {a b : A} → ◌≡◌ {A = Result E A} (ok a) (ok b) → a ≡ b
unfolding value
ok_injective {a = a} e = ap (value a) e

pub wrap-ok : {E F A : Type 0} (f : E → F) (r : Result E A) (a : A) → wrap f r ≡ ok a → r ≡ ok a
wrap-ok f (ok b) a h = ground arith
wrap-ok f (err e) a h = absurd (ground arith)

-- The parts of a chain of results that succeeds.
pub and_then-ok :
    {E A B : Type 0} (r : Result E A) (f : A → Result E B) (b : B)
    → and_then r f ≡ ok b
    → (a : A) × (r ≡ ok a) × (f a ≡ ok b)
and_then-ok (ok a) f b h = (a, refl, h)
and_then-ok (err e) f b h = absurd (ground arith)

module _ {S : Type 0} where
  module _ {E A B : Type 0} where
    continue-Returns :
        (Mid : A → S → Type 0) (f : A → Exec S E B) (After : B → S → Type 0)
        → ((a : A) → Returns (Mid a) (f a) After)
        → (r : Result E A) (t : S) → ((a : A) → r ≡ ok a → Mid a t)
        → (b : B) → (continue r f t).0 ≡ ok b
        → After b (continue r f t).1
    continue-Returns Mid f After next (ok a) t mid b h = (next a).holds t (mid a refl) b h
    continue-Returns Mid f After next (err e) t mid b h = absurd (ground arith)

    pub >>=-Returns :
        {Before : S → Type 0} (Mid : A → S → Type 0) {m : Exec S E A} {f : A → Exec S E B}
        {After : B → S → Type 0}
        → Returns Before m Mid
        → ((a : A) → Returns (Mid a) (f a) After)
        → Returns Before (m >>= f) After
    >>=-Returns Mid {m = m} {f = f} {After = After} first next = record {
      holds = λ s before b h.
          continue-Returns Mid f After next (m s).0 (m s).1 (first.holds s before) b h;
    }

    -- Where nothing is asked of the first call's answer.
    pub first-Returns :
        {Before : S → Type 0} (m : Exec S E A) {f : A → Exec S E B} {After : B → S → Type 0}
        → ((a : A) → Returns (λ _. Unit {0}) (f a) After)
        → Returns Before (m >>= f) After
    first-Returns m next =
        >>=-Returns (λ _ _. Unit {0}) {m = m} (record { holds = λ s u a e. tt }) next

  module _ {E A : Type 0} where
    pub pure-Returns :
        {Before : S → Type 0} {a : A} {After : A → S → Type 0}
        → ((s : S) → Before s → After a s)
        → Returns {E = E} Before (pure a) After
    pure-Returns {After = After} h = record {
      holds = λ s before b e. subst (λ x. After x s) (ok_injective e) (h s before);
    }

    pub raise-Returns :
        {Before : S → Type 0} {e : E} {After : A → S → Type 0} → Returns Before (raise e) After
    raise-Returns = record { holds = λ s before b e. absurd (ground arith) }

    pub from_result-Returns :
        {Before : S → Type 0} {r : Result E A} {After : A → S → Type 0}
        → ((s : S) (a : A) → Before s → r ≡ ok a → After a s)
        → Returns Before (from_result r) After
    from_result-Returns h = record { holds = λ s before a e. h s a before e }

    -- What a call that changes nothing of interest may be asked for.
    pub weaken :
        {Before Before' : S → Type 0} {m : Exec S E A} {After After' : A → S → Type 0}
        → ((s : S) → Before' s → Before s)
        → ((a : A) (s : S) → After a s → After' a s)
        → Returns Before m After
        → Returns Before' m After'
    weaken before after h = record { holds = λ s b a e. after a _ (h.holds s (before s b) a e) }

    -- What held before and is kept holds after it.
    pub Keeps-Returns :
        {R : S → S → Type 0} {Before : S → Type 0} {m : Exec S E A} {After : S → Type 0}
        → ((s t : S) → R s t → Before s → After t)
        → Keeps R m
        → Returns Before m (λ _. After)
    Keeps-Returns move h = record { holds = λ s before a e. move s _ (h.holds s) before }

  pub map_err-Returns :
      {E F A : Type 0} (f : E → F) {Before : S → Type 0} {m : Exec S E A} {After : A → S → Type 0}
      → Returns Before m After
      → Returns Before (map_err f m) After
  map_err-Returns f {m = m} h = record {
    holds = λ s before a e. h.holds s before a (wrap-ok f (m s).0 a e);
  }

  -- Both of two facts.
  pub both :
      {E A : Type 0} {Before : S → Type 0} {m : Exec S E A} {P Q : A → S → Type 0}
      → Returns Before m P
      → Returns Before m Q
      → Returns Before m (λ a s. P a s × Q a s)
  both h k = record { holds = λ s before a e. (h.holds s before a e, k.holds s before a e) }

-- A chain leaves its states in the relation where its second call does after a success of the first.
module _ {S : Type 0} (R : S → S → Type 0) (chain : (s t u : S) → R s t → R t u → R s u) where
  continue-Keeps_after :
      {E A B : Type 0} (Q : A → Type 0) (f : A → Exec S E B) (s t : S) (r : Result E A)
      → R s t
      → ((a : A) → r ≡ ok a → Q a)
      → ((a : A) → Q a → Keeps R (f a))
      → R s (continue r f t).1
  continue-Keeps_after Q f s t (ok a) h q k = chain s t _ h ((k a (q a refl)).holds t)
  continue-Keeps_after Q f s t (err e) h q k = h

  pub >>=-Keeps_after :
      {E A B : Type 0} (Q : A → Type 0) {m : Exec S E A} {f : A → Exec S E B}
      → Keeps R m
      → Returns (λ _. Unit {0}) m (λ a _. Q a)
      → ((a : A) → Q a → Keeps R (f a))
      → Keeps R (m >>= f)
  >>=-Keeps_after Q {m = m} {f = f} h q k = record {
    holds = λ s. continue-Keeps_after Q f s (m s).1 (m s).0 (h.holds s) (q.holds s tt) k;
  }

-- The parts of a call that succeeds: the answers of both, and the state that the second leaves.
module _ {S E A B : Type 0} (f : A → Exec S E B) where
  continue-ok :
      (r : Result E A) (t : S) (b : B)
      → (continue r f t).0 ≡ ok b
      → (a : A) × (r ≡ ok a) × ((f a t).0 ≡ ok b) × ((continue r f t).1 ≡ (f a t).1)
  continue-ok (ok a) t b h = (a, refl, h, refl)
  continue-ok (err e) t b h = absurd (ground arith)

  pub >>=-ok :
      (m : Exec S E A) (s : S) (b : B)
      → ((m >>= f) s).0 ≡ ok b
      → (a : A) × ((m s).0 ≡ ok a) × ((f a (m s).1).0 ≡ ok b) × (((m >>= f) s).1 ≡ (f a (m s).1).1)
  >>=-ok m s b h = continue-ok (m s).0 (m s).1 b h
