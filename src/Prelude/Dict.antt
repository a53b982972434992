-- ===== src/Prelude/Dict.antt =====
-- A map from texts, as `HashMap<String, V>` is used: an association list in which the first entry
-- of a key counts. Clients go by the laws, which say what each operation does to every lookup.
use text.Mathlib.Text.{◌==◌}
use text.Mathlib.TextPositions.{eq_refl}
use fenrir.Prelude.Tests.{if◌then◌else◌, keep_if, Bool-cases}
use Prim.Native.String.{String}
use mathlib.Core.Path.{◌≡◌, refl, sym}
use mathlib.Core.Logic.{◌≢◌, inl, inr}
use mathlib.Core.Bool.{Bool}
use mathlib.Core.Option.{Option, none, some}
use mathlib.Core.List.{List, [], ◌∷◌}
use native.Mathlib.Omega.{arith}
use text.Mathlib.TextEquality.{eq_iff}

abbrev pub Dict {ℓ} : Type ℓ → Type ℓ
Dict V = List (String × V)

module _ {ℓ} {V : Type ℓ} where
  unfoldable pub lookup : String → Dict V → Option V
  lookup key [] = none
  lookup key ((old, held) ∷ rest) =
      let later = lookup key rest in if old == key then some held else later

  unfoldable pub insert : String → V → Dict V → Dict V
  insert key new [] = (key, new) ∷ []
  insert key new ((old, held) ∷ rest) =
      let later = insert key new rest in
      if old == key then (key, new) ∷ rest else (old, held) ∷ later

  unfoldable pub remove : String → Dict V → Dict V
  remove k [] = []
  remove k ((j, v) ∷ m) = let rest = remove k m in if j == k then rest else (j, v) ∷ rest

  -- The entries that pass, with no older entry of a key coming to light.
  unfoldable pub retain : (V → Bool) → Dict V → Dict V
  unfolding remove
  retain p [] = []
  retain p ((j, v) ∷ m) = let rest = remove j (retain p m) in if p v then (j, v) ∷ rest else rest

  pub lookup-empty : (k : String) → lookup k [] ≡ none
  unfolding lookup
  lookup-empty k = refl

  pub lookup-insert :
      (key other : String) (new : V) (entries : Dict V)
      → lookup other (insert key new entries)
        ≡ (if key == other then some new else lookup other entries)
  unfolding lookup insert
  lookup-insert key other new [] = refl
  lookup-insert key other new ((old, held) ∷ rest) =
      ground (
        arith,
        lookup-insert key other new rest,
        eq_iff old other,
        eq_iff key other,
        eq_iff old key,
      )

  pub lookup-insert_apart :
      (other key : String) (new : V) (entries : Dict V)
      → other ≢ key
      → lookup other (insert key new entries) ≡ lookup other entries
  lookup-insert_apart other key new entries apart =
      let same = eq_iff key other in
      let h = lookup-insert key other new entries in
      elim (Bool-cases (key == other)) [
        | inl e ↦ absurd (apart (sym (same.0 e)))
        | inr e ↦ ground (arith, h, e)
      ]

  pub lookup-insert_same :
      (key : String) (new : V) (entries : Dict V) → lookup key (insert key new entries) ≡ some new
  lookup-insert_same key new entries =
      ground (arith, lookup-insert key key new entries, eq_refl key)

  pub lookup-remove :
      (k j : String) (m : Dict V) → lookup j (remove k m) ≡ (if k == j then none else lookup j m)
  unfolding lookup remove
  lookup-remove k j [] = ground arith
  lookup-remove k j ((old, held) ∷ rest) =
      ground (arith, eq_iff old j, eq_iff k j, eq_iff old k, lookup-remove k j rest)

  pub lookup-retain :
      (p : V → Bool) (j : String) (m : Dict V) → lookup j (retain p m) ≡ keep_if p (lookup j m)
  unfolding lookup retain
  lookup-retain p j [] = refl
  lookup-retain p j ((i, v) ∷ m) =
      ground (arith, lookup-retain p j m, lookup-remove i j (retain p m))

  pub lookup-insert_self : (k : String) (v : V) (m : Dict V) → lookup k (insert k v m) ≡ some v
  lookup-insert_self k v m = simp (lookup-insert, eq_refl)

  pub lookup-remove_self : (k : String) (m : Dict V) → lookup k (remove k m) ≡ none
  lookup-remove_self k m = simp (lookup-remove, eq_refl)

pub ruleset dict_laws = (lookup-empty, lookup-insert, lookup-remove, lookup-retain)
