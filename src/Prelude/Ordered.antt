-- ===== src/Prelude/Ordered.antt =====
-- A map from texts in the order of its keys, as `BTreeMap<String, V>` is used where its order shows:
-- an association list whose keys ascend.
use Prim.Native.Nat.{Ordering}
use Prim.Native.String.{String, compare}
use mathlib.Core.Path.{◌≡◌, refl, ◌∙◌, sym, ap, subst}
use mathlib.Core.Logic.{inl, inr}
use mathlib.Core.List.{List, [], ◌∷◌, ◌++◌, map, append_assoc, append-nil}
use mathlib.Core.Option.{some}
use native.Mathlib.Omega.{arith}
use text.Mathlib.Text.{◌==◌}
use text.Mathlib.TextEquality.{eq_iff}
use text.Mathlib.TextPositions.{eq_refl}
use fenrir.Prelude.Tests.{if◌then◌else◌, Bool-cases}
use fenrir.Prelude.Lists.{All, All-append, All-imp}
use fenrir.Prelude.Dict.{Dict, lookup, remove}
use fenrir.Prelude.Text.{compare-lt_of_gt, compare-lt_trans, compare-gt_of_lt}

module _ {ℓ} {V : Type ℓ} where
  -- The new entry beside the first one that is not before it, or in that one's place.
  abbrev pub beside : Ordering → String × V → String × V → Dict V → Dict V → Dict V
  beside Ordering.lt new old rest later = new ∷ old ∷ rest
  beside Ordering.eq new old rest later = new ∷ rest
  beside Ordering.gt new old rest later = old ∷ later

  -- `BTreeMap::insert`.
  unfoldable pub insert : String → V → Dict V → Dict V
  insert key new [] = (key, new) ∷ []
  insert key new ((old, held) ∷ rest) =
      let later = insert key new rest in beside (compare key old) (key, new) (old, held) rest later

  -- `BTreeMap::values`.
  abbrev pub values : Dict V → List V
  values entries = map (λ (entry : String × V). entry.1) entries

  -- Every key is before the keys after it.
  abbrev pub IsAscending : Dict V → Type ℓ
  IsAscending [] = Unit
  IsAscending ((key, held) ∷ rest) =
      All (λ (entry : String × V). compare key entry.0 ≡ Ordering.lt) rest × IsAscending rest

  pub lookup-insert :
      (key other : String) (new : V) (entries : Dict V)
      → lookup other (insert key new entries)
        ≡ (if key == other then some new else lookup other entries)
  unfolding lookup insert
  lookup-insert key other new [] = refl
  lookup-insert key other new ((old, held) ∷ rest) =
      ground (
        arith,
        lookup-insert key other new rest,
        eq_iff old other,
        eq_iff key other,
        eq_iff key old,
      )

  abbrev Before : String → Dict V → Type 0
  Before key entries = All (λ (entry : String × V). compare key entry.0 ≡ Ordering.lt) entries

  Before-insert :
      (key other : String) (new : V) (entries : Dict V)
      → compare key other ≡ Ordering.lt
      → Before key entries
      → Before key (insert other new entries)
  unfolding insert
  Before-insert key other new [] h before = (h, tt)
  Before-insert key other new ((old, held) ∷ rest) h before =
      ground (arith, Before-insert key other new rest h before.1)

  Before-trans :
      (key other : String) (entries : Dict V)
      → compare key other ≡ Ordering.lt
      → Before other entries
      → Before key entries
  Before-trans key other [] h before = tt
  Before-trans key other (entry ∷ rest) h before =
      (compare-lt_trans key other entry.0 h before.0, Before-trans key other rest h before.1)

  pub insert-IsAscending :
      (key : String) (new : V) (entries : Dict V)
      → IsAscending entries
      → IsAscending (insert key new entries)
  unfolding insert
  insert-IsAscending key new [] h = (tt, tt)
  insert-IsAscending key new ((old, held) ∷ rest) h = ground (
    arith,
    insert-IsAscending key new rest h.1,
    Before-insert old key new rest,
    Before-trans key old rest,
    compare-lt_of_gt key old,
    eq_iff key old,
  )

  -- After the entries that are all before it.
  insert-last :
      (key : String) (new : V) (entries : Dict V)
      → All (λ (entry : String × V). compare entry.0 key ≡ Ordering.lt) entries
      → insert key new entries ≡ entries ++ (key, new) ∷ []
  unfolding insert
  insert-last key new [] h = refl
  insert-last key new ((old, held) ∷ rest) h =
      rw (compare-gt_of_lt old key h.0, insert-last key new rest h.1)

  module _ (name : V → String) where
    -- `collect`, of values by their own names.
    abbrev pub collect : Dict V → List V → Dict V
    collect entries [] = entries
    collect entries (value ∷ rest) = collect (insert (name value) value entries) rest

    -- Every value is held by its own name.
    abbrev pub IsNamed : Dict V → Type 0
    IsNamed entries = All (λ (entry : String × V). name entry.1 ≡ entry.0) entries

    collect_after :
        (front entries : Dict V)
        → All (λ (entry : String × V). Before entry.0 entries) front
        → IsAscending entries
        → IsNamed entries
        → collect front (values entries) ≡ front ++ entries
    collect_after front [] before up named = sym (append-nil front)
    collect_after front ((key, held) ∷ rest) before up named =
        let one : Dict V = (key, held) ∷ [] in
        let later =
          All-append (λ (entry : String × V). Before entry.0 rest) front one
            (All-imp (λ (entry : String × V). Before entry.0 ((key, held) ∷ rest)) _ front
              (λ e h. h.1) before)
            (up.0, tt) in
        let last = insert-last key held front (
          All-imp (λ (entry : String × V). Before entry.0 ((key, held) ∷ rest)) _ front (λ e h. h.0)
            before) in
        ap (λ f. collect f (values rest)) (ap (λ k. insert k held front) named.0 ∙ last)
        ∙ collect_after (front ++ one) rest later up.1 named.1
        ∙ append_assoc front one rest

    pub collect-values :
        (entries : Dict V)
        → IsAscending entries
        → IsNamed entries
        → collect [] (values entries) ≡ entries
    collect-values entries up named = collect_after [] entries tt up named

    pub insert-IsNamed :
        (key : String) (new : V) (entries : Dict V)
        → name new ≡ key
        → IsNamed entries
        → IsNamed (insert key new entries)
    unfolding insert
    insert-IsNamed key new [] h named = (h, tt)
    insert-IsNamed key new ((old, held) ∷ rest) h named =
        ground (arith, insert-IsNamed key new rest h named.1)

    pub lookup-IsNamed :
        (key : String) (held : V) (entries : Dict V)
        → IsNamed entries
        → lookup key entries ≡ some held
        → name held ≡ key
    unfolding lookup
    lookup-IsNamed key held [] named h = absurd (ground arith)
    lookup-IsNamed key held ((old, value) ∷ rest) named h = elim (Bool-cases (old == key)) [
      | inl e ↦ subst (λ v. name v ≡ key) (ground arith) (named.0 ∙ (eq_iff old key).0 e)
      | inr e ↦ lookup-IsNamed key held rest named.1 (ground arith)
    ]

    pub collect-ordered :
        (front : Dict V) (vs : List V)
        → IsAscending front
        → IsNamed front
        → IsAscending (collect front vs) × IsNamed (collect front vs)
    collect-ordered front [] up named = (up, named)
    collect-ordered front (v ∷ vs) up named =
        collect-ordered (insert (name v) v front) vs (insert-IsAscending (name v) v front up)
          (insert-IsNamed (name v) v front refl named)

module _ {ℓ κ} {V : Type ℓ} (P : V → Type κ) where
  pub insert-All :
      (key : String) (new : V) (entries : Dict V)
      → P new
      → All (λ (entry : String × V). P entry.1) entries
      → All (λ (entry : String × V). P entry.1) (insert key new entries)
  unfolding insert
  insert-All key new [] h all = (h, tt)
  insert-All key new ((old, held) ∷ rest) h all = ground (arith, insert-All key new rest h all.1)

  pub lookup-All :
      (key : String) (held : V) (entries : Dict V)
      → All (λ (entry : String × V). P entry.1) entries
      → lookup key entries ≡ some held
      → P held
  unfolding lookup
  lookup-All key held [] all h = absurd (ground arith)
  lookup-All key held ((old, value) ∷ rest) all h = elim (Bool-cases (old == key)) [
    | inl e ↦ subst P (ground arith) all.0
    | inr e ↦ lookup-All key held rest all.1 (ground arith)
  ]

module _ {ℓ} {V : Type ℓ} where
  remove-All {κ} :
      (P : String × V → Type κ) (key : String) (entries : Dict V)
      → All P entries
      → All P (remove key entries)
  unfolding remove
  remove-All P key [] h = tt
  remove-All P key (entry ∷ rest) h = ground (arith, remove-All P key rest h.1)

  pub remove-IsAscending :
      (key : String) (entries : Dict V) → IsAscending entries → IsAscending (remove key entries)
  unfolding remove
  remove-IsAscending key [] h = tt
  remove-IsAscending key ((old, held) ∷ rest) h =
      let later = remove-IsAscending key rest h.1 in
      let before =
        remove-All (λ (entry : String × V). compare old entry.0 ≡ Ordering.lt) key rest h.0 in
      ground arith

  pub remove-IsNamed :
      (name : V → String) (key : String) (entries : Dict V)
      → IsNamed name entries
      → IsNamed name (remove key entries)
  remove-IsNamed name key entries h =
      remove-All (λ (entry : String × V). name entry.1 ≡ entry.0) key entries h

  -- An entry in front, of a key that is before theirs, hides none.
  skip_front :
      (name : V → String) (key : String) (held : V) (rest front : Dict V)
      → All (λ (entry : String × V). compare key entry.0 ≡ Ordering.lt) front
      → IsNamed name front
      → All (λ v. lookup (name v) rest ≡ some v) (values front)
      → All (λ v. lookup (name v) ((key, held) ∷ rest) ≡ some v) (values front)
  unfolding lookup
  skip_front name key held rest [] before named h = tt
  skip_front name key held rest ((other, v) ∷ front) before named h = (
    ground (arith, before.0, named.0, h.0),
    skip_front name key held rest front before.1 named.1 h.1,
  )

  -- Each value is found under its own name.
  pub lookup-values :
      (name : V → String) (entries : Dict V)
      → IsAscending entries
      → IsNamed name entries
      → All (λ v. lookup (name v) entries ≡ some v) (values entries)
  unfolding lookup
  lookup-values name [] up named = tt
  lookup-values name ((key, held) ∷ rest) up named = (
    rw (named.0, eq_refl key) refl,
    skip_front name key held rest rest up.0 named.1 (lookup-values name rest up.1 named.1),
  )
