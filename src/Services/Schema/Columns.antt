-- ===== src/Services/Schema/Columns.antt =====
-- What the operations of a table's diff make of its columns (services/db_schema/diff.rs).
use text.Mathlib.Text.{◌==◌}
use fenrir.Prelude.{
  ◌≡◌, refl, inl, inr, sym, ap, String, Bool, true, false, ◌&&◌, Option, none, some, List, [], ◌∷◌,
  ◌++◌, if◌then◌else◌, arith, All, Bool-cases, eq_iff, is_some,
}
use fenrir.Prelude.Dict.{Dict, lookup, insert, remove, lookup-insert, lookup-remove}
use fenrir.Services.Schema.{
  ColumnBlueprint, MigrationOp, create_table, drop_table, add_column, drop_column, alter_column,
  add_foreign_key, drop_foreign_key, bool_eq, text_eq, new_if_differs, diff_column, column_ops,
  drop_columns, foreign_key_ops, drop_foreign_keys,
}

-- What a database keeps of a column.
pub record Shape : Type 0 where
  pub data_type : String
  pub nullable : Bool
  pub default_value : Option String

abbrev pub shape : ColumnBlueprint → Shape
shape c = record { data_type = c.data_type; nullable = c.nullable; default_value = c.default_value }

abbrev pub or_old {ℓ} : {A : Type ℓ} → Option A → A → A
or_old none a = a
or_old (some b) a = b

-- A column after `ALTER COLUMN`.
abbrev pub altered : Option String → Option Bool → Option (Option String) → Shape → Shape
altered new_type nullable default_value s = record {
  data_type = or_old new_type s.data_type;
  nullable = or_old nullable s.nullable;
  default_value = or_old default_value s.default_value;
}

abbrev pub alter_at :
    String
    → Option String
    → Option Bool
    → Option (Option String)
    → Option Shape
    → Dict Shape
    → Dict Shape
alter_at column new_type nullable default_value none m = m
alter_at column new_type nullable default_value (some s) m =
    insert column (altered new_type nullable default_value s) m

-- What an operation makes of the columns of the table.
unfoldable pub apply : MigrationOp → Dict Shape → Dict Shape
apply (add_column table c) m = insert c.name (shape c) m
apply (drop_column table column) m = remove column m
apply (alter_column table column new_type nullable default_value) m =
    alter_at column new_type nullable default_value (lookup column m) m
apply (create_table t) m = m
apply (drop_table t) m = m
apply (add_foreign_key table column target) m = m
apply (drop_foreign_key table column) m = m

unfoldable pub run : List MigrationOp → Dict Shape → Dict Shape
unfolding apply
run [] m = m
run (op ∷ ops) m = run ops (apply op m)

pub run-append : (xs ys : List MigrationOp) (m : Dict Shape) → run (xs ++ ys) m ≡ run ys (run xs m)
unfolding run
run-append [] ys m = refl
run-append (x ∷ xs) ys m = run-append xs ys (apply x m)

abbrev pub shape_of : Option ColumnBlueprint → Option Shape
shape_of none = none
shape_of (some c) = some (shape c)

-- The column of a name among the desired ones.
unfoldable pub wanted : String → List ColumnBlueprint → Option Shape
wanted name [] = none
wanted name (c ∷ cs) =
    let others = wanted name cs in if c.name == name then some (shape c) else others

-- No two columns have one name.
abbrev pub AreDistinct : List ColumnBlueprint → Type 0
AreDistinct [] = Unit
AreDistinct (c ∷ cs) = All (λ d. (c.name == d.name) ≡ false) cs × AreDistinct cs

bool_eq_sound : (a b : Bool) → bool_eq a b ≡ true → a ≡ b
bool_eq_sound a b h = ground arith

text_eq_sound : (a b : Option String) → text_eq a b ≡ true → a ≡ b
text_eq_sound none none h = refl
text_eq_sound none (some b) h = absurd (ground arith)
text_eq_sound (some a) none h = absurd (ground arith)
text_eq_sound (some a) (some b) h = ap (λ t. some t) ((eq_iff a b).0 h)

shape_path :
    {s t : Shape}
    → s.data_type ≡ t.data_type
    → s.nullable ≡ t.nullable
    → s.default_value ≡ t.default_value
    → s ≡ t
shape_path e f g = λ i. record { data_type = e i; nullable = f i; default_value = g i }

or_old-new {ℓ} :
    {A : Type ℓ} (same : Bool) (a b : A)
    → (same ≡ true → a ≡ b)
    → or_old (new_if_differs same a) b ≡ a
or_old-new true a b e = sym (e refl)
or_old-new false a b e = refl

-- An altered column is as desired.
altered-eq :
    (d c : ColumnBlueprint)
    → altered
        (new_if_differs (d.data_type == c.data_type) d.data_type)
        (new_if_differs (bool_eq d.nullable c.nullable) d.nullable)
        (new_if_differs (text_eq d.default_value c.default_value) d.default_value)
        (shape c)
      ≡ shape d
altered-eq d c =
    shape_path
      (or_old-new (d.data_type == c.data_type) d.data_type c.data_type
        (eq_iff d.data_type c.data_type).0)
      (or_old-new (bool_eq d.nullable c.nullable) d.nullable c.nullable
        (bool_eq_sound d.nullable c.nullable))
      (or_old-new (text_eq d.default_value c.default_value) d.default_value c.default_value
        (text_eq_sound d.default_value c.default_value))

-- The test by which a column is left as it is.
abbrev is_same : ColumnBlueprint → ColumnBlueprint → Bool
is_same d c =
    (d.data_type == c.data_type)
    && (bool_eq d.nullable c.nullable && text_eq d.default_value c.default_value)

is_same-shape : (d c : ColumnBlueprint) → is_same d c ≡ true → shape d ≡ shape c
is_same-shape d c h =
    shape_path ((eq_iff d.data_type c.data_type).0 (ground arith))
      (bool_eq_sound d.nullable c.nullable (ground arith))
      (text_eq_sound d.default_value c.default_value (ground arith))

unchanged-step :
    (d c : ColumnBlueprint) (m : Dict Shape) (name : String)
    → lookup d.name m ≡ some (shape c)
    → is_same d c ≡ true
    → lookup name m ≡ (if d.name == name then some (shape d) else lookup name m)
unchanged-step d c m name e same =
    let alike = is_same-shape d c same in
    elim (Bool-cases (d.name == name)) [
      | inl h ↦ rw (h, alike, sym ((eq_iff d.name name).0 h)) e
      | inr h ↦ rw h refl
    ]

altered-step :
    (d c : ColumnBlueprint) (m : Dict Shape) (name : String)
    → lookup d.name m ≡ some (shape c)
    → lookup name (
        alter_at d.name
          (new_if_differs (d.data_type == c.data_type) d.data_type)
          (new_if_differs (bool_eq d.nullable c.nullable) d.nullable)
          (new_if_differs (text_eq d.default_value c.default_value) d.default_value)
          (lookup d.name m)
          m)
      ≡ (if d.name == name then some (shape d) else lookup name m)
altered-step d c m name e = rw (e, altered-eq d c) (lookup-insert d.name name (shape d) m)

-- The operations of one desired column, at every name.
pub column_ops-step :
    (table : String) (d : ColumnBlueprint) (current : Option ColumnBlueprint) (m : Dict Shape)
    (name : String)
    → lookup d.name m ≡ shape_of current
    → lookup name (run (column_ops table d current) m)
      ≡ (if d.name == name then some (shape d) else lookup name m)
unfolding run diff_column
column_ops-step table d none m name e = lookup-insert d.name name (shape d) m
column_ops-step table d (some c) m name e = elim (Bool-cases (is_same d c)) [
  | inl same ↦ rw same (unchanged-step d c m name e same)
  | inr differs ↦ rw differs (altered-step d c m name e)
]

-- Nothing that the columns left over hold stays.
pub run-drop_columns :
    (table name : String) (left : Dict ColumnBlueprint) (m : Dict Shape)
    → lookup name (run (drop_columns table left) m)
      ≡ (if is_some (lookup name left) then none else lookup name m)
unfolding run drop_columns lookup
run-drop_columns table name [] m = refl
run-drop_columns table name ((column, c) ∷ left) m =
    ground (arith, run-drop_columns table name left (remove column m), lookup-remove column name m)

pub drop_foreign_keys-id :
    (table : String) (current : Dict String) (m : Dict Shape)
    → run (drop_foreign_keys table current) m ≡ m
unfolding run drop_foreign_keys
drop_foreign_keys-id table [] m = refl
drop_foreign_keys-id table ((column, target) ∷ rest) m = drop_foreign_keys-id table rest m

pub foreign_key_ops-id :
    (table column target : String) (existing : Option String) (m : Dict Shape)
    → run (foreign_key_ops table column target existing) m ≡ m
unfolding run
foreign_key_ops-id table column target none m = refl
foreign_key_ops-id table column target (some old) m = elim (Bool-cases (old == target)) [
  | inl e ↦ rw e refl
  | inr e ↦ rw e refl
]
