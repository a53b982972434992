-- ===== src/Services/Schema/Reached.antt =====
-- The diff of a table leads to the desired columns (services/db_schema/diff.rs).
use fenrir.Prelude.{◌≡◌, String, Option, none, some, List, [], All}
use fenrir.Prelude.Dict.{Dict, lookup}
use fenrir.Services.Schema.{ColumnBlueprint, by_name}
use fenrir.Services.Schema.Columns.{Shape, shape_of}

abbrev or_else {ℓ} : {A : Type ℓ} → Option A → Option A → Option A
or_else none b = b
or_else (some a) b = some a

-- Both maps have one column at the names of the list.
abbrev Agree : Dict Shape → Dict ColumnBlueprint → List ColumnBlueprint → Type 0
Agree m current ds = All (λ d. lookup d.name m ≡ shape_of (lookup d.name current)) ds

-- The database has the columns of the list.
abbrev pub Holds : Dict Shape → List ColumnBlueprint → Type 0
Holds m columns = (name : String) → lookup name m ≡ shape_of (lookup name (by_name [] columns))
