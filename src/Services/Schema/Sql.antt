-- ===== src/Services/Schema/Sql.antt =====
-- infra/db/migrations/planner.rs: the texts of the statements.
use Prim.Native.String.{◌++◌}
use fenrir.Prelude.{String, Bool, Option, none, some, List, [], ◌∷◌, if◌then◌else◌, find}
use fenrir.Services.Schema.{ColumnBlueprint, text_eq}

-- `\"{}\"`.
unfoldable pub quoted : String → String
quoted name = "\"" ++ name ++ "\""

-- `parts.join(", ")`.
unfoldable pub joined : List String → String
joined [] = ""
joined (part ∷ []) = part
joined (part ∷ next ∷ rest) = let others = joined (next ∷ rest) in part ++ ", " ++ others

abbrev pub not_null : Bool → String
not_null nullable = if nullable then "" else " NOT NULL"

abbrev pub default_clause : Option String → String
default_clause none = ""
default_clause (some d) = " DEFAULT " ++ d

unfoldable pub column_def : ColumnBlueprint → String
unfolding quoted
column_def c =
    quoted c.name ++ " " ++ c.data_type ++ not_null c.nullable ++ default_clause c.default_value

abbrev pub primary_part : List String → List String
primary_part [] = []
primary_part (c ∷ cs) = ("PRIMARY KEY (" ++ joined (c ∷ cs) ++ ")") ∷ []

-- The foreign key of a target: of the first column with that reference.
abbrev pub foreign_part : String → Option ColumnBlueprint → List String → List String
foreign_part target none parts = parts
foreign_part target (some c) parts =
    ("FOREIGN KEY (" ++ quoted c.name ++ ") REFERENCES " ++ target) ∷ parts

-- The loop over the references of a table's columns, the columns that are left last.
unfoldable pub foreign_parts : List ColumnBlueprint → List ColumnBlueprint → List String
unfolding quoted
foreign_parts columns [] = []
foreign_parts columns (c ∷ cs) =
    let rest = foreign_parts columns cs in
    elim c.references [
      | none ↦ rest
      | some target ↦
          foreign_part target (find (λ d. text_eq d.references (some target)) columns) rest
    ]

abbrev pub create_with : String → List String → String
create_with name parts =
    "CREATE TABLE IF NOT EXISTS " ++ quoted name ++ " (" ++ joined parts ++ ");"

abbrev pub drop_table_text : String → String
drop_table_text name = "DROP TABLE IF EXISTS " ++ quoted name ++ ";"

abbrev pub alter_text : String → String
alter_text in_table = "ALTER TABLE " ++ quoted in_table

abbrev pub pg_add_column : String → ColumnBlueprint → String
pg_add_column in_table c = alter_text in_table ++ " ADD COLUMN " ++ column_def c ++ ";"

abbrev pub sqlite_add_column : String → ColumnBlueprint → String
sqlite_add_column in_table c =
    alter_text in_table
    ++ " ADD COLUMN "
    ++ quoted c.name
    ++ " "
    ++ c.data_type
    ++ default_clause c.default_value
    ++ ";"

abbrev pub pg_drop_column : String → String → String
pg_drop_column in_table column =
    alter_text in_table ++ " DROP COLUMN IF EXISTS " ++ quoted column ++ ";"

abbrev pub sqlite_drop_column : String → String → String
sqlite_drop_column in_table column =
    "-- SQLite drop column not supported directly; would require table rebuild for " ++ in_table
    ++ "." ++ column

abbrev pub alter_column_text : String → String → String → String
alter_column_text in_table column change =
    alter_text in_table ++ " ALTER COLUMN " ++ quoted column ++ " " ++ change ++ ";"

abbrev pub nullable_change : Bool → String
nullable_change nullable = if nullable then "DROP NOT NULL" else "SET NOT NULL"

abbrev pub default_change : Option String → String
default_change none = "DROP DEFAULT"
default_change (some value) = "SET DEFAULT " ++ value

abbrev pub type_change : String → String
type_change data_type = "TYPE " ++ data_type

abbrev pub constraint_name : String → String → String
constraint_name in_table column = "fk_" ++ in_table ++ "_" ++ column

abbrev pub add_key_text : String → String → String → String
add_key_text in_table column target =
    alter_text in_table
    ++ " ADD CONSTRAINT "
    ++ quoted (constraint_name in_table column)
    ++ " FOREIGN KEY ("
    ++ quoted column
    ++ ") REFERENCES "
    ++ target
    ++ ";"

abbrev pub drop_key_text : String → String → String
drop_key_text in_table column =
    alter_text in_table
    ++ " DROP CONSTRAINT IF EXISTS "
    ++ quoted (constraint_name in_table column)
    ++ ";"

abbrev pub sqlite_column_def : ColumnBlueprint → String
sqlite_column_def c = column_def c ++ (if c.is_primary then " PRIMARY KEY" else "")
