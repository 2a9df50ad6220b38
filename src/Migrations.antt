-- ===== src/Migrations.antt =====
-- runtime/alembic/versions: the operations that the revisions run, and what they do to the catalog of the
-- database. Of PostgreSQL only what a script of this kind can run into is here: a name that is taken, an
-- object that is missing, and a drop of what another object needs. Sizes, defaults, and the names of
-- constraints and indexes are carried along.
pub mod Tenancy
pub mod ContextRules
pub mod Operational
pub mod Revisions
pub mod Catalogs
pub mod Undo
pub mod Scoping
pub mod RowSecurity
pub mod Protection
pub mod AppRole
mod Tests
use argus_services.Prelude.{
  ℕ, String, Bool, true, false, not, ◌&&◌, ◌||◌, str_eq, Option, none, some, List, [], ◌∷◌, ◌++◌,
  if◌then◌else◌,
}
use argus_services.Exec.{Result, ok, raised, service_error}
use argus_services.Exec.Fallible.{◌>>=◌}

pub data ColumnType : Type 0 where
  uuid text boolean integer jsonb timestamptz time : ColumnType
  string : ℕ → ColumnType
  -- `postgresql.ENUM(..., name=name, create_type=False)`
  enum : String → ColumnType

-- `sa.ForeignKey("table.id", ondelete=...)`
pub record ForeignKey : Type 0 where
  pub target : String
  pub ondelete : String

pub record Column : Type 0 where
  pub name : String
  pub type_of : ColumnType
  pub nullable : Bool
  pub primary_key : Bool
  pub unique : Bool
  pub server_default : Option String
  pub foreign_key : Option ForeignKey

pub record UniqueConstraint : Type 0 where
  pub name : String
  pub columns : List String

pub record Index : Type 0 where
  pub name : String
  pub columns : List String
  pub postgresql_where : Option String

pub data Object : Type 0 where
  enum_type : String → List String → Object
  table : String → List Column → List UniqueConstraint → List Index → Object

pub data Op : Type 0 where
  -- `CREATE TYPE ... AS ENUM` and `op.create_table`
  create : Object → Op
  create_index : String → Index → Op
  drop_type_if_exists drop_table : String → Op

abbrev pub Catalog : Type 0
Catalog = List Object

abbrev pub name_of : Object → String
name_of (enum_type n _) = n
name_of (table n _ _ _) = n

abbrev pub is_table : Object → Bool
is_table (enum_type _ _) = false
is_table (table _ _ _ _) = true

-- What a column needs: the type of its values, and the table that it refers to.
abbrev type_needs : ColumnType → List String
type_needs (enum n) = n ∷ []
type_needs _ = []

abbrev key_needs : Option ForeignKey → List String
key_needs none = []
key_needs (some k) = k.target ∷ []

abbrev column_needs : List Column → List String
column_needs [] = []
column_needs (c ∷ cs) = type_needs c.type_of ++ key_needs c.foreign_key ++ column_needs cs

abbrev pub needs : Object → List String
needs (enum_type _ _) = []
needs (table _ columns _ _) = column_needs columns

unfoldable pub has : String → Catalog → Bool
has n [] = false
has n (o ∷ c) = str_eq (name_of o) n || has n c

unfoldable pub has_all : List String → Catalog → Bool
has_all [] c = true
has_all (n ∷ ns) c = has n c && has_all ns c

abbrev pub is_in : String → List String → Bool
is_in n [] = false
is_in n (m ∷ ms) = str_eq m n || is_in n ms

unfoldable pub is_needed : String → Catalog → Bool
is_needed n [] = false
is_needed n (o ∷ c) = is_in n (needs o) || is_needed n c

unfoldable pub has_table : String → Catalog → Bool
has_table n [] = false
has_table n (o ∷ c) = (is_table o && str_eq (name_of o) n) || has_table n c

unfoldable pub remove : String → Catalog → Catalog
remove n [] = []
remove n (o ∷ c) = let rest = remove n c in if str_eq (name_of o) n then c else o ∷ rest

abbrev with_index : Index → Object → Object
with_index i (enum_type n values) = enum_type n values
with_index i (table n columns uniques indexes) = table n columns uniques (indexes ++ i ∷ [])

unfoldable pub add_index : String → Index → Catalog → Catalog
add_index t i [] = []
add_index t i (o ∷ c) =
    let rest = add_index t i c in if str_eq (name_of o) t then with_index i o ∷ c else o ∷ rest

abbrev drop_object : String → Catalog → Result Catalog
drop_object n c =
    if is_needed n (remove n c)
    then raised (service_error "other objects depend on it")
    else ok (remove n c)

unfoldable pub exec : Op → Catalog → Result Catalog
exec (create o) c =
    if has (name_of o) c
    then raised (service_error "already exists")
    else if has_all (needs o) c
    then ok (o ∷ c)
    else raised (service_error "does not exist")
exec (create_index t i) c =
    if has_table t c then ok (add_index t i c) else raised (service_error "does not exist")
exec (drop_type_if_exists n) c = if has n c then drop_object n c else ok c
exec (drop_table n) c =
    if has_table n c then drop_object n c else raised (service_error "does not exist")

unfoldable pub run : List Op → Catalog → Result Catalog
run [] c = ok c
run (o ∷ ops) c = do after ← exec o c; run ops after

-- The columns that the scripts write again and again.
abbrev pub column : String → ColumnType → Bool → Column
column name type_of nullable = record {
  name = name;
  type_of = type_of;
  nullable = nullable;
  primary_key = false;
  unique = false;
  server_default = none;
  foreign_key = none;
}

-- `sa.Column("id", postgresql.UUID(as_uuid=True), primary_key=True)`
abbrev pub id_column : Column
id_column = record (column "id" uuid false) { primary_key = true }

abbrev pub defaulted : String → ColumnType → String → Column
defaulted name type_of default = record (column name type_of false) {
  server_default = some default;
}

-- `sa.DateTime(timezone=True), nullable=False, server_default=sa.text("now()")`
abbrev pub now_column : String → Column
now_column name = defaulted name timestamptz "now()"

abbrev pub reference : String → String → String → Bool → Column
reference name target ondelete nullable = record (column name uuid nullable) {
  foreign_key = some (record { target = target; ondelete = ondelete });
}

abbrev pub tenant_column : Column
tenant_column = reference "tenant_id" "tenants" "CASCADE" false

abbrev pub index_on : String → List String → Index
index_on name columns = record { name = name; columns = columns; postgresql_where = none }
