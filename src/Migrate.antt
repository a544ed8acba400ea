-- ===== src/Migrate.antt =====
-- compliance-backend/internal/store/store.go: `Migrate`. The embedded files, and what Postgres makes of
-- a migration's text, are parameters; the advisory lock makes two starts one after the other.
pub mod Resumed
use compliance_gateway.Common.{
  ℕ, Bool, true, false, ◌||◌, Option, none, some, List, [], ◌∷◌, if◌then◌else◌,
}
use compliance_gateway.Text.{Text, text_eq, text_le}

-- The rows of `schema_migrations`, the last one first, and what the migrations have made.
pub record Database (S : Type 0) : Type 0 where
  pub applied : List Text
  pub schema : S

pub data MigrateErr : Type 0 where
  no_files no_connection no_lock no_table no_file migration_failed : MigrateErr

-- What the migrator gets from the file system and the connection before the first file.
pub record Session : Type 0 where
  pub names : Option (List Text)  -- fs.Glob
  pub connects : Bool
  pub locks : Bool
  pub creates_table : Bool
  pub read_file : Text → Option Text

-- SELECT EXISTS (…)
unfoldable pub is_applied : Text → List Text → Bool
unfolding text_eq
is_applied n [] = false
is_applied n (m ∷ ms) = text_eq m n || is_applied n ms

-- sort.Strings
unfoldable pub insert_name : Text → List Text → List Text
unfolding text_le
insert_name n [] = n ∷ []
insert_name n (m ∷ ms) = let rest = insert_name n ms in if text_le n m then n ∷ m ∷ ms else m ∷ rest

unfoldable pub sort_names : List Text → List Text
unfolding insert_name
sort_names [] = []
sort_names (n ∷ ns) = insert_name n (sort_names ns)

module _ {S : Type 0} (read_file : Text → Option Text) (execute : Text → S → Option S) where
  -- One migration in its own transaction: the text and the row, or neither.
  unfoldable pub apply_one : Text → Text → Database S → Option (Database S)
  apply_one name body db = elim (execute body db.schema) [
    | none ↦ none
    | some s ↦ some (record { applied = name ∷ db.applied; schema = s })
  ]

  -- The files in order; the first error ends the loop, and what was committed stays.
  unfoldable pub apply_all : List Text → Database S → Database S × Option MigrateErr
  unfolding is_applied apply_one
  apply_all [] db = (db, none)
  apply_all (n ∷ ns) db = if is_applied n db.applied then apply_all ns db else elim (read_file n) [
    | none ↦ (db, some no_file)
    | some body ↦ elim (apply_one n body db) [
      | none ↦ (db, some migration_failed)
      | some db' ↦ apply_all ns db'
    ]
  ]

-- `Migrate`
unfoldable pub migrate :
    {S : Type 0} → Session → (Text → S → Option S) → Database S → Database S × Option MigrateErr
unfolding apply_all sort_names
migrate session execute db = elim session.names [
  | none ↦ (db, some no_files)
  | some names ↦
      if session.connects
      then (if session.locks
          then (if session.creates_table
              then apply_all session.read_file execute (sort_names names) db
              else (db, some no_table))
          else (db, some no_lock))
      else (db, some no_connection)
]
