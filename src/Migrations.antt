-- ===== src/Migrations.antt =====
-- internal/db/migrate.go: Load reads the migrations out of the embedded files, Migrate applies those
-- that are not yet recorded. The pattern that names are matched with, the reading of files and the
-- running of a migration's SQL are arguments. An advisory lock keeps runs apart.
pub mod Rerun
use Prim.Native.String.{compare}
use Prim.Native.Nat.{Ordering}
use job_scheduling.Base.{
  Bool, true, false, ◌||◌, Option, none, some, List, [], ◌∷◌, ◌++◌, String, str_eq, if◌then◌else◌,
  sort_by,
}

pub record Migration : Type 0 where
  pub version : String
  pub name : String
  pub sql : String

-- An embedded file: what the pattern makes of its name, and its contents if they can be read.
pub record Entry : Type 0 where
  pub parts : Option (String × String)
  pub body : Option String

-- The errors of Load, and those of the statements of Migrate.
pub data MigrateError : Type 0 where
  duplicate_version : String → MigrateError
  unreadable : MigrateError
  failed_at : String → MigrateError

pub data Loaded : Type 0 where
  migrations : List Migration → Loaded
  broken : MigrateError → Loaded

abbrev pub contains : String → List String → Bool
contains v [] = false
contains v (w ∷ ws) = str_eq w v || contains v ws

-- `out[i].Version < out[j].Version`, the order of strings.
abbrev pub by_version : Migration → Migration → Bool
by_version a b = elim (compare a.version b.version) [ Ordering.lt ↦ true | _ ↦ false ]

-- The loop of Load, with the versions seen and the migrations so far.
unfoldable pub load_each : List Entry → List String → List Migration → Loaded
load_each [] seen out = migrations (sort_by by_version out)
load_each (e ∷ es) seen out = elim e.parts [
  | none ↦ load_each es seen out
  | some p ↦ if contains p.0 seen then broken (duplicate_version p.0) else elim e.body [
    | none ↦ broken unreadable
    | some sql ↦
        load_each es (p.0 ∷ seen) (out ++ record { version = p.0; name = p.1; sql = sql } ∷ [])
  ]
]

-- Load.
unfoldable pub load : List Entry → Loaded
unfolding load_each
load es = load_each es [] []

-- The versions applied, the error that stopped the run, and the versions in schema_migrations.
pub record Ran : Type 0 where
  pub applied : List String
  pub error : Option MigrateError
  pub recorded : List String

-- The loop of Migrate, with the versions that were recorded when it began. `fails` tells whether
-- the transaction of a migration, which also records it, fails.
unfoldable pub apply_each :
    (Migration → Bool) → List String → List Migration → List String → List String → Ran
apply_each fails done [] applied recorded = record {
  applied = applied;
  error = none;
  recorded = recorded;
}
apply_each fails done (m ∷ ms) applied recorded =
    let skip = apply_each fails done ms applied recorded in
    let rest = apply_each fails done ms (applied ++ m.version ∷ []) (m.version ∷ recorded) in
    if contains m.version done
    then skip
    else if fails m
    then record { applied = applied; error = some (failed_at m.version); recorded = recorded }
    else rest

-- Migrate, of what Load made.
unfoldable pub migrate : (Migration → Bool) → Loaded → List String → Ran
unfolding apply_each
migrate fails (broken e) recorded = record { applied = []; error = some e; recorded = recorded }
migrate fails (migrations ms) recorded = apply_each fails recorded ms [] recorded
