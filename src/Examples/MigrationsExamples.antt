-- ===== src/Examples/MigrationsExamples.antt =====
-- The theorem on the migrations, applied.
use job_scheduling.Base.{◌≡◌, refl, Bool, true, false, none, [], ◌∷◌, All, List}
use job_scheduling.Migrations.{Migration, migrations, migrate, contains, apply_each}
use job_scheduling.Migrations.Rerun.{migrate_twice}

abbrev files : List Migration
files =
    record { version = "001"; name = "types"; sql = "" }
    ∷ record { version = "002"; name = "core"; sql = "" }
    ∷ []

abbrev works : Migration → Bool
works m = false

first_run : (migrate works (migrations files) []).error ≡ none
unfolding migrate apply_each
first_run = refl

migrate_twice_example :
    let first = migrate works (migrations files) [] in
    All (λ m. contains m.version first.recorded ≡ true) files
    × (migrate (λ m. true) (migrations files) first.recorded
        ≡ record { applied = []; error = none; recorded = first.recorded })
migrate_twice_example = migrate_twice works (λ m. true) files [] first_run
