-- ===== src/Migrations/Rerun.antt =====
-- What a second run of Migrate does (internal/db/migrate.go).
use text.Mathlib.TextPositions.{eq_refl}
use job_scheduling.Base.{
  ◌≡◌, refl, Bool, true, none, List, [], ◌∷◌, String, arith, if_elim, if_cases, All,
}
use job_scheduling.Migrations.{Migration, migrations, contains, Ran, apply_each, migrate}

-- Each version of the list is among the recorded ones.
abbrev pub AllRecorded : List String → List Migration → Type 0
AllRecorded recorded = All (λ m. contains m.version recorded ≡ true)

-- What is recorded stays recorded.
keeps_recorded :
    (fails : Migration → Bool) (done : List String) (ms : List Migration)
    (applied recorded : List String) (v : String)
    → contains v recorded ≡ true
    → contains v (apply_each fails done ms applied recorded).recorded ≡ true
unfolding apply_each
keeps_recorded fails done [] applied recorded v h = h
keeps_recorded fails done (m ∷ ms) applied recorded v h =
    if_elim (λ (o : Ran). contains v o.recorded ≡ true) (contains m.version done) _ _
      (keeps_recorded fails done ms applied recorded v h)
      (if_elim (λ (o : Ran). contains v o.recorded ≡ true) (fails m) _ _ h
        (keeps_recorded fails done ms _ _ v (ground arith)))

-- A run without an error leaves every version recorded.
abbrev Complete : List Migration → Ran → Type 0
Complete ms o = o.error ≡ none → AllRecorded o.recorded ms

apply_each-Complete :
    (fails : Migration → Bool) (done : List String) (ms : List Migration)
    (applied recorded : List String)
    → ((v : String) → contains v done ≡ true → contains v recorded ≡ true)
    → Complete ms (apply_each fails done ms applied recorded)
unfolding apply_each
apply_each-Complete fails done [] applied recorded known = λ h. tt
apply_each-Complete fails done (m ∷ ms) applied recorded known =
    if_cases (Complete (m ∷ ms)) (contains m.version done) _ _
      (λ old h. (
        keeps_recorded fails done ms applied recorded m.version (known m.version old),
        apply_each-Complete fails done ms applied recorded known h,
      ))
      (λ new.
        if_cases (Complete (m ∷ ms)) (fails m) _ _ (λ stops h. ground arith)
          (λ goes h. (
            keeps_recorded fails done ms _ _ m.version (now m),
            apply_each-Complete fails done ms _ (m.version ∷ recorded)
                (λ v k. ground (arith, known v k)) h,
          )))
  where
    now : (m : Migration) → contains m.version (m.version ∷ recorded) ≡ true
    now m = rw (eq_refl m.version) refl

-- Where every version is recorded, nothing is applied.
nothing_left :
    (fails : Migration → Bool) (done : List String) (ms : List Migration)
    (applied recorded : List String)
    → AllRecorded done ms
    → apply_each fails done ms applied recorded
      ≡ record { applied = applied; error = none; recorded = recorded }
unfolding apply_each
nothing_left fails done [] applied recorded a = refl
nothing_left fails done (m ∷ ms) applied recorded (h, a) =
    rw h (nothing_left fails done ms applied recorded a)

-- Once Migrate has run without an error, every migration is recorded, and a further run over the same
-- files applies nothing, records nothing, and does not fail, whatever their statements would do.
pub migrate_twice :
    (fails fails' : Migration → Bool) (ms : List Migration) (recorded : List String)
    → let first = migrate fails (migrations ms) recorded in
      first.error ≡ none
      → All (λ m. contains m.version first.recorded ≡ true) ms
        × (migrate fails' (migrations ms) first.recorded
            ≡ record { applied = []; error = none; recorded = first.recorded })
unfolding migrate
migrate_twice fails fails' ms recorded h =
    let all = apply_each-Complete fails recorded ms [] recorded (λ v k. k) h in
    (all, nothing_left fails' (apply_each fails recorded ms [] recorded).recorded ms [] _ all)
