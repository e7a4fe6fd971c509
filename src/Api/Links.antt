-- ===== src/Api/Links.antt =====
-- parentIDs and link of internal/api/jobs.go: the dependencies of a submitted job.
use job_scheduling.Base.{
  ℕ, zero, suc, Bool, false, not, ◌&&◌, ◌||◌, Option, none, some, List, [], ◌∷◌, ◌++◌, String, ◌==◌,
  if◌then◌else◌, select, exists, elem, count, length, map,
}
use job_scheduling.Store.{Job, Dependency, Db, is_terminal, unique_violation}
use job_scheduling.Api.Problem.{
  ApiReply, done, refused, bad_request, database, ◌>>=◌, ◌>>◌, require,
}

-- parentIDs; `parse` is uuid.Parse.
unfoldable pub parent_ids : (String → Option ℕ) → List String → ApiReply (List ℕ)
parent_ids parse [] = done []
parent_ids parse (p ∷ ps) = elim (parse p) [
  | none ↦ refused (bad_request "invalid depends_on")
  | some i ↦ parent_ids parse ps >>= λ is. done (i ∷ is)
]

-- parentsSQL: the parents in the project that have not ended.
unfoldable pub pending_parents : List ℕ → ℕ → List Job → ℕ
pending_parents parents project jobs =
    count (λ j. elem j.id parents && j.project == project && not (is_terminal j.status)) jobs

-- The recursive step of cycleSQL, for the edges into one job: an edge is followed unless its parent
-- is on the path, and then its child joins the path.
unfoldable pub climb_each : (List ℕ → ℕ → List ℕ) → List ℕ → List Dependency → List ℕ
climb_each higher path [] = []
climb_each higher path (d ∷ ds) =
    let rest = climb_each higher path ds in
    let above = higher (d.child ∷ path) d.parent in
    if elem d.parent path then rest else d.parent ∷ (above ++ rest)

abbrev pub parents_of : ℕ → List Dependency → List Dependency
parents_of c = select (λ d. d.child == c)

unfoldable pub climb : ℕ → List Dependency → List ℕ → ℕ → List ℕ
unfolding climb_each
climb zero deps path i = []
climb (suc fuel) deps path i = climb_each (climb fuel deps) path (parents_of i deps)

-- The base of cycleSQL: the parents of the new job, on the path of the job alone.
unfoldable pub climb_base : ℕ → List Dependency → ℕ → List Dependency → List ℕ
unfolding climb
climb_base fuel deps child [] = []
climb_base fuel deps child (d ∷ ds) =
    d.parent ∷ (climb fuel deps (child ∷ []) d.parent ++ climb_base fuel deps child ds)

-- cycleSQL. A path visits no job twice, so the number of dependencies is enough fuel.
unfoldable pub has_cycle : ℕ → List Dependency → Bool
unfolding climb_base
has_cycle child deps = elem child (climb_base (length deps) deps child (parents_of child deps))

abbrev edges_to : ℕ → List ℕ → List Dependency
edges_to child = map λ p. record { parent = p; child = child }

unfoldable pub repeats : List ℕ → Bool
repeats [] = false
repeats (x ∷ xs) = elem x xs || repeats xs

-- link: the dependencies behind insertDepsSQL, whose primary key, check and foreign key each turn
-- down a statement.
unfoldable pub link : ℕ → List ℕ → Db → ApiReply Db
unfolding repeats has_cycle
link child parents db = do
  require (not (elem child parents)) (bad_request "a job cannot depend on itself")
  require (not (repeats parents)) (database unique_violation)
  require (not (exists (λ p. not (exists (λ j. j.id == p) db.jobs)) parents))
      (bad_request "depends_on names a job that does not exist")
  let deps = edges_to child parents ++ db.dependencies
  require (not (has_cycle child deps)) (bad_request "depends_on would create a cycle")
  done (record db { dependencies = deps })
