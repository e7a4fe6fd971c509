-- ===== src/Jobs/Deps.antt =====
-- fl.finish_dependents and fl.cancel_descendants of migrations/021_dependency_flow.sql: what the
-- end of a job does to the jobs that depend on it.
use job_scheduling.Base.{
  ℕ, zero, suc, ◌-◌, Bool, ◌&&◌, none, some, List, [], ◌∷◌, ◌++◌, ltb, leb, ◌==◌, if◌then◌else◌,
  select, exists, update_all, elem, map, length,
}
use job_scheduling.Store.{Job, Dependency, queued, cancelled, is_idle, is_scheduled}

abbrev children_of : ℕ → List Dependency → List Dependency
children_of p = select (λ d. d.parent == p)

-- `c.id in (select child_id … where parent_id = parent)`.
abbrev pub is_child : ℕ → List Dependency → ℕ → Bool
is_child p deps c = exists (λ d. d.parent == p && d.child == c) deps

unfoldable pub waits_on : ℕ → List Dependency → Job → Bool
waits_on parent deps c = is_child parent deps c.id && is_scheduled c.status && ltb 0 c.pending_deps

-- The last parent's end queues a job that is due.
unfoldable pub unblock : ℕ → Job → Job
unblock now c = record c {
  pending_deps = c.pending_deps - 1;
  status = if c.pending_deps - 1 == 0 && leb c.run_at now then queued else c.status;
}

unfoldable pub finish_dependents : ℕ → ℕ → List Dependency → List Job → List Job
unfolding waits_on unblock
finish_dependents now parent deps = update_all (waits_on parent deps) (unblock now)

-- The ids that finish_dependents returns.
unfoldable pub woken : ℕ → List Dependency → List Job → List ℕ
unfolding waits_on
woken parent deps jobs = map (λ j. j.id) (select (waits_on parent deps) jobs)

-- One level of the recursive query `down`: the edges out of the last job of a walk, of which those
-- are followed whose child the walk has not visited.
visit : (List ℕ → ℕ → List ℕ) → List ℕ → List Dependency → List ℕ
visit deeper path [] = []
visit deeper path (d ∷ ds) =
    let rest = visit deeper path ds in
    let below = deeper (d.child ∷ path) d.child in
    if elem d.child path then rest else d.child ∷ (below ++ rest)

-- The walks from a job, at most `fuel` edges long. A walk visits a job once, so the number of
-- dependencies is enough fuel.
unfoldable pub down : ℕ → List Dependency → List ℕ → ℕ → List ℕ
unfolding visit
down zero deps path p = []
down (suc fuel) deps path p = visit (down fuel deps) path (children_of p deps)

unfoldable pub descendants : ℕ → List Dependency → List ℕ
unfolding down
descendants root deps = down (length deps) deps (root ∷ []) root

unfoldable pub is_doomed : ℕ → List Dependency → Job → Bool
unfolding descendants
is_doomed root deps j = elem j.id (descendants root deps) && is_idle j.status

unfoldable pub cancel_row : ℕ → Job → Job
cancel_row now j = record j {
  status = cancelled;
  finished_at = some now;
  pending_deps = 0;
  worker = none;
}

unfoldable pub cancel_descendants : ℕ → ℕ → List Dependency → List Job → List Job
unfolding is_doomed cancel_row
cancel_descendants now root deps = update_all (is_doomed root deps) (cancel_row now)

-- The jobs that cancel_descendants returns.
unfoldable pub killed : ℕ → List Dependency → List Job → List Job
unfolding is_doomed
killed root deps jobs = select (is_doomed root deps) jobs
