-- ===== src/Api/Pages/Built.antt =====
-- What the statement of listJobs selects (internal/api/query.go).
use job_scheduling.Base.{
  ℕ, ◌≡◌, ap, Bool, true, ◌&&◌, Option, none, some, List, String, str_eq, arith, ◌==◌, select, take,
  sort_by, fun_ext,
}
use job_scheduling.Store.{Job, Status, same_status}
use job_scheduling.Api.Pages.{
  Filter, listing, execute, newer, is_before, with_equal, with_before, build,
}

abbrev pub wanted : {A : Type 0} → (A → Bool) → Option A → Bool
wanted p none = true
wanted p (some a) = p a

-- The rows that the request is for, and those of them behind the cursor.
abbrev pub matches : ℕ → Filter → Job → Bool
matches project f j =
    j.project == project
    && (wanted (λ s. same_status j.status s) f.status
        && (wanted (λ k. str_eq j.kind k) f.kind && wanted (λ q. j.queue == q) f.queue))

abbrev pub behind : Option (ℕ × ℕ) → Job → Bool
behind none j = true
behind (some (t, i)) j = is_before t i j

same_page :
    (limit : ℕ) (jobs : List Job) (p q : Job → Bool)
    → ((j : Job) → p j ≡ q j)
    → take limit (sort_by newer (select p jobs)) ≡ take limit (sort_by newer (select q jobs))
same_page limit jobs p q h = ap (λ r. take limit (sort_by newer (select r jobs))) (fun_ext h)

-- The statement that eq, before and build put together, its arguments in the places that its text
-- names, gives the newest of the rows that are asked for, up to the limit.
pub execute-listing :
    (project : ℕ) (status : Option Status) (kind : Option String) (queue : Option ℕ)
    (cursor : Option (ℕ × ℕ)) (limit : ℕ) (jobs : List Job)
    → execute
        (listing project (record { status = status; kind = kind; queue = queue }) cursor limit)
        jobs
      ≡ take limit (
          sort_by newer (
            select
              (λ j.
                matches project (record { status = status; kind = kind; queue = queue }) j
                && behind cursor j)
              jobs))
unfolding execute listing with_equal with_before build
execute-listing project none none none none limit jobs =
    same_page limit jobs _ _ (λ j. ground arith)
execute-listing project none none none (some (t, i)) limit jobs =
    same_page limit jobs _ _ (λ j. ground arith)
execute-listing project none none (some q) none limit jobs =
    same_page limit jobs _ _ (λ j. ground arith)
execute-listing project none none (some q) (some (t, i)) limit jobs =
    same_page limit jobs _ _ (λ j. ground arith)
execute-listing project none (some k) none none limit jobs =
    same_page limit jobs _ _ (λ j. ground arith)
execute-listing project none (some k) none (some (t, i)) limit jobs =
    same_page limit jobs _ _ (λ j. ground arith)
execute-listing project none (some k) (some q) none limit jobs =
    same_page limit jobs _ _ (λ j. ground arith)
execute-listing project none (some k) (some q) (some (t, i)) limit jobs =
    same_page limit jobs _ _ (λ j. ground arith)
execute-listing project (some s) none none none limit jobs =
    same_page limit jobs _ _ (λ j. ground arith)
execute-listing project (some s) none none (some (t, i)) limit jobs =
    same_page limit jobs _ _ (λ j. ground arith)
execute-listing project (some s) none (some q) none limit jobs =
    same_page limit jobs _ _ (λ j. ground arith)
execute-listing project (some s) none (some q) (some (t, i)) limit jobs =
    same_page limit jobs _ _ (λ j. ground arith)
execute-listing project (some s) (some k) none none limit jobs =
    same_page limit jobs _ _ (λ j. ground arith)
execute-listing project (some s) (some k) none (some (t, i)) limit jobs =
    same_page limit jobs _ _ (λ j. ground arith)
execute-listing project (some s) (some k) (some q) none limit jobs =
    same_page limit jobs _ _ (λ j. ground arith)
execute-listing project (some s) (some k) (some q) (some (t, i)) limit jobs =
    same_page limit jobs _ _ (λ j. ground arith)
