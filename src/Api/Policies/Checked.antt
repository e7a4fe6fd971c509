-- ===== src/Api/Policies/Checked.antt =====
-- What the requests of internal/api/policies.go keep of the table.
use text.Mathlib.TextEquality.{eq_iff}
use job_scheduling.Base.{
  ℕ, ◌≡◌, ap, Bool, true, false, not, List, ◌∷◌, String, arith, exists, modify, All, All-select,
  delete_all,
}
use job_scheduling.Store.{Policy, Db}
use job_scheduling.Api.Problem.{done}
use job_scheduling.Api.Binds.{done-eq, bind-done, require-done}
use job_scheduling.Api.Keys.{Keyed, Keyed-cons, Keyed-modify, Keyed-select, All-modify}
use job_scheduling.Api.Policies.{
  PolicyReq, policy_check, admit_policy, create_policy, update_policy, delete_policy, is_policy,
  same_policy_name,
}

-- The rows pass the table's checks, and no two of a project have one name.
abbrev pub ArePolicies : List Policy → Type 0
ArePolicies ps = All (λ p. policy_check p ≡ true) ps × Keyed same_policy_name ps

same_policy_name_comm : (p r : Policy) → same_policy_name p r ≡ same_policy_name r p
same_policy_name_comm p r = ground (arith, eq_iff p.name r.name, eq_iff r.name p.name)

same_policy_name_self : (p : Policy) → same_policy_name p p ≡ false
same_policy_name_self p = ground arith

pub not-true : (b : Bool) → not b ≡ true → b ≡ false
not-true b h = ground arith

admit_policy_lem :
    (p : Policy) (ps : List Policy) (u : Unit {0})
    → admit_policy p ps ≡ done u
    → (policy_check p ≡ true) × (exists (same_policy_name p) ps ≡ false)
unfolding admit_policy
admit_policy_lem p ps u h =
    let (v, first, rest) = bind-done _ _ u h in
    (require-done _ _ v first, not-true _ (require-done _ _ u rest))

pub create_policy-ArePolicies :
    (trim : String → String) (fresh project : ℕ) (req : PolicyReq) (db : Db) (p : Policy) (db' : Db)
    → create_policy trim fresh project req db ≡ done (p, db')
    → ArePolicies db.policies
    → (ps : List Policy) × (record db { policies = ps } ≡ db') × ArePolicies ps
unfolding create_policy
create_policy-ArePolicies trim fresh project req db p db' h (checks, keyed) =
    let (u, named, h1) = bind-done _ _ _ h in
    let (kind, known, h2) = bind-done _ _ _ h1 in
    let (p', filled, h3) = bind-done _ _ _ h2 in
    let (v, fits, h4) = bind-done _ _ _ h3 in
    let (check, apart) = admit_policy_lem p' db.policies v fits in
    (
      p' ∷ db.policies,
      ap (λ (r : Policy × Db). r.1) (done-eq _ (p, db') h4),
      (
        (check, checks),
        Keyed-cons same_policy_name same_policy_name_comm same_policy_name_self p' db.policies apart
            keyed,
      ),
    )

pub update_policy-ArePolicies :
    (id : ℕ) (req : PolicyReq) (db : Db) (p : Policy) (db' : Db)
    → update_policy id req db ≡ done (p, db')
    → ArePolicies db.policies
    → (ps : List Policy) × (record db { policies = ps } ≡ db') × ArePolicies ps
unfolding update_policy
update_policy-ArePolicies id req db p db' h (checks, keyed) =
    let (kind, known, h1) = bind-done _ _ _ h in
    let (old, found, h2) = bind-done _ _ _ h1 in
    let (p', filled, h3) = bind-done _ _ _ h2 in
    let (v, fits, h4) = bind-done _ _ _ h3 in
    let (check, apart) = admit_policy_lem p' db.policies v fits in
    (
      modify (is_policy id) (λ x. p') db.policies,
      ap (λ (r : Policy × Db). r.1) (done-eq _ (p, db') h4),
      (
        All-modify (λ x. policy_check x ≡ true) (is_policy id) p' db.policies check checks,
        Keyed-modify same_policy_name same_policy_name_comm same_policy_name_self (is_policy id) p'
            db.policies apart keyed,
      ),
    )

pub delete_policy-ArePolicies :
    (id : ℕ) (db db' : Db)
    → delete_policy id db ≡ done db'
    → ArePolicies db.policies
    → (ps : List Policy) × (record db { policies = ps } ≡ db') × ArePolicies ps
unfolding delete_policy delete_all
delete_policy-ArePolicies id db db' h (checks, keyed) =
    let (u, unused, h1) = bind-done _ _ _ h in
    (
      delete_all (is_policy id) db.policies,
      done-eq _ db' h1,
      (
        All-select _ (λ x. not (is_policy id x)) db.policies checks,
        Keyed-select same_policy_name same_policy_name_comm same_policy_name_self
            (λ x. not (is_policy id x)) db.policies keyed,
      ),
    )
