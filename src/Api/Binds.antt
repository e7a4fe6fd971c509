-- ===== src/Api/Binds.antt =====
-- Chains of steps in internal/api that may refuse: what a chain that succeeds has done.
use job_scheduling.Base.{◌≡◌, refl, Bool, true, false, Option, none, some, arith}
use job_scheduling.Api.Problem.{ApiError, ApiReply, done, refused, ◌>>=◌, require}
use job_scheduling.Api.Submit.{expect}

-- A bind that succeeds has a first half that does.
pub bind-done :
    {A B : Type 0} (m : ApiReply A) (k : A → ApiReply B) (b : B)
    → (m >>= k) ≡ done b
    → (a : A) × (m ≡ done a) × (k a ≡ done b)
unfolding ◌>>=◌
bind-done (done a) k b h = (a, refl, h)
bind-done (refused e) k b h = ground arith

pub expect-done :
    {A : Type 0} (o : Option A) (e : ApiError) (a : A) → expect o e ≡ done a → o ≡ some a
expect-done none e a h = ground arith
expect-done (some x) e a h = ground arith

pub require-done : (b : Bool) (e : ApiError) (a : Unit {0}) → require b e ≡ done a → b ≡ true
require-done true e a h = refl
require-done false e a h = ground arith

pub done-eq : {A : Type 0} (a b : A) → done a ≡ done b → a ≡ b
done-eq a b h = cc
