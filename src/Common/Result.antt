-- ===== src/Common/Result.antt =====
-- Exceptions as values. The messages of `TypeError`, `ValueError` and `RuntimeError` are kept.
use Prim.Native.String.{String}
use native.Mathlib.Omega.{arith}
use mathlib.Core.Path.{◌≡◌, refl}
use mathlib.Core.Bool.{Bool, true, false}
use mathlib.Core.Logic.{◌⊎◌, inl, inr}
use mathlib.Core.List.{List, [], ◌∷◌}

pub data Error : Type 0 where
  type_error value_error runtime_error : String → Error
  overflow_error key_error index_error attribute_error : Error
  episode_idempotency_conflict invalid_episode_cursor invalid_claim_cursor claims_unavailable :
      Error
  episode_authorization_denied episode_read_authorization_denied episode_not_found : Error
  claim_not_found claim_read_authorization_denied : Error
  execution_idempotency_conflict execution_not_found invalid_execution_transition : Error
  invalid_execution_cursor execution_authorization_denied orchestration_unavailable : Error
  authentication_required invalid_token tenant_access_denied : Error
  tenant_mismatch invalid_correlation_id limit_out_of_range : String → Error
  actor_id_not_allowed actor_id_required memory_query_scope_mismatch : String → Error
  configuration_error : (code message : String) → Error
  readiness_error : (code : String) → Error

pub data Result {ℓ} (A : Type ℓ) : Type ℓ where
  ok : A → Result A
  err : Error → Result A

-- The rest of a body runs only if the step before it has returned.
infixl 5 ◌>>=◌ ◌>>◌
abbrev pub ◌>>=◌ {ℓ μ} : {A : Type ℓ} {B : Type μ} → Result A → (A → Result B) → Result B
◌>>=◌ step rest = elim step [ err e ↦ err e | ok a ↦ rest a ]

-- A check and what follows it.
abbrev pub ◌>>◌ {μ} : {B : Type μ} → Result (Unit {0}) → Result B → Result B
◌>>◌ check rest = elim check [ err e ↦ err e | ok _ ↦ rest ]

-- `if c: raise e`
abbrev pub raise_if : Bool → Error → Result (Unit {0})
raise_if true e = err e
raise_if false e = ok tt

-- A body that returns has returned from its first step.
pub returned {ℓ μ} :
    {A : Type ℓ} {B : Type μ} (step : Result A) (rest : A → Result B) {out : B}
    → (step >>= rest) ≡ ok out
    → (a : A) × (step ≡ ok a) × (rest a ≡ ok out)
returned (err e) rest h = ground arith
returned (ok a) rest h = (a, refl, h)

-- `tuple(f(x) for x in xs)`, which stops at the first exception.
pub traverse {ℓ κ} : {A : Type ℓ} {B : Type κ} → (A → Result B) → List A → Result (List B)
traverse f [] = ok []
traverse f (x ∷ xs) = do y ← f x; ys ← traverse f xs; ok (y ∷ ys)

pub Result-cases {ℓ} :
    {A : Type ℓ} (r : Result A) → ((e : Error) × (r ≡ err e)) ⊎ ((a : A) × (r ≡ ok a))
Result-cases (ok a) = inr (a, refl)
Result-cases (err e) = inl (e, refl)
