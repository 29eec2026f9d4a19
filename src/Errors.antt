-- ===== src/Errors.antt =====
-- The error values that the components compare with errors.Is, their texts, and the monad of calls
-- that read and write shared state and may fail (internal/store/errors.go,
-- internal/domain/controlplane.go).
use lecrev.Prelude.{ℕ, String, Bool, true, false, ◌≡◌, ◌⊎◌, inl, inr, refl}
use Prim.Native.String.{◌++◌}
use lecrev.Prelude.Text.{quote, decimal}

pub data Error : Type 0 where
  -- fmt.Errorf("%w: project %q", store.ErrNotFound, id) and its kin: the entity and the key.
  not_found : String → String → Error
  -- store.ErrNotFound itself.
  nothing_found : Error
  -- fmt.Errorf("%w: idempotency record %s", store.ErrAlreadyExists, key) and its kin.
  already_exists : String → String → Error
  -- fmt.Errorf("%w: %q", artifact.ErrNotFound, key).
  object_not_found : String → Error
  access_denied idempotency_conflict idempotency_in_progress : Error
  function_version_not_ready direct_invoke_unavailable : Error
  -- domain.ErrProjectExecutionQuota with the project, its active jobs and the limit.
  project_execution_quota : String → ℕ → ℕ → Error
  -- domain.ErrProjectBuildQuota with the project, its active builds and the limit.
  project_build_quota : String → ℕ → ℕ → Error
  -- domain.ErrNoExecutionCapacity with what is printed behind it.
  no_execution_capacity : String → Error
  canceled deadline_exceeded : Error
  -- The error of pickHost in a region, which the coordinator knows by its text.
  no_active_hosts : String → Error
  -- domain.ErrBuildLogsNotReady, domain.ErrExecutionResultNotReady.
  build_logs_not_ready execution_result_not_ready : Error
  -- fmt.Errorf with %w: the text before the error, the error, and the text after it.
  wrapped : String → Error → String → Error
  -- Any error that no component tells apart, by its text.
  other : String → Error

-- errors.Is(err, store.ErrNotFound), and so for the others.
abbrev pub is_not_found : Error → Bool
is_not_found (not_found entity key) = true
is_not_found nothing_found = true
is_not_found (wrapped before e after) = is_not_found e
is_not_found _ = false

abbrev pub is_object_not_found : Error → Bool
is_object_not_found (object_not_found key) = true
is_object_not_found (wrapped before e after) = is_object_not_found e
is_object_not_found _ = false

abbrev pub is_already_exists : Error → Bool
is_already_exists (already_exists entity key) = true
is_already_exists (wrapped before e after) = is_already_exists e
is_already_exists _ = false

abbrev pub is_access_denied : Error → Bool
is_access_denied access_denied = true
is_access_denied (wrapped before e after) = is_access_denied e
is_access_denied _ = false

abbrev pub is_no_execution_capacity : Error → Bool
is_no_execution_capacity (no_execution_capacity detail) = true
is_no_execution_capacity (wrapped before e after) = is_no_execution_capacity e
is_no_execution_capacity _ = false

-- strings.Contains(err.Error(), "no active hosts available") on the errors of pickHost.
abbrev pub mentions_no_active_hosts : Error → Bool
mentions_no_active_hosts (no_active_hosts region) = true
mentions_no_active_hosts _ = false

abbrev pub is_context_error : Error → Bool
is_context_error canceled = true
is_context_error deadline_exceeded = true
is_context_error (wrapped before e after) = is_context_error e
is_context_error _ = false

-- err.Error().
unfoldable pub message : Error → String
message (not_found entity key) = "record not found: " ++ (entity ++ (" " ++ quote key))
message nothing_found = "record not found"
message (already_exists entity key) = "record already exists: " ++ (entity ++ (" " ++ key))
message (object_not_found key) = "artifact not found: " ++ quote key
message access_denied = "access denied"
message idempotency_conflict = "idempotency key reused with different request"
message idempotency_in_progress = "idempotent request already in progress"
message function_version_not_ready = "function version not ready"
message direct_invoke_unavailable = "direct invoke unavailable"
message (project_execution_quota project count limit) =
    "project execution quota exceeded: project "
    ++ (project
        ++ (" already has "
            ++ (decimal count ++ (" active execution jobs (limit " ++ (decimal limit ++ ")")))))
message (project_build_quota project count limit) =
    "project build quota exceeded: project "
    ++ (project
        ++ (" already has "
            ++ (decimal count ++ (" active build jobs (limit " ++ (decimal limit ++ ")")))))
message build_logs_not_ready = "build logs not ready"
message execution_result_not_ready = "execution result not ready"
message (wrapped before e after) = before ++ (message e ++ after)
message (no_execution_capacity detail) = "no execution capacity available: " ++ detail
message (no_active_hosts region) = "no active hosts available in region " ++ region
message canceled = "context canceled"
message deadline_exceeded = "context deadline exceeded"
message (other text) = text

pub data Result {ℓ} (A : Type ℓ) : Type ℓ where
  ok : A → Result A
  err : Error → Result A

-- A call on shared state: what it wrote before it failed stays written.
abbrev pub Exec {ℓ κ} : Type ℓ → Type κ → Type (ℓ ⊔ κ)
Exec S A = S → Result A × S

module _ {ℓ κ} {S : Type ℓ} {A : Type κ} where
  abbrev pub pure : A → Exec S A
  pure a s = (ok a, s)

  abbrev pub raise : Error → Exec S A
  raise e s = (err e, s)

  -- The call's outcome as a value: `x, err := f()` with the error not passed on.
  abbrev pub outcome : Exec S A → Exec S (Result A)
  outcome m s = let (r, s') = m s in (ok r, s')

  abbrev pub lift : Result A → Exec S A
  lift r s = (r, s)

module _ {ℓ κ ν} {S : Type ℓ} {A : Type κ} {B : Type ν} where
  abbrev pub continue : Result A → (A → Exec S B) → Exec S B
  continue (ok a) f s = f a s
  continue (err e) f s = (err e, s)

  infixl 10 ◌>>=◌ ◌>>◌
  abbrev pub ◌>>=◌ : Exec S A → (A → Exec S B) → Exec S B
  ◌>>=◌ m f s = continue (m s).0 f (m s).1

  abbrev pub ◌>>◌ : Exec S A → Exec S B → Exec S B
  m >> n = m >>= λ _. n

-- A sequence that succeeds has a first part that does, and whose value the second part takes up.
module _ {S A B : Type 0} where
  continue_ok :
      (r : Result A) (f : A → Exec S B) (s : S) {b : B} {s' : S}
      → continue r f s ≡ (ok b, s')
      → (a : A) × (r ≡ ok a) × (f a s ≡ (ok b, s'))
  continue_ok (ok a) f s e = (a, refl, e)
  continue_ok (err x) f s e = cc e

  pub bind_ok :
      (m : Exec S A) (f : A → Exec S B) (s : S) {b : B} {s' : S}
      → (m >>= f) s ≡ (ok b, s')
      → (a : A) × ((m s).0 ≡ ok a) × (f a (m s).1 ≡ (ok b, s'))
  bind_ok m f s e = continue_ok (m s).0 f (m s).1 e

pub Result-cases :
    {A : Type 0} (r : Result A) → ((e : Error) × (r ≡ err e)) ⊎ ((a : A) × (r ≡ ok a))
Result-cases (err e) = inl (e, refl)
Result-cases (ok a) = inr (a, refl)
