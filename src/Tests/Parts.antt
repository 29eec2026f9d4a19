-- ===== src/Tests/Parts.antt =====
-- The theorems of the recovery, the regions, the secrets and the network pool at concrete inputs.
use lecrev.Prelude.{
  ◌+◌, ◌≤◌, ◌%◌, ◌^◌, ◌-◌, String, ◌≡◌, refl, Bool, true, false, none, some, List, [], ◌∷◌,
  contains, str_eq, leb, arith, if◌then◌else◌,
}
use lecrev.Prelude.Text.{trim_space}
use lecrev.Prelude.Int.{pos}
use lecrev.Maps.{Assoc, get, put}
use lecrev.Errors.{ok, Result, pure}
use lecrev.Domain.{Attempt, ExecutionJob, JobState, FunctionVersion, Host}
use lecrev.Store.Backend.{memory}
use lecrev.Scheduler.Dispatch.{new_attempt}
use lecrev.Scheduler.Admission.{retry_execution}
use lecrev.Scheduler.Admission.Quota.{with_memory}
use lecrev.Recovery.{recover_attempt, expired_attempt}
use lecrev.Recovery.Expiry.{recover-expired}
use lecrev.Regions.{normalize_execution_regions}
use lecrev.Secrets.{ExecutionRequest, normalize_secret_refs, resolve_execution, all_granted}
use lecrev.Secrets.Scope.{resolve_execution-scoped}
use lecrev.Network.Pool.{
  NetworkConfig, NetworkLease, NetworkPool, acquire_next_locked, release_lease, used,
}
use lecrev.Network.Pool.Acquire.{release_lease_once}
use lecrev.Network.Subnets.{exceeds_network, subnet_base, u32}
use lecrev.Network.Subnets.Carve.{subnets_disjoint}
use lecrev.Tests.Data.{World0, busy, host, job, svc, version, world}

abbrev open_attempt : Attempt
open_attempt = new_attempt (job "c" JobState.running 100) version "r" "a2" 400

abbrev leased : World0
leased = record world { store = record busy { attempts = ("a2", open_attempt) ∷ [] } }

leased_job : get leased.store.execution_jobs "c" ≡ some (job "c" JobState.running 100)
unfolding get
leased_job = refl

leased_attempt : get leased.store.attempts "a2" ≡ some open_attempt
unfolding get
leased_attempt = refl

recover-expired_example :
    let r =
      recover_attempt memory
        (λ id. retry_execution (with_memory svc) id 40000000001)
        open_attempt
        40000000000
        40000000001
        leased in
    (r.0 ≡ ok tt)
    × (get r.1.store.attempts "a2" ≡ some (expired_attempt open_attempt 40000000000))
    × ((after : ExecutionJob) × (get r.1.store.execution_jobs "c" ≡ some after)
        × (after.state ≡ (if leb 0 2 then JobState.retrying else JobState.failed))
        × (after.attempt_count ≡ 0))
recover-expired_example =
    recover-expired svc open_attempt open_attempt (job "c" JobState.running 100) 40000000000
      40000000001 leased leased_job refl leased_attempt refl refl

abbrev asked : List String
asked = " ap-south-2 " ∷ "ap-south-1" ∷ "ap-south-2" ∷ []

abbrev two_regions : List String
two_regions = "ap-south-2" ∷ "ap-south-1" ∷ []

normalizes : normalize_execution_regions asked ≡ ok two_regions
unfolding normalize_execution_regions trim_space
normalizes = refl

abbrev request : ExecutionRequest
request = record {
  host_id = "h1";
  region = "ap-south-1";
  function_version_id = "fv";
  secret_refs = "db" ∷ [];
}

abbrev with_secret : FunctionVersion
with_secret = record version { env_refs = "db" ∷ [] }

abbrev guarded : World0
guarded = record world {
  store = record busy {
    functions = ("fv", with_secret) ∷ [];
    hosts = ("h1", host "h1" (pos 1)) ∷ [];
  };
}

abbrev provider : List String → World0 → Result (Assoc String) × World0
provider refs = pure (("db", "s3cret") ∷ [])

asks_one : normalize_secret_refs request.secret_refs ≡ "db" ∷ []
unfolding normalize_secret_refs trim_space
asks_one = refl

resolves : resolve_execution memory provider request guarded ≡ (ok (("db", "s3cret") ∷ []), guarded)
unfolding resolve_execution trim_space memory get
resolves = refl

resolve_execution-scoped_example :
    let host_answer = memory.get_host "h1" guarded in
    let version_answer = memory.get_function_version "fv" host_answer.1 in
    (h : Host) × (v : FunctionVersion) × (host_answer.0 ≡ ok h)
    × (h.region ≡ "ap-south-1")
    × (version_answer.0 ≡ ok v)
    × (contains v.regions "ap-south-1" ≡ true)
    × (all_granted v.env_refs ("db" ∷ []) ≡ true)
    × (provider ("db" ∷ []) version_answer.1 ≡ (ok (("db", "s3cret") ∷ []), guarded))
resolve_execution-scoped_example =
    resolve_execution-scoped memory provider request guarded "db" [] asks_one resolves

abbrev tap : String → NetworkConfig
tap device = record {
  tap_device = device;
  guest_mac = "";
  guest_ip = "10.0.0.2";
  gateway_ip = "10.0.0.1";
  netmask = "255.255.255.252";
}

abbrev two_taps : Bool → NetworkPool
two_taps second = record {
  order = "tap0" ∷ "tap1" ∷ [];
  cfgs = ("tap0", tap "tap0") ∷ ("tap1", tap "tap1") ∷ [];
  in_use = ("tap0", true) ∷ ("tap1", second) ∷ [];
  next = 0;
}

abbrev second_taken : NetworkPool
second_taken = record (two_taps true) { next = 0 }

acquires : acquire_next_locked (two_taps false) ≡ some (tap "tap1", second_taken)
unfolding acquire_next_locked get put
acquires = refl

exhausted : acquire_next_locked (two_taps true) ≡ none
unfolding acquire_next_locked get
exhausted = refl

abbrev lease : NetworkLease
lease = record { cfg = tap "tap1"; released = false }

holds_tap1 : get (two_taps true).in_use (trim_space "tap1") ≡ some true
unfolding get trim_space
holds_tap1 = refl

names_tap1 : str_eq (trim_space "tap1") "" ≡ false
unfolding trim_space
names_tap1 = refl

release_lease_once_example :
    let (released, pool') = release_lease lease (two_taps true) in
    (used pool'.in_use "tap0"
      ≡ (if str_eq (trim_space "tap1") "tap0" then false else used (two_taps true).in_use "tap0"))
    × (release_lease released (two_taps false) ≡ (released, two_taps false))
release_lease_once_example =
    release_lease_once lease (two_taps true) (two_taps false) "tap0" true refl names_tap1 holds_tap1

sixty_four_fit : exceeds_network 64 4 24 ≡ false
unfolding exceeds_network
sixty_four_fit = refl

subnets_disjoint_example :
    (subnet_base 167772160 4 3 + 4 ≤ subnet_base 167772160 4 5)
    × (subnet_base 167772160 4 5 + 4 ≤ 167772160 + 2 ^ (32 - 24) % u32)
subnets_disjoint_example =
    subnets_disjoint 167772160 4 24 64 3 5 sixty_four_fit (omega arith) (omega arith) (omega arith)
      (omega arith) (omega arith)
