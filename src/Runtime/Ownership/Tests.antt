-- ===== src/Runtime/Ownership/Tests.antt =====
-- Two executors that take the same run, one after the other's lease has ended.
use jarvis_development.Prelude.{
  ℕ, ◌<◌, Bool, true, false, none, some, [], ◌∷◌, ◌≡◌, refl, String, arith, is_some,
}
use jarvis_development.Runtime.Store.{queued, completed, want_running, real, demo, Run, Store}
use jarvis_development.Runtime.Ownership.{RunFence, claim, admit, renew}
use jarvis_development.Runtime.Ownership.Steps.{done, claim_supersedes}
use jarvis_development.Runtime.Ownership.Selection.{Claimed, claim-Claimed}
use jarvis_development.Runtime.Ownership.Admission.{claim-admitted}

abbrev run_of : ℕ → ℕ → Run
run_of id priority = record {
  id = id;
  job_id = 1;
  run_number = 1;
  parent_run_id = none;
  workflow_version_id = 1;
  config_snapshot_id = 1;
  status = queued;
  desired_state = want_running;
  mode = real;
  priority = priority;
  claimable_at = 5;
  created_at = 5;
  version = 1;
  recovering = false;
  retry_at = none;
  instructions = [];
  demo_fixture = none;
}

abbrev before : Store
before = record {
  runs = run_of 7 100 ∷ run_of 8 110 ∷ record (run_of 9 190) { status = completed } ∷ [];
  leases = [];
  recovery = some (record { generation = 3; automatic_dispatch_enabled = true });
  instances =
      record { id = "a"; heartbeat_at = 0; draining = false }
      ∷ record { id = "b"; heartbeat_at = 0; draining = false }
      ∷ [];
}

abbrev unlocked : ℕ → Bool
unlocked id = false

abbrev fence_of : String → ℕ → RunFence
fence_of owner generation = record {
  run_id = 8;
  owner = owner;
  generation = generation;
  recovery_generation = 3;
}

abbrev after_a : Store
after_a = (claim "a" 30 (some 2) (some real) unlocked 10 10 before).1

abbrev after_b : Store
after_b = (claim "b" 30 (some 1) none unlocked 50 51 after_a).1

first_claim :
    claim "a" 30 (some 2) (some real) unlocked 10 10 before ≡ (some (fence_of "a" 1), after_a)
unfolding claim
first_claim = refl

second_claim : claim "b" 30 (some 1) none unlocked 50 51 after_a ≡ (some (fence_of "b" 2), after_b)
unfolding claim
second_claim = refl

demo_claim : claim "a" 30 none (some demo) unlocked 10 10 before ≡ (none, before)
unfolding claim
demo_claim = refl

at_capacity_claim : claim "b" 30 (some 1) none unlocked 20 20 after_a ≡ (none, after_a)
unfolding claim
at_capacity_claim = refl

renewed : is_some (renew (fence_of "a" 1) 30 39 39 39 39 after_a) ≡ true
unfolding renew claim
renewed = refl

renewed_late : is_some (renew (fence_of "a" 1) 30 40 40 40 40 after_a) ≡ false
unfolding renew claim
renewed_late = refl

claim_supersedes_example : (1 < 2) × (admit (fence_of "a" 1) 60 after_b ≡ none)
claim_supersedes_example =
    claim_supersedes "a" "b" 30 30 (some 2) (some 1) (some real) none unlocked unlocked 10 10 50 51
      60 before tt (omega arith) (omega arith) first_claim (done refl) second_claim refl (done refl)

claim-Claimed_example : Claimed (some 2) (some real) unlocked 10 before (fence_of "a" 1)
claim-Claimed_example = claim-Claimed "a" 30 (some 2) (some real) unlocked 10 10 before first_claim

claim-admitted_example : is_some (admit (fence_of "b" 2) 80 after_b) ≡ true
claim-admitted_example =
    claim-admitted "b" 30 (some 1) none unlocked 50 51 80 after_a (omega arith) second_claim
      (omega arith)
