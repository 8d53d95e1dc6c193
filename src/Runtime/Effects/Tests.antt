-- ===== src/Runtime/Effects/Tests.antt =====
-- An effect of run 8 that is dispatched by one executor and found again after a crash.
use jarvis_development.Prelude.{
  ℕ, ◌≤◌, true, false, Option, none, some, [], ◌∷◌, ◌≡◌, refl, String, nat_eq, string_eq,
}
use jarvis_development.Runtime.Store.{running, want_running, real, Run, Store}
use jarvis_development.Runtime.Ownership.{RunFence, admit}
use jarvis_development.Runtime.Ownership.Leases.{IsOrdered}
use jarvis_development.Runtime.Effects.{
  EffectStatus, dispatched, succeeded, Effect, World, guarded, Request, no_route, ready, recorded,
  open_effect, record_effect,
}
use jarvis_development.Runtime.Effects.Protocol.{
  Observation, Plan, plan_of, here, next, opens, intends, dispatches, crashes, watching,
}
use jarvis_development.Runtime.Effects.AtMostOnce.{at_most_once}
use jarvis_development.Runtime.Effects.Outcomes.{record_effect-opens, outcome}
use jarvis_development.Runtime.Effects.Settled.{unchanged, follows}

abbrev run_8 : Run
run_8 = record {
  id = 8;
  job_id = 1;
  run_number = 1;
  parent_run_id = none;
  workflow_version_id = 1;
  config_snapshot_id = 1;
  status = running;
  desired_state = want_running;
  mode = real;
  priority = 100;
  claimable_at = 5;
  created_at = 5;
  version = 1;
  recovering = false;
  retry_at = none;
  instructions = 3 ∷ [];
  demo_fixture = none;
}

abbrev queue : Store
queue = record {
  runs = run_8 ∷ [];
  leases =
      record {
        run_id = 8;
        owner = "b";
        generation = 2;
        acquired_at = 10;
        heartbeat_at = none;
        expires_at = 90;
        released_at = none;
      }
      ∷ [];
  recovery = some (record { generation = 3; automatic_dispatch_enabled = true });
  instances = [];
}

abbrev fence : RunFence
fence = record { run_id = 8; owner = "b"; generation = 2; recovery_generation = 3 }

abbrev request : Request
request = record { digest = "work"; takes_instructions = true; selection = no_route }

abbrev row : Effect
row = record {
  request_digest = "work";
  status = EffectStatus.prepared;
  fence_generation = 2;
  instructions = 3 ∷ [];
  model = none;
  external_id = none;
  result = none;
  dispatched_at = none;
  completed_at = none;
}

abbrev sent : Effect
sent = record row { status = dispatched; external_id = some "8:x"; dispatched_at = some 21 }

abbrev taken : Store
taken = record queue { runs = record run_8 { instructions = [] } ∷ [] }

abbrev world_of : Effect → World
world_of effect = record { store = taken; effect = some effect }

opens_first :
    guarded fence 20 20 (open_effect request 2) (record { store = queue; effect = none })
    ≡ some (world_of row, ready false)
unfolding guarded open_effect admit
opens_first = refl

intends_it :
    guarded fence 21 21 (record_effect dispatched (some "8:x") none 21) (world_of row)
    ≡ some (world_of sent, false)
unfolding guarded record_effect admit
intends_it = refl

-- After the crash, the row tells that it may have been dispatched.
opens_again :
    guarded fence 30 30 (open_effect request 2) (world_of sent) ≡ some (world_of sent, ready true)
unfolding guarded open_effect admit
opens_again = refl

ordered : IsOrdered queue.leases
ordered = (tt, tt)

abbrev won : Effect
won = record sent { status = succeeded; result = some "done"; completed_at = some 40 }

records_it :
    guarded fence 40 40 (record_effect succeeded none (some "done") 40) (world_of sent)
    ≡ some (world_of won, false)
unfolding guarded record_effect admit
records_it = refl

-- The node is executed again.
opens_won :
    guarded fence 45 45 (open_effect request 2) (world_of won)
    ≡ some (world_of won, recorded (some "done"))
unfolding guarded open_effect admit
opens_won = refl

abbrev accept : String → Option String
accept result = some result

intend_plan : plan_of false false Observation.absent ≡ Plan.intend
unfolding plan_of
intend_plan = refl

at_most_once_example : 1 ≤ 1
at_most_once_example = at_most_once 8 "8:x" accept {store = queue} ordered (
    next
      (next
        (next
          (next (next here (opens fence 20 20 request (ready false) refl refl opens_first))
            (intends fence false Observation.absent 21 21 21 false refl intend_plan intends_it))
          (dispatches fence refl))
        (crashes 2))
      (opens fence 30 30 request (ready true) refl refl opens_again))

record_effect-opens_example :
    (found : Effect) × (some won ≡ some found)
    × (some won ≡ some found)
    × ((asked : Request) (generation : ℕ) (other : Run)
        → found.request_digest ≡ asked.digest
        → open_effect asked generation other (world_of won)
          ≡ some (world_of won, outcome false "done"))
record_effect-opens_example =
    record_effect-opens 8 "8:x" false accept {w = record { store = queue; effect = none }} fence
      watching 40 40 40 "done" {turned = false} ordered
      (next
        (next (next here (opens fence 20 20 request (ready false) refl refl opens_first))
          (intends fence false Observation.absent 21 21 21 false refl intend_plan intends_it))
        (dispatches fence refl))
      refl records_it
      (follows unchanged (opens fence 45 45 request (recorded (some "done")) refl refl opens_won)
        refl)
