-- ===== src/Orchestration/Tests.antt =====
-- Runs of the orchestration at concrete inputs, and the theorems applied to them.
use docling_serve_ray.Prelude.{
  Option, arith, ◌≤◌, ◌*◌, max, ◌≡◌, ◌≢◌, refl, true, false, none, some, List, [], ◌∷◌,
}
use docling_serve_ray.Text.{Text, codes, str_eq}
use docling_serve_ray.Text.Laws.{str_eq_iff}
use docling_serve_ray.Dict.{lookup, insert, has_key, set_default}
use docling_serve_ray.Orchestration.Models.{
  task_lost, success, failure, Settings, ConvertInput, ConvertResult, TaskCompleted, TaskOutcome,
  CollectedOutputs, default_to_formats,
}
use docling_serve_ray.Orchestration.Runtime.{
  returned, raised, application, Random, ActivityResult, Event, Instance, signal, timer_fired,
  submitted, checked, fetched, collected, done, out_of_fuel, ◌>>=◌ as then_do, pure, raise,
  task_completed, execute_activity, wait_condition,
}
use docling_serve_ray.Orchestration.Workflow.{
  run_within, run, start, submit_loop, submit, await_task, wait_until_terminal, wait_loop,
  completed_of, try_except, resubmit, sleep_until, next_sleep, count_poll, check, after_poll,
  finish, fetch, after_outcome, collect, deliver, polls_made, is_task_lost, produced_nothing,
  exhausted,
}
use docling_serve_ray.Orchestration.Workflow.Submissions.{count_submits}
use docling_serve_ray.Orchestration.Workflow.Limits.{run-submits-le, run-submissions}
use docling_serve_ray.Orchestration.Workflow.Polls.{count_checks}
use docling_serve_ray.Orchestration.Workflow.Budget.{run-checks-le, run-safety_polls}
use docling_serve_ray.Orchestration.Workflow.Whole.{run-first_wins}
use docling_serve_ray.Orchestration.Workflow.Progress.{IsGood, Ending, ending, answer}
use docling_serve_ray.Orchestration.Workflow.Progress.Returned.{run_called_back, run_polled}
use docling_serve_ray.Orchestration.Workflow.Fuel.{run-ne-out_of_fuel}
use docling_serve_ray.Orchestration.Workflow.Evidence.{IsBacked, run-IsBacked}

abbrev pub settings : Settings
settings = record {
  temporal_address = codes "localhost:7233";
  temporal_namespace = codes "default";
  max_concurrent_activities = 16;
  docling_serve_url = codes "http://localhost:5001";
  tenant_id = none;
  tenant_id_header = codes "X-Tenant-Id";
  callback_base_url = some (codes "http://relay:8080/");
  callback_token = codes "secret";
  s3_endpoint = codes "minio:9000";
  s3_verify_ssl = false;
  s3_endpoint_url = codes "http://localhost:9000";
  s3_access_key = codes "minioadmin";
  s3_secret_key = codes "minioadmin123";
  output_bucket = codes "docling-output";
  output_prefix = codes "temporal/";
  submit_conversion_start_to_close_seconds = 120;
  check_task_start_to_close_seconds = 120;
  fetch_outcome_start_to_close_seconds = 120;
  collect_outputs_start_to_close_seconds = 300;
}

abbrev pub document : ConvertInput
document = record {
  bucket = codes "in";
  key = codes "a.pdf";
  to_formats = default_to_formats;
  options = [];
  safety_poll_interval_seconds = 300;
  max_safety_polls = 2;
}

abbrev pub succeeded : Text → TaskCompleted
succeeded id = record { task_id = id; task_status = success; error_message = none }

abbrev one_output : CollectedOutputs
one_output = record {
  bucket = codes "docling-output";
  outputs = (codes "json", codes "a.json" ∷ []) ∷ [];
}

abbrev one_success : TaskOutcome
one_success = record {
  task_id = codes "t2";
  num_succeeded = some 1;
  num_partially_succeeded = none;
  num_failed = some 0;
}

-- The first task is lost after a poll that found it in progress; its late callback changes nothing,
-- and the second task calls back.
abbrev pub lost_then_done : List Event
lost_then_done =
    submitted (returned (codes "t1"))
    ∷ timer_fired
    ∷ checked (returned none)
    ∷ timer_fired
    ∷ checked (raised (application task_lost))
    ∷ signal (succeeded (codes "t1"))
    ∷ submitted (returned (codes "t2"))
    ∷ signal (succeeded (codes "t2"))
    ∷ fetched (returned one_success)
    ∷ collected (returned one_output)
    ∷ []

-- Every random number is its lower bound.
abbrev pub random : Random
random n a b = a

abbrev second_task : ConvertResult
second_task = record {
  task_id = codes "t2";
  outputs = one_output.outputs;
  output_bucket = one_output.bucket;
  submissions = 2;
  safety_polls = 2;
}

run_tests : Unit {0}
unfolding run submit_loop submit await_task wait_until_terminal wait_loop completed_of try_except
    resubmit sleep_until next_sleep count_poll check after_poll finish fetch after_outcome collect
    deliver polls_made is_task_lost produced_nothing exhausted start then_do pure raise
    task_completed execute_activity wait_condition set_default insert has_key lookup str_eq
run_tests = tt

lost_then_done_returns : (run settings document (start random lost_then_done)).0 ≡ done second_task
unfolding run_tests
lost_then_done_returns = refl

run-IsBacked_example : IsBacked lost_then_done second_task
run-IsBacked_example =
    run-IsBacked settings document random lost_then_done second_task lost_then_done_returns

run-submits-le_example :
    count_submits (run_within settings 9 document (start random lost_then_done)).1.commands ≤ 4
run-submits-le_example = run-submits-le settings document random lost_then_done 9

run-submissions_example :
    2 ≡ count_submits (run settings document (start random lost_then_done)).1.commands
run-submissions_example =
    run-submissions settings document random lost_then_done second_task lost_then_done_returns

run-ne-out_of_fuel_example : (run settings document (start random lost_then_done)).0 ≢ out_of_fuel
run-ne-out_of_fuel_example = run-ne-out_of_fuel settings document (start random lost_then_done)

run-checks-le_example :
    count_checks (run settings document (start random lost_then_done)).1.commands
    ≤ 4 * max 1 document.max_safety_polls
run-checks-le_example = run-checks-le settings document random lost_then_done

run-safety_polls_example :
    2 ≡ count_checks (run settings document (start random lost_then_done)).1.commands
run-safety_polls_example =
    run-safety_polls settings document random lost_then_done second_task lost_then_done_returns

-- An instance that has recorded the failure of "t1" when the history reports its success.
abbrev t1_failed : TaskCompleted
t1_failed = record { task_id = codes "t1"; task_status = failure; error_message = none }

abbrev after_t1 : Instance
after_t1 = record {
  completed = (codes "t1", t1_failed) ∷ [];
  safety_polls = 0;
  history = lost_then_done;
  random = random;
  commands = [];
}

run-first_wins_example :
    lookup (codes "t1") (run settings document after_t1).1.completed ≡ some t1_failed
unfolding run_tests
run-first_wins_example = run-first_wins settings document after_t1 (codes "t1") t1_failed refl

-- A poll that finds the task in progress.
abbrev pub one_quiet : List (ActivityResult (Option TaskCompleted))
one_quiet = returned none ∷ []

abbrev pub good_ending : Ending
good_ending = record {
  before_outcome = succeeded (codes "t2") ∷ [];
  outcome = one_success;
  before_outputs = [];
  found = one_output;
  rest = [];
}

pub good_ending-IsGood : IsGood good_ending
unfolding run_tests
good_ending-IsGood = (refl, refl)

t1_ne_t2 : codes "t1" ≢ codes "t2"
unfolding run_tests
t1_ne_t2 e = let same : false ≡ true = (str_eq_iff (codes "t1") (codes "t2")).1 e in cc

run_called_back_example :
    (run settings document (
      start random (
        submitted (returned (codes "t2"))
        ∷ timer_fired
        ∷ checked (returned none)
        ∷ signal (succeeded (codes "t1"))
        ∷ signal (succeeded (codes "t2"))
        ∷ ending good_ending))).0
    ≡ done (answer (codes "t2") 1 good_ending)
run_called_back_example =
    run_called_back settings document (codes "t2") random one_quiet (succeeded (codes "t2"))
      good_ending (succeeded (codes "t1") ∷ []) (tt, tt) (omega arith) (t1_ne_t2, tt) refl refl
      good_ending-IsGood

run_polled_example :
    (run settings document (
      start random (
        submitted (returned (codes "t2"))
        ∷ timer_fired
        ∷ checked (returned none)
        ∷ timer_fired
        ∷ checked (returned (some (succeeded (codes "t2"))))
        ∷ ending good_ending))).0
    ≡ done (answer (codes "t2") 2 good_ending)
run_polled_example =
    run_polled settings document (codes "t2") random one_quiet (succeeded (codes "t2")) good_ending
      (tt, tt) (omega arith) refl good_ending-IsGood
