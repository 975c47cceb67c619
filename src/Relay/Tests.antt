-- ===== src/Relay/Tests.antt =====
-- A callback for the workflow of "in/a.pdf", against a Temporal that keeps the signals it is sent.
use docling_serve_ray.Relay.Config.{load_config, value_or, probe}
use docling_serve_ray.Prelude.{
  ◌++◌, ℕ, ◌≡◌, ◌||◌, refl, arith, Option, none, some, List, [], ◌∷◌, ap, if◌then◌else◌,
}
use docling_serve_ray.Text.{Text, codes, str_eq, last_part, split_last, strip_end}
use docling_serve_ray.Dict.{lookup}
use docling_serve_ray.Http.{CallbackSpec}
use docling_serve_ray.Orchestration.Models.{
  TaskCompleted, success, failure, workflow_id_for_convert,
}
use docling_serve_ray.Orchestration.Client.{
  callback_specs, callback_token_header, utf8, utf8_char, quote, quote_bytes, quote_byte,
  is_unreserved, hex_digit, is_falsy,
}
use docling_serve_ray.Orchestration.Client.Laws.{unquote, hex_value}
use docling_serve_ray.Orchestration.Runtime.{
  timer_fired, checked, returned, signal, submitted, done,
}
use docling_serve_ray.Orchestration.Workflow.{run, start}
use docling_serve_ray.Orchestration.Workflow.Progress
use docling_serve_ray.Orchestration.Workflow.Progress.{ending}
use docling_serve_ray.Orchestration.Tests.{
  random, settings, document, one_quiet, good_ending, good_ending-IsGood,
}
use docling_serve_ray.Relay.{
  SignalArgument, ProgressCallback, CallbackRequest, Signaled, signaled, callback, handle,
  argument_of, has_terminal_status, answer,
}
use docling_serve_ray.Relay.Laws.{IsTerminal, IsAuthorised, callback-IsAuthorised, after_signal}
use docling_serve_ray.Relay.Delivered.{IsPosted, IsConverter, callback-run_called_back}

abbrev signal_workflow : List ℕ → Text → SignalArgument → List Text → Signaled × List Text
signal_workflow id name argument w = (signaled, argument.task_id ∷ w)

abbrev report : ProgressCallback
report = record {
  task_id = codes "t2";
  kind = codes "task_completed";
  task_status = codes "success";
  failure = none;
}

abbrev decode : List ℕ → Option ProgressCallback
decode body = some report

abbrev spec : CallbackSpec
spec = record {
  url = codes "http://relay:8080/v1/callbacks/convert%3Ain%2Fa.pdf";
  headers = (callback_token_header, codes "secret") ∷ [];
}

abbrev request : CallbackRequest
request = record { workflow_id = codes "convert:in/a.pdf"; token = codes "secret"; body = [] }

relay_tests : Unit {0}
unfolding callback handle argument_of has_terminal_status answer str_eq utf8 utf8_char
    callback_specs quote quote_bytes quote_byte is_unreserved hex_digit is_falsy strip_end
    workflow_id_for_convert unquote hex_value last_part split_last lookup
relay_tests = tt

abbrev convert : SignalArgument → Option TaskCompleted
convert a =
    let status = if str_eq a.task_status (codes "success") then success else failure in
    if str_eq a.task_status (codes "success") || str_eq a.task_status (codes "failure")
    then some
        (record { task_id = a.task_id; task_status = status; error_message = a.error_message })
    else none

convert-IsConverter : IsConverter convert
unfolding str_eq
convert-IsConverter = record { of_success = λ a h. rw h refl; of_failure = λ a h. rw h refl }

request-IsPosted : IsPosted spec request
unfolding relay_tests
request-IsPosted = record {
  path = refl;
  header = λ t h. let same : codes "secret" ≡ t = cc in ap utf8 same;
}

report-IsTerminal : IsTerminal report
unfolding relay_tests
report-IsTerminal = record { kind = refl; named = λ e. cc; status = refl }

callback-IsAuthorised_example : IsAuthorised signal_workflow decode (codes "secret") request []
unfolding relay_tests
callback-IsAuthorised_example =
    callback-IsAuthorised signal_workflow decode (codes "secret") request [] (λ e. cc)

callback-run_called_back_example :
    (callback signal_workflow decode (utf8 (codes "secret")) request []
      ≡ after_signal signal_workflow
          (utf8 (workflow_id_for_convert (codes "in") (codes "a.pdf")))
          report
          [])
    × (c : TaskCompleted) × (convert (argument_of report) ≡ some c)
    × ((run settings document (
          start random (
            submitted (returned (codes "t2"))
            ∷ timer_fired
            ∷ checked (returned none)
            ∷ signal c
            ∷ ending good_ending))).0
        ≡ done (Progress.answer (codes "t2") 1 good_ending))
unfolding relay_tests
callback-run_called_back_example =
    callback-run_called_back signal_workflow decode convert settings document random
      (codes "http://relay:8080/") spec request report [] one_quiet [] good_ending
      convert-IsConverter refl (λ e. cc) (omega arith) (λ e. cc) refl request-IsPosted refl
      report-IsTerminal refl (tt, tt) (omega arith) tt good_ending-IsGood

-- Only the token is set.
abbrev getenv : Text → Text
getenv key = if str_eq key (codes "RELAY_CALLBACK_TOKEN") then codes "secret" else []

config_of_token :
    load_config getenv
    ≡ some (record {
      listen_addr = codes ":8080";
      temporal_address = codes "localhost:7233";
      temporal_namespace = codes "default";
      callback_token = codes "secret";
    })
unfolding load_config value_or str_eq
config_of_token = refl

no_token_no_config : load_config (λ key. []) ≡ none
unfolding load_config
no_token_no_config = refl

abbrev ports : Text → Option (Text × Text)
ports address = some ([], codes "8080")

healthy :
    probe ports (λ host port. host ++ codes ":" ++ port) (λ url w. (some 204, url)) [] []
    ≡ (0, codes "http://127.0.0.1:8080/healthz")
unfolding probe
healthy = refl
