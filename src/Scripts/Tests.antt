-- ===== src/Scripts/Tests.antt =====
-- The scripts against a small service: every call adds 1 to a counter, and the task ends on the
-- second poll.
use docling_serve_ray.Prelude.{
  ℕ, suc, ◌≡◌, refl, arith, inl, true, false, none, some, List, [], ◌∷◌, if◌then◌else◌, ltb,
}
use docling_serve_ray.Text.{Text, codes, str_eq, starts_with}
use docling_serve_ray.Dict.{contains}
use docling_serve_ray.Result.{ok}
use docling_serve_ray.Json
use docling_serve_ray.Json.{Json, end, field, obj, arr, nil, cons}
use docling_serve_ray.Http.{Response}
use docling_serve_ray.Scripts.SendPdf.{not_terminal}
use docling_serve_ray.Scripts.SendPdf.{Tools}
use docling_serve_ray.Scripts.ChunkChainSpike.{
  SpikeTools, main, chunk_body, out_prefix, rsplit_head, before_last, poll_until, judge_ended,
  result_of, judge, verdict, only_success, get_each, error_messages, elements,
}
use docling_serve_ray.Scripts.ChunkChainSpike.Laws.{IsRun, main-IsRun}
use docling_serve_ray.Scripts.ChunkChainSpike.Polling.{Reaches, now, later, poll_until-Reaches}

abbrev reply : Json → Response
reply j = record {
  status_code = 200;
  is_error = false;
  is_server_error = false;
  content = [];
  content_type = none;
  json = some j;
}

abbrev status : Text → Json
status s = obj (field (codes "task_status") (Json.str s) end)

abbrev chunked : Json
chunked = obj (
    field (codes "documents")
      (arr (cons (obj (field (codes "status") (Json.str (codes "success")) end)) nil))
      (field (codes "chunks") (arr (cons (Json.str (codes "text")) nil)) end))

-- By the number of calls so far: the submission, two polls, and the result.
abbrev reply_at : ℕ → Json
reply_at n =
    if ltb n 2
    then status (codes "started")
    else if ltb n 3
    then status (codes "success")
    else chunked

abbrev tools : SpikeTools ℕ
tools = record {
  presigned_url = λ bucket key seconds. codes "http://minio:9000/signed";
  post =
      λ path body n. (ok (reply (obj (field (codes "task_id") (Json.str (codes "t")) end))), suc n);
  get = λ path wait n. (ok (reply (reply_at n)), suc n);
  is_success = λ r. true;
  chunked_result = λ r. none;
  list_objects = λ bucket prefix n. (ok [], suc n);
}

abbrev argv : List Text
argv = codes "spike.py" ∷ codes "temporal/in/a.pdf/convert/7/a.json" ∷ []

spike_tests : Unit {0}
unfolding main chunk_body out_prefix rsplit_head before_last poll_until judge_ended result_of judge
    verdict only_success get_each error_messages elements not_terminal str_eq starts_with contains
    Json.index Json.get Json.find_field Json.as_text
spike_tests = tt

prefix_of_key :
    out_prefix (codes "temporal/in/a.pdf/convert/7/a.json") ≡ codes "temporal/in/a.pdf/chunk/spike/"
unfolding spike_tests
prefix_of_key = refl

main_zero : main tools 5 argv 0 ≡ (ok (some 0), 5)
unfolding spike_tests
main_zero = refl

main-IsRun_example : IsRun tools 5 (codes "temporal/in/a.pdf/convert/7/a.json") 0
unfolding spike_tests
main-IsRun_example =
    main-IsRun tools 5 (codes "spike.py") (codes "temporal/in/a.pdf/convert/7/a.json") [] 0 5 refl
      main_zero

abbrev task : Text
task = codes "t"

-- One poll finds the task unfinished, the next one finds it finished.
reached : Reaches tools task 1 1 (Json.str (codes "success")) 3
unfolding spike_tests
reached =
    later 0 1 2 3 (reply (status (codes "started"))) (status (codes "started"))
      (Json.str (codes "success")) (codes "started") refl refl refl (λ e. ground (arith, e))
      (λ e. ground (arith, e))
      (now 2 3 (reply (status (codes "success"))) (status (codes "success"))
        (Json.str (codes "success")) refl refl refl (inl refl))

poll_until-Reaches_example : poll_until tools 5 task 1 ≡ (ok (some (Json.str (codes "success"))), 3)
poll_until-Reaches_example =
    poll_until-Reaches tools task 1 5 1 3 (Json.str (codes "success")) reached (omega arith)

-- A directory with two PDFs, and answers by the number of calls so far: two uploads, the submission,
-- one poll, and the result.
abbrev batch_reply_at : ℕ → Json
batch_reply_at n =
    if ltb n 3
    then obj (
        field (codes "task_id") (Json.str (codes "t"))
          (field (codes "task_status") (Json.str (codes "pending")) end))
    else if ltb n 4
    then status (codes "success")
    else chunked

abbrev batch_tools : Tools ℕ
batch_tools = record {
  is_dir = λ n. true;
  pdf_names = λ n. codes "a.pdf" ∷ codes "b.pdf" ∷ [];
  upload_file = λ name bucket key n. (ok tt, suc n);
  list_output = λ bucket prefix n. (ok [], suc n);
  send = λ request n. (ok (reply (batch_reply_at n)), suc n);
  is_success = λ r. true;
  retry_while = λ test action. action;
}
