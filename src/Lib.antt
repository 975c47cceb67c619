-- ===== src/Lib.antt =====
-- docling-serve-ray: a facade in front of docling-serve and a Temporal orchestration of conversions.
--
-- The program
--   Two Python programs talk to docling-serve, a conversion service, over HTTP.
--   * The orchestration (src/orchestration) runs one durable workflow per document: it submits the
--     document, waits for a callback or a poll to report the task's end, submits again where
--     docling-serve lost the task, and collects the outputs from S3.
--   * The facade (src/facade) takes multipart uploads, stores the files in S3, submits their
--     coordinates, keeps a record of the task in Redis, and rebuilds docling-serve's inline answer
--     from the artifacts when the result is asked for.
--   A small relay in Go (src/callback_relay) takes docling-serve's callbacks and signals the workflow
--   that each one's URL names.
--
-- The shared modules
--   Prelude      library names passed on, Boolean tests and lists over the native numbers
--   Text         Python's str as a list of code points; Text.Suffix scans tables of suffixes
--   Dict         Python's dict with text keys, in insertion order
--   Result       a value or what was raised; Json: response.json() and the accesses to it
--   Http         requests, responses, the batch endpoint's body and the options of an S3 client
--   Resources    `async with` and `try: ... finally: ...`
--
-- Orchestration
--   Models       src/orchestration/models.py and config.py: dataclasses, constants, settings
--   Client       src/orchestration/docling_client.py: the request shapes; urllib's quote is written
--                out over UTF-8
--   Activities   src/orchestration/activities.py: submit_conversion, check_task, fetch_outcome,
--                collect_outputs, format_of, each a function of the HTTP client or S3 listing that
--                it calls
--   Runtime      what a workflow sees of Temporal: a history of events (signals, expired timers,
--                results of activities) that its commands consume, and random numbers
--   Workflow     src/orchestration/workflows.py: ConvertDocumentWorkflow. A workflow maps an instance
--                (the completed tasks, the poll count, the rest of the history, the random numbers
--                to come and the commands so far) to how it went on: done, failed, or blocked where the
--                history ends. Its children: Closed, Rules, Submissions, Limits, Fuel, Polls, Budget
--                (counts and bounds), Signals, Recorded, Completion, Evidence, Finish (what a result
--                rests on), Progress (histories that go well), Whole, Commands (what holds of each
--                command), Served (the commands against the workers), Paced (the timers and the retry
--                policies), Protocol (the order of the commands)
--   Worker       src/orchestration/worker.py: build_workers, and run in Worker.Process
--   Starter      src/orchestration/starter.py and dispatch.py, over a Temporal client as parameter
--
-- Relay
--   Relay        src/callback_relay/relay/relay.go: the handler of callbacks; Laws says when it signals
--                a workflow, Delivered follows a callback from its registration to the run's end
--   Config       src/callback_relay/main.go: its configuration and its health check
--
-- Facade
--   Schemas      src/facade/schemas.py and the settings of src/facade/dependencies.py
--   Options      build_convert_options of src/facade/utils.py, _parse_submission of main.py
--   Artifacts    the rest of src/facade/utils.py; an archive is the list of its entries
--   Backend      the calls of S3, Redis, docling-serve, pydantic and json as one record of operations
--                over an abstract state; coroutines are functions on that state that return or raise
--   Submit, Wait, Resolve
--                submit_file_upload, wait_for_completion, and resolve_result with
--                _cleanup_task_storage, all of src/facade/service.py. Of Resolve's children, Fetched
--                says which artifacts are read, Rebuilt what is made of them, Deleting and Cleaning
--                what a clean-up leaves, with the errors that S3 reports for single keys
--   Stores       the documented behaviour of Redis, of the object store and of pydantic that the
--                theorems on records and clean-ups assume; Sample has services that keep it
--   History      sequences of submissions, results and clean-ups, against a table of open tasks
--   Delivery     submission, waiting and resolution composed
--   Routes       the three handlers of src/facade/main.py
--   Clients      lifespan of src/facade/main.py, s3_client of src/facade/dependencies.py and the
--                `async with` that opens and closes it
--
-- Scripts
--   SendPdf      scripts/send_pdf.py, with tenacity's retrying as a parameter
--   ChunkChainSpike
--                scripts/chunk_chain_spike.py; what its prints raise is kept, what they show is not
--
-- Bounds
--   The workflow's two loops run on fuel: the loop of submissions has as many turns as there may be
--   submissions, though the code's own test is what ends it (run_within takes any other number); the
--   loop of polls has one turn more than the budget of polls, since every round but the last
--   passes the test of the budget. The bound on the turns of the facade's polling loop is an
--   argument; the longest wait in milliseconds is enough where each request takes at least one. The
--   chunking script's loop has no bound of its own: its turns are an argument, and any number larger
--   than that of the polls that find the task unfinished is enough. All other functions are
--   structural.
--
-- Left out
--   Detail texts and log lines; Temporal's retries, which are over when a result reaches the history
--   (the policies are part of the commands); the zip encoding, the JSON encoder and pydantic's
--   validation, which are operations of Backend. Floats of seconds are numbers of milliseconds, the
--   bounds of the random factors thousandths. Redis's own exceptions are no transport errors for the
--   facade, and `Raised` counts them as unexpected. The start and the stop of the servers of the
--   facade and of the relay (run of src/callback_relay/main.go) are not modelled. The patched
--   application of docling-serve is a copy of another project's: its answers are parameters.
pub mod Prelude
pub mod Text
pub mod Dict
pub mod Result
pub mod Json
pub mod Http
pub mod Resources
pub mod Orchestration
pub mod Facade
pub mod Relay
pub mod Scripts
