-- ===== src/Orchestration/Worker/Process.antt =====
-- orchestration/worker.py: `run`, the life of the process. The Temporal client, boto3, the event loop
-- and the opening and closing of the HTTP client and the workers are parameters.
use docling_serve_ray.Prelude.{ℕ, List, [], ◌∷◌}
use docling_serve_ray.Text.{Text}
use docling_serve_ray.Http.{S3ClientOptions}
use docling_serve_ray.Facade.Backend.{Action, ◌>>◌}
use docling_serve_ray.Resources.{async_with, Tracks, Leaves, Leaves-bind, Leaves-async_with}
use docling_serve_ray.Orchestration.Models.{Settings}
use docling_serve_ray.Orchestration.Worker.{Worker, build_workers}

pub data Signal : Type 0 where
  sigint sigterm : Signal

-- What `async with` opens: the HTTP client, with its base URL and its timeout in seconds, and the
-- workers.
pub data Resource : Type 0 where
  http_client : Text → ℕ → Resource
  worker : Worker → Resource

pub record ProcessTools (W : Type 0) : Type 0 where
  pub connect : Text → Text → Action W (Unit {0})
  pub s3_client : S3ClientOptions → Action W (Unit {0})
  pub add_signal_handler : Signal → Action W (Unit {0})
  pub enter : Resource → Action W (Unit {0})
  pub exit : Resource → Action W (Unit {0})
  pub wait_shutdown : Action W (Unit {0})

abbrev pub http_of : Settings → Resource
http_of settings = http_client settings.docling_serve_url 60

module _ {W : Type 0} (tools : ProcessTools W) (settings : Settings) where
  -- `async with main, submit`
  unfoldable pub run_workers : Worker × Worker → Action W (Unit {0})
  unfolding async_with
  run_workers (main, submit) =
      async_with (tools.enter (worker main)) (tools.exit (worker main))
        (async_with (tools.enter (worker submit)) (tools.exit (worker submit)) tools.wait_shutdown)

  unfoldable pub run_process : Action W (Unit {0})
  unfolding run_workers async_with
  run_process = do
    tools.connect settings.temporal_address settings.temporal_namespace
    tools.s3_client (record {
      endpoint_url = settings.s3_endpoint_url;
      access_key = settings.s3_access_key;
      secret_key = settings.s3_secret_key;
    })
    tools.add_signal_handler sigint
    tools.add_signal_handler sigterm
    async_with (tools.enter (http_of settings)) (tools.exit (http_of settings))
        (run_workers (build_workers settings))

  module _ (open_of : W → List Resource) (tracks : Tracks tools.enter tools.exit open_of) where
    abbrev pub all_open : List Resource
    all_open =
        worker (build_workers settings).1
        ∷ worker (build_workers settings).0
        ∷ http_of settings
        ∷ []

    -- The process closes what it opens, in the reverse order: if it starts with nothing open, nothing
    -- is open when it ends, by a signal or by any exception on the way, even one of a connection or of
    -- the closing of a worker; the HTTP client is closed after both workers. It waits for the signal
    -- only with all three open: of that wait, no more is assumed than that it leaves those open.
    pub run_process-Leaves :
        ((address namespace : Text) → Leaves open_of [] (tools.connect address namespace))
        → ((options : S3ClientOptions) → Leaves open_of [] (tools.s3_client options))
        → ((s : Signal) → Leaves open_of [] (tools.add_signal_handler s))
        → Leaves open_of all_open tools.wait_shutdown
        → Leaves open_of [] run_process
    unfolding run_process run_workers
    run_process-Leaves connects s3 handles waits = Leaves-bind open_of [] _ _ (connects _ _) (λ _.
        Leaves-bind open_of [] _ _ (s3 _) (λ _. Leaves-bind open_of [] _ _ (handles sigint) (λ _.
          Leaves-bind open_of [] _ _ (handles sigterm) (λ _.
            Leaves-async_with open_of tools.enter tools.exit tracks (http_of settings) [] _ (
              Leaves-async_with open_of tools.enter tools.exit tracks
                (worker (build_workers settings).0) _ _
                (Leaves-async_with open_of tools.enter tools.exit tracks
                  (worker (build_workers settings).1) _ _ waits))))))
