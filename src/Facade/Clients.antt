-- ===== src/Facade/Clients.antt =====
-- The clients the facade holds: facade/main.py's `lifespan`, which opens and closes those it keeps for
-- the application's whole life, and facade/dependencies.py's `s3_client`, which makes one for each
-- piece of work. Redis, httpx and aioboto3 are parameters, as is the serving itself.
pub mod Laws
use docling_serve_ray.Prelude.{ℕ, Bool, true, ◌++◌, if◌then◌else◌}
use docling_serve_ray.Text.{Text, codes}
use docling_serve_ray.Http.{S3ClientOptions}
use docling_serve_ray.Facade.Schemas.{Settings}
use docling_serve_ray.Facade.Backend.{Action, Backend, ◌>>◌}
use docling_serve_ray.Resources.{try_finally, async_with}

unfoldable pub s3_client : Settings → S3ClientOptions
s3_client settings = record {
  endpoint_url =
      (if settings.s3_verify_ssl then codes "https" else codes "http")
      ++ codes "://"
      ++ settings.s3_endpoint;
  access_key = settings.s3_access_key;
  secret_key = settings.s3_secret_key;
}

-- `async with open_s3_client(s3_session, settings) as s3_client: body`
unfoldable pub with_s3_client : {W A : Type 0} → Backend W → Settings → Action W A → Action W A
unfolding async_with s3_client
with_s3_client B settings body = async_with (B.open_s3 (s3_client settings)) B.close_s3 body

pub record LifespanTools (W : Type 0) : Type 0 where
  pub session : Action W (Unit {0})
  -- `Redis.from_url(url, decode_responses=...)`
  pub redis_from_url : Text → Bool → Action W (Unit {0})
  -- `httpx.AsyncClient(base_url=..., timeout=...)`, the timeout in seconds
  pub async_client : Text → ℕ → Action W (Unit {0})
  pub close_redis : Action W (Unit {0})
  pub close_client : Action W (Unit {0})

module _ {W : Type 0} (tools : LifespanTools W) where
  abbrev pub close_clients : Action W (Unit {0})
  close_clients = tools.close_redis >> tools.close_client

  -- `serve` is what runs at the `yield`.
  unfoldable pub lifespan : Settings → Action W (Unit {0}) → Action W (Unit {0})
  unfolding try_finally
  lifespan settings serve = do
    tools.session
    tools.redis_from_url settings.redis_url true
    tools.async_client settings.docling_serve_url 120
    try_finally serve close_clients
