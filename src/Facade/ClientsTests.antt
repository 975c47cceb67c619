-- ===== src/Facade/ClientsTests.antt =====
-- The life of the facade: what is open when it ends, and the S3 client's endpoint.
use docling_serve_ray.Prelude.{◌≡◌, refl, Bool, true, false}
use docling_serve_ray.Result.{ok, err}
use docling_serve_ray.Text.{codes}
use docling_serve_ray.Facade.Backend.{Action, unexpected}
use docling_serve_ray.Facade.Clients.{s3_client, LifespanTools, lifespan}
use docling_serve_ray.Facade.Sample.Settings.{settings}
use docling_serve_ray.Resources.{try_finally}

-- Whether the connections to Redis and to docling-serve are open.
pub record World : Type 0 where
  pub redis : Bool
  pub client : Bool

abbrev idle : Action World (Unit {0})
idle w = (ok tt, w)

abbrev tools : Action World (Unit {0}) → LifespanTools World
tools close_redis = record {
  session = idle;
  redis_from_url = λ url decoded w. (ok tt, record { redis = true; client = w.client });
  async_client = λ url timeout w. (ok tt, record { redis = w.redis; client = true });
  close_redis = close_redis;
  close_client = λ w. (ok tt, record { redis = w.redis; client = false });
}

abbrev close_redis : Action World (Unit {0})
close_redis w = (ok tt, record { redis = false; client = w.client })

abbrev fail_to_close : Action World (Unit {0})
fail_to_close w = (err unexpected, record { redis = false; client = w.client })

abbrev closed : World
closed = record { redis = false; client = false }

-- Serving that ends with an exception: both are closed.
lifespan_closes :
    lifespan (tools close_redis) settings (λ w. (err unexpected, w)) closed
    ≡ (err unexpected, closed)
unfolding lifespan try_finally
lifespan_closes = refl

-- Where closing the connection to Redis raises, the client of docling-serve is not closed.
lifespan_leaves_client :
    lifespan (tools fail_to_close) settings idle closed
    ≡ (err unexpected, record { redis = false; client = true })
unfolding lifespan try_finally
lifespan_leaves_client = refl

endpoint_without_ssl : (s3_client settings).endpoint_url ≡ codes "http://minio:9000"
unfolding s3_client
endpoint_without_ssl = refl
