-- ===== src/Facade/Sample/Settings.antt =====
-- The settings of the tests.
use docling_serve_ray.Prelude.{false}
use docling_serve_ray.Text.{codes}
use docling_serve_ray.Facade.Schemas.{Settings}

abbrev pub settings : Settings
settings = record {
  docling_serve_url = codes "http://docling-serve:5001";
  redis_url = codes "redis://redis:6379/1";
  record_ttl_seconds = 604800;
  s3_endpoint = codes "minio:9000";
  s3_verify_ssl = false;
  s3_access_key = codes "k";
  s3_secret_key = codes "s";
  s3_input_bucket = codes "docling-input";
  s3_output_bucket = codes "docling-output";
  s3_input_prefix = codes "in/";
  s3_output_prefix = codes "out/";
  tenant_id_header = codes "X-Tenant-Id";
  sync_poll_interval = 2;
  max_sync_wait = 5;
}
