-- ===== src/Bootstrap/Storage.antt =====
-- internal/infra/minio/minio.go: the two clients and Setup. The configurations that are read at the end are only
-- logged.
use ffgif.Base.{Bool, true, false, Text, codes}
use ffgif.Base.Int.{ℤ}
use ffgif.World.{Result}
use ffgif.Configuration.{Minio}
use ffgif.Bootstrap.Script.{
  Script, pure, ◌>>=◌, ◌>>◌, call, try_call, bucket_exists, make_bucket, get_bucket_notification,
  get_bucket_lifecycle, get_bucket_cors, set_bucket_notification, set_bucket_lifecycle, new_client,
  or_panic,
}

unfoldable pub new_minio : Minio → Script Bool
unfolding try_call
new_minio cnf =
    try_call (new_client cnf.endpoint cnf.root_user cnf.root_pass cnf.secure) >>= or_panic

unfoldable pub new_public_minio : Minio → Script Bool
unfolding try_call
new_public_minio cnf =
    try_call (new_client cnf.public_endpoint cnf.presigned_user cnf.presigned_pass cnf.secure)
    >>= or_panic

unfoldable pub make_unless : Text → Bool → Script Bool
unfolding call
make_unless name true = pure true
make_unless name false = call (make_bucket name)

unfoldable pub bucket_setup : Text → Script Bool
unfolding make_unless call
bucket_setup name = call (bucket_exists name) >>= make_unless name

-- The ARN arn:minio:sqs::1:amqp, and notification.ObjectCreatedAll
unfoldable pub bind_bucket : Text → Script Bool
unfolding call
bind_bucket bucket =
    call
      (set_bucket_notification bucket (codes "arn:minio:sqs::1:amqp") (codes "s3:ObjectCreated:*"))

unfoldable pub set_ttl_on_temp_bucket : Text → ℤ → Script Bool
unfolding call
set_ttl_on_temp_bucket bucket ttl =
    call (set_bucket_lifecycle bucket (codes "expire-temp-objects") ttl)

unfoldable pub log_configuration : Minio → Script (Result Bool)
unfolding try_call
log_configuration cnf =
    try_call (get_bucket_notification cnf.temp_bucket)
    >> try_call (get_bucket_lifecycle cnf.temp_bucket)
    >> try_call (get_bucket_cors cnf.temp_bucket)
    >> try_call (get_bucket_cors cnf.storage_bucket)

unfoldable pub setup : Minio → Script (Result Bool)
unfolding bucket_setup bind_bucket set_ttl_on_temp_bucket log_configuration
setup cnf =
    bucket_setup cnf.temp_bucket
    >> bucket_setup cnf.storage_bucket
    >> bind_bucket cnf.temp_bucket
    >> set_ttl_on_temp_bucket cnf.temp_bucket cnf.ttl
    >> log_configuration cnf
