-- ===== src/K6Output/Params/Provided.antt =====
-- exporterConfig of k6output/params.go and buildPipelineConfig of k6output/output.go: the keys that
-- were given override the environment.
use xk6_otel_gen.Prelude.{String, true, false, none, if◌then◌else◌}
use xk6_otel_gen.Prelude.Int.{pos}
use xk6_otel_gen.Topology.Float.{Float64}
use xk6_otel_gen.Exporter.Config.{Config, OtlpProtocol, zero_config}
use xk6_otel_gen.K6Output.Params.{Params, was_provided}

module _ (fl : Float64) (p : Params) where
  open fl use {F}

  -- if p.wasProvided(key) { c = value }, where c was `unset`
  abbrev given {ℓ} : {A : Type ℓ} → String → A → A → A
  unfolding was_provided
  given key value unset = if was_provided p.provided key then value else unset

  unfoldable pub exporter_config : Config F
  unfolding was_provided
  exporter_config = record (zero_config fl) {
    endpoint = given "endpoint" p.endpoint "";
    metrics_endpoint = given "metricsEndpoint" p.metrics_endpoint "";
    protocol = given "protocol" p.protocol OtlpProtocol.grpc;
    insecure = given "insecure" p.insecure false;
    insecure_set = given "insecure" true false;
    certificate = given "caCert" p.certificate "";
    client_certificate = given "clientCert" p.client_cert "";
    client_key = given "clientKey" p.client_key "";
    headers = given "headers" p.headers none;
    compression = given "compression" p.compression "";
    timeout = given "timeout" p.timeout (pos 0);
    batch_size = given "batchSize" p.batch_size (pos 0);
    batch_timeout = given "batchTimeout" p.batch_timeout (pos 0);
    max_queue_size = given "maxQueueSize" p.max_queue_size (pos 0);
  }

  -- buildPipelineConfig, from what ConfigFromEnv returns.
  unfoldable pub build_pipeline_config : Config F → Config F
  unfolding was_provided exporter_config
  build_pipeline_config env =
      let out = exporter_config in
      record env {
        endpoint = given "endpoint" out.endpoint env.endpoint;
        metrics_endpoint = given "metricsEndpoint" out.metrics_endpoint env.metrics_endpoint;
        protocol = given "protocol" out.protocol env.protocol;
        insecure = given "insecure" out.insecure env.insecure;
        insecure_set = given "insecure" true env.insecure_set;
        certificate = given "caCert" out.certificate env.certificate;
        client_certificate = given "clientCert" out.client_certificate env.client_certificate;
        client_key = given "clientKey" out.client_key env.client_key;
        headers = given "headers" out.headers env.headers;
        compression = given "compression" out.compression env.compression;
        timeout = given "timeout" out.timeout env.timeout;
        batch_size = given "batchSize" out.batch_size env.batch_size;
        batch_timeout = given "batchTimeout" out.batch_timeout env.batch_timeout;
        max_queue_size = given "maxQueueSize" out.max_queue_size env.max_queue_size;
      }
