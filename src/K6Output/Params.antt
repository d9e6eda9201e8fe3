-- ===== src/K6Output/Params.antt =====
-- k6output/params.go: the argument of --out, and the configuration of the pipeline that k6output/output.go
-- builds from it.
pub mod Bounds
pub mod Provided
use xk6_otel_gen.Prelude.{
  String, Bool, true, false, not, ◌&&◌, ◌||◌, Option, none, some, List, [], ◌∷◌, str_eq,
  if◌then◌else◌,
}
use xk6_otel_gen.Prelude.Int.{ℤ, pos, ltb_ℤ}
use xk6_otel_gen.Prelude.Text.{trim_space, lower_is, split, cut, parse_bool}
use xk6_otel_gen.Prelude.Atoi.{atoi}
use xk6_otel_gen.Topology.Float.{Float64}
use xk6_otel_gen.Topology.Types.{Duration}
use xk6_otel_gen.Exporter.Config.{
  Config, OtlpProtocol, TextMap, set_text, zero_config, config_from_env, default_endpoint,
  default_timeout, default_batch_size, default_batch_timeout, default_max_queue_size,
}
use xk6_otel_gen.Exporter.Config.Check.{Outside, valid_endpoint}

-- ScriptPath is set elsewhere, and left out.
pub record Params : Type 0 where
  pub endpoint : String
  pub metrics_endpoint : String
  pub protocol : OtlpProtocol
  pub insecure : Bool
  pub certificate : String
  pub client_cert : String
  pub client_key : String
  pub headers : Option TextMap
  pub compression : String
  pub timeout : Duration
  pub batch_size : ℤ
  pub batch_timeout : Duration
  pub max_queue_size : ℤ
  pub queue_size : ℤ
  pub flush_interval : Duration
  pub provided : List String

abbrev pub default_params : Params
default_params = record {
  endpoint = default_endpoint;
  metrics_endpoint = "";
  protocol = OtlpProtocol.grpc;
  insecure = false;
  certificate = "";
  client_cert = "";
  client_key = "";
  headers = none;
  compression = "";
  timeout = default_timeout;
  batch_size = default_batch_size;
  batch_timeout = default_batch_timeout;
  max_queue_size = default_max_queue_size;
  queue_size = pos 100;
  flush_interval = pos 1_000_000_000;
  provided = [];
}

pub data ConfigErrorKind : Type 0 where
  invalid_args invalid_url invalid_protocol type_mismatch : ConfigErrorKind

-- The parameters, or the kind and the field of the error.
pub data Applied : Type 0 where
  ok : Params → Applied
  failed : ConfigErrorKind → String → Applied

unfoldable pub was_provided : List String → String → Bool
was_provided [] key = false
was_provided (k ∷ ks) key = str_eq k key || was_provided ks key

abbrev pub mark_provided : String → Params → Params
mark_provided key p = record p { provided = key ∷ p.provided }

-- A value that was read is set and its key is marked; without one, there is an error.
unfoldable pub set_read {ℓ} :
    {A : Type ℓ} → String → ConfigErrorKind → (A → Params) → Option A → Applied
set_read key kind set none = Applied.failed kind key
set_read key kind set (some a) = Applied.ok (mark_provided key (set a))

-- The value, if the test holds.
abbrev pub when {ℓ} : {A : Type ℓ} → Bool → A → Option A
when test a = if test then some a else none

abbrev in_queue_range : Option ℤ → Option ℤ
in_queue_range none = none
in_queue_range (some n) = when (not (ltb_ℤ n (pos 10) || ltb_ℤ (pos 10_000) n)) n

-- Text that is not a number, or a number out of range.
abbrev queue_error : Option ℤ → ConfigErrorKind
queue_error none = ConfigErrorKind.type_mismatch
queue_error (some n) = ConfigErrorKind.invalid_args

unfoldable pub set_queue_size : String → Option ℤ → Params → Applied
unfolding set_read
set_queue_size key n p =
    set_read key (queue_error n) (λ size. record p { queue_size = size }) (in_queue_range n)

-- One case of the switch on the key.
unfoldable pub on_key : String → String → Applied → Applied → Applied
on_key key name here later = if str_eq key name then here else later

-- One pair of parseHeaders; `none` is an error.
abbrev header_pair : Option (String × String) → Option TextMap → Option TextMap
unfolding trim_space
header_pair none m = none
header_pair (some (key, val)) none = none
header_pair (some (key, val)) (some m) =
    if str_eq (trim_space key) "" || str_eq (trim_space val) ""
    then none
    else some (set_text (trim_space key) (trim_space val) m)

unfoldable pub parse_pairs : List String → Option TextMap → Option TextMap
unfolding trim_space cut
parse_pairs [] m = m
parse_pairs (pair ∷ pairs) m =
    parse_pairs pairs
      (if str_eq (trim_space pair) "" then m else header_pair (cut ":" (trim_space pair)) m)

abbrev some_map : Option TextMap → Option (Option TextMap)
some_map none = none
some_map (some m) = some (some m)

-- parseHeaders of k6output/params.go: an error, or a map that may be nil.
unfoldable pub parse_header_pairs : String → Option (Option TextMap)
unfolding trim_space split parse_pairs
parse_header_pairs s =
    if str_eq (trim_space s) "" then some none else some_map (parse_pairs (split ";" s) (some []))

unfoldable pub parse_protocol_arg : String → Option OtlpProtocol
unfolding lower_is
parse_protocol_arg val =
    if lower_is "grpc" val
    then some OtlpProtocol.grpc
    else if lower_is "http" val
    then some OtlpProtocol.http
    else none

-- `parse_duration` is time.ParseDuration.
module _ (w : Outside) (parse_duration : String → Option Duration) where
  abbrev pub valid_endpoint_arg : String → Bool
  unfolding valid_endpoint
  valid_endpoint_arg endpoint = not (str_eq endpoint "") && valid_endpoint w endpoint

  unfoldable pub apply_kv : Params → String → String → Applied
  apply_kv p key val =
      on_key key "endpoint"
        (set_read key ConfigErrorKind.invalid_url (λ v. record p { endpoint = v })
          (when (valid_endpoint_arg val) val))
        (on_key key "metricsEndpoint"
          (set_read key ConfigErrorKind.invalid_url (λ v. record p { metrics_endpoint = v })
            (when (valid_endpoint_arg val) val))
          (on_key key "protocol"
            (set_read key ConfigErrorKind.invalid_protocol (λ v. record p { protocol = v })
              (parse_protocol_arg val))
            (on_key key "insecure"
              (set_read key ConfigErrorKind.type_mismatch (λ v. record p { insecure = v })
                (parse_bool val))
              (on_key key "caCert"
                (set_read key ConfigErrorKind.invalid_args (λ v. record p { certificate = v })
                  (some val))
                (on_key key "clientCert"
                  (set_read key ConfigErrorKind.invalid_args (λ v. record p { client_cert = v })
                    (some val))
                  (on_key key "clientKey"
                    (set_read key ConfigErrorKind.invalid_args (λ v. record p { client_key = v })
                      (some val))
                    (on_key key "headers"
                      (set_read key ConfigErrorKind.type_mismatch (λ v. record p { headers = v })
                        (parse_header_pairs val))
                      (on_key key "compression"
                        (set_read key ConfigErrorKind.invalid_args
                          (λ v. record p { compression = v })
                          (when (str_eq val "" || str_eq val "gzip") val))
                        (on_key key "timeout"
                          (set_read key ConfigErrorKind.type_mismatch
                            (λ v. record p { timeout = v }) (parse_duration val))
                          (on_key key "batchSize"
                            (set_read key ConfigErrorKind.type_mismatch
                              (λ v. record p { batch_size = v }) (atoi val))
                            (on_key key "batchTimeout"
                              (set_read key ConfigErrorKind.type_mismatch
                                (λ v. record p { batch_timeout = v }) (parse_duration val))
                              (on_key key "maxQueueSize"
                                (set_read key ConfigErrorKind.type_mismatch
                                  (λ v. record p { max_queue_size = v }) (atoi val))
                                (on_key key "queueSize" (set_queue_size key (atoi val) p)
                                  (Applied.ok p))))))))))))))

  unfoldable pub apply_pair : Params → String → Option (String × String) → Applied
  apply_pair p token none = Applied.failed ConfigErrorKind.invalid_args token
  apply_pair p token (some (key, val)) = apply_kv p (trim_space key) (trim_space val)

  unfoldable pub apply_token : Params → String → Applied
  apply_token p token =
      if str_eq (trim_space token) ""
      then Applied.ok p
      else apply_pair p (trim_space token) (cut "=" (trim_space token))

  -- The parameters when the loop ends or is left, and the error it is left with.
  unfoldable pub apply_tokens :
      List String → Params → Applied → Params × Option (ConfigErrorKind × String)
  apply_tokens tokens p (Applied.failed kind field) = (p, some (kind, field))
  apply_tokens [] p (Applied.ok p') = (p', none)
  apply_tokens (token ∷ tokens) p (Applied.ok p') = apply_tokens tokens p' (apply_token p' token)

  unfoldable pub parse_out_args : String → Params × Option (ConfigErrorKind × String)
  parse_out_args s =
      if str_eq (trim_space s) ""
      then (default_params, none)
      else apply_tokens (split "," s) default_params (Applied.ok default_params)
