-- ===== src/Exporter/Config/Check.antt =====
-- Validate of exporter/config.go and validateTLSConfig of exporter/tls.go: an error is its field.
use xk6_otel_gen.Prelude.{
  ℕ, String, Bool, true, false, not, ◌&&◌, ◌||◌, Option, none, some, List, [], ◌∷◌, ◌++◌, str_eq,
  leb, ◌==◌, if◌then◌else◌,
}
use xk6_otel_gen.Prelude.Int.{ℤ, pos, ltb_ℤ}
use xk6_otel_gen.Prelude.Text.{codes, cut, contains_text, after_prefix}
use xk6_otel_gen.Topology.Float.{Float64}
use xk6_otel_gen.Topology.Graph.{is_some, collect}
use xk6_otel_gen.Exporter.Config.{Config, OtlpProtocol, TextMap}

-- What packages net and net/url, and the file system, answer: the scheme and host of a URL, the host
-- and port of an address, whether a file has PEM certificates, and whether two have a key pair.
pub record Outside : Type 0 where
  pub parse_url : String → Option (String × String)
  pub split_host_port : String → Option (String × String)
  pub loads_certificates : String → Bool
  pub loads_key_pair : String → String → Bool

abbrev both_named : Option (String × String) → Bool
both_named none = false
both_named (some (a, b)) = not (str_eq a "") && not (str_eq b "")

-- The fields with an error.
abbrev pub error_if : Bool → String → List String
error_if wrong field = if wrong then field ∷ [] else []

unfoldable pub valid_endpoint : Outside → String → Bool
unfolding cut
valid_endpoint w endpoint =
    if contains_text "://" endpoint
    then both_named (w.parse_url endpoint)
    else both_named (w.split_host_port endpoint)

abbrev is_key_code : ℕ → Bool
is_key_code c =
    (leb 48 c && leb c 57)
    || ((leb 65 c && leb c 90) || ((leb 97 c && leb c 122) || (c == 95 || c == 45)))

abbrev all_key_codes : List ℕ → Bool
all_key_codes [] = true
all_key_codes (c ∷ cs) = is_key_code c && all_key_codes cs

-- The pattern ^[A-Za-z0-9_-]+$
unfoldable pub valid_header_key : String → Bool
valid_header_key key = not (str_eq key "") && all_key_codes (codes key)

unfoldable pub valid_sampler : String → Bool
unfolding after_prefix
valid_sampler value =
    not (is_some (after_prefix "invalid:" value))
    && (str_eq value ""
        || (str_eq value "always_on" || (str_eq value "always_off" || str_eq value "traceidratio")))

-- One round of validateStringMap.
unfoldable pub validate_entry : String → Bool → String × String → List String
unfolding valid_header_key
validate_entry field header_keys (k, v) =
    if str_eq k ""
    then field ∷ []
    else error_if (header_keys && not (valid_header_key k)) field ++ error_if (str_eq v "") field

unfoldable pub validate_string_map : String → Option TextMap → Bool → List String
unfolding validate_entry collect
validate_string_map field none header_keys = []
validate_string_map field (some m) header_keys = collect (validate_entry field header_keys) m

abbrev pub positive : ℤ → Bool
positive n = ltb_ℤ (pos 0) n

abbrev pub known_protocol : OtlpProtocol → Bool
known_protocol (OtlpProtocol.other k) = false
known_protocol _ = true

abbrev same : Bool → Bool → Bool
same true b = b
same false b = not b

unfoldable pub validate_signal_endpoint : Outside → String → String → List String
unfolding valid_endpoint
validate_signal_endpoint w field value =
    error_if (not (str_eq value "") && not (valid_endpoint w value)) field

module _ (fl : Float64) (w : Outside) where
  open fl use {F, zero_f, one_f, lt_f}

  unfoldable pub validate_tls_config : Config F → List String
  validate_tls_config c =
      error_if
        (c.insecure
          && (not (str_eq c.certificate "")
              || (not (str_eq c.client_certificate "") || not (str_eq c.client_key ""))))
        "Insecure"
      ++ (error_if (not (same (str_eq c.client_certificate "") (str_eq c.client_key "")))
            "ClientCertificate"
          ++ (error_if (not (str_eq c.certificate "") && not (w.loads_certificates c.certificate))
                "Certificate"
              ++ error_if
                  (not (str_eq c.client_certificate "")
                    && (not (str_eq c.client_key "")
                        && not (w.loads_key_pair c.client_certificate c.client_key)))
                  "ClientCertificate"))

  unfoldable pub validate_sizes : Config F → List String
  validate_sizes c =
      error_if (not (positive c.timeout)) "Timeout"
      ++ (error_if (not (positive c.batch_size)) "BatchSize"
          ++ (error_if (not (positive c.batch_timeout)) "BatchTimeout"
              ++ error_if
                  (not (positive c.max_queue_size)
                    || (positive c.batch_size && ltb_ℤ c.max_queue_size c.batch_size))
                  "MaxQueueSize"))

  -- Config.Validate
  unfoldable pub validate_config : Config F → List String
  unfolding valid_endpoint validate_signal_endpoint validate_sizes valid_sampler validate_string_map
      validate_tls_config
  validate_config c =
      error_if (not (known_protocol c.protocol)) "Protocol"
      ++ (error_if (str_eq c.endpoint "" || not (valid_endpoint w c.endpoint)) "Endpoint"
          ++ (validate_signal_endpoint w "TracesEndpoint" c.traces_endpoint
              ++ (validate_signal_endpoint w "MetricsEndpoint" c.metrics_endpoint
                  ++ (validate_signal_endpoint w "LogsEndpoint" c.logs_endpoint
                      ++ (validate_signal_endpoint w "ProfilesEndpoint" c.profiles_endpoint
                          ++ (validate_sizes c ++ later))))))
    where
      later : List String
      later =
          error_if (not (str_eq c.compression "" || str_eq c.compression "gzip")) "Compression"
          ++ (error_if (not (valid_sampler c.sampler)) "Sampler"
              ++ (error_if
                    (str_eq c.sampler "traceidratio"
                      && (lt_f c.sampler_arg zero_f || lt_f one_f c.sampler_arg))
                    "SamplerArg"
                  ++ (validate_string_map "Headers" c.headers true
                      ++ (validate_string_map "ResourceOverrides" c.resource_overrides false
                          ++ validate_tls_config c))))
