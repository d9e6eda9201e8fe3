-- ===== src/Exporter/Config.antt =====
-- exporter/config.go: the configuration of a pipeline, its defaults, layers and sources. A map is nil
-- (`none`) or the list of its entries.
pub mod Layers
pub mod Check
pub mod Defaults
use Prim.Native.String.{◌++◌ as ◌++ₛ◌}
use xk6_otel_gen.Prelude.{
  String, Bool, true, false, not, ◌||◌, Option, none, some, List, [], ◌∷◌, str_eq, if◌then◌else◌,
}
use xk6_otel_gen.Prelude.Int.{ℤ, pos, negsuc, eq_ℤ, ltb_ℤ, mul_64}
use xk6_otel_gen.Prelude.Text.{trim_space, reads_as, split, cut, parse_bool, string_default}
use xk6_otel_gen.Prelude.Atoi.{atoi}
use xk6_otel_gen.Topology.Float.{Float64}
use xk6_otel_gen.Topology.Types.{Duration}

pub data OtlpProtocol : Type 0 where
  grpc http : OtlpProtocol
  other : ℤ → OtlpProtocol

abbrev pub TextMap : Type 0
TextMap = List (String × String)

pub record Config (F : Type 0) : Type 0 where
  pub protocol : OtlpProtocol
  pub endpoint : String
  pub traces_endpoint : String
  pub metrics_endpoint : String
  pub logs_endpoint : String
  pub profiles_endpoint : String
  pub headers : Option TextMap
  pub insecure : Bool
  pub insecure_set : Bool
  pub certificate : String
  pub client_certificate : String
  pub client_key : String
  pub compression : String
  pub timeout : Duration
  pub batch_size : ℤ
  pub batch_timeout : Duration
  pub max_queue_size : ℤ
  pub resource_overrides : Option TextMap
  pub sampler : String
  pub sampler_arg : F
  pub sampler_arg_set : Bool

-- localhost:4317, 10 s, 512, 1 s and 2048
abbrev pub default_endpoint : String
default_endpoint = "localhost:4317"

abbrev pub default_timeout : Duration
default_timeout = pos 10_000_000_000

abbrev pub default_batch_size : ℤ
default_batch_size = pos 512

abbrev pub default_batch_timeout : Duration
default_batch_timeout = pos 1_000_000_000

abbrev pub default_max_queue_size : ℤ
default_max_queue_size = pos 2048

-- if n == 0 { n = def }
abbrev pub int_default : ℤ → ℤ → ℤ
int_default n def = if eq_ℤ n (pos 0) then def else n

-- if override != "" { c = override }
abbrev pub override_text : String → String → String
override_text value override = if str_eq override "" then value else override

-- if override > 0 { c = override }
abbrev pub override_positive : ℤ → ℤ → ℤ
override_positive value override = if ltb_ℤ (pos 0) override then override else value

-- if override != 0 { c = override }
abbrev pub override_int : ℤ → ℤ → ℤ
override_int value override = if eq_ℤ override (pos 0) then value else override

-- if override != nil { c = override }
abbrev pub override_map : Option TextMap → Option TextMap → Option TextMap
override_map value none = value
override_map value (some m) = some m

-- if override.Protocol != ProtocolGRPC { c.Protocol = override.Protocol }
abbrev pub override_protocol : OtlpProtocol → OtlpProtocol → OtlpProtocol
override_protocol value OtlpProtocol.grpc = value
override_protocol value override = override

-- m[k] = v
abbrev pub set_text : String → String → TextMap → TextMap
set_text k v [] = (k, v) ∷ []
set_text k v ((j, w) ∷ m) = if str_eq j k then (j, v) ∷ m else (j, w) ∷ set_text k v m

unfoldable pub parse_otlp_protocol : String → OtlpProtocol
unfolding reads_as
parse_otlp_protocol value =
    if reads_as "grpc" value
    then OtlpProtocol.grpc
    else if reads_as "http/protobuf" value || reads_as "http" value
    then OtlpProtocol.http
    else OtlpProtocol.other (negsuc 0)

unfoldable pub parse_sampler : String → String
unfolding reads_as
parse_sampler value =
    if reads_as "always_on" value
    then "always_on"
    else if reads_as "always_off" value
    then "always_off"
    else if reads_as "traceidratio" value
    then "traceidratio"
    else "invalid:" ++ₛ value

abbrev millis : Option ℤ → Duration
unfolding mul_64
millis none = negsuc 0
millis (some ms) = mul_64 ms (pos 1_000_000)

unfoldable pub parse_timeout_millis : String → Duration
unfolding atoi trim_space mul_64
parse_timeout_millis value = millis (atoi (trim_space value))

abbrev is_true : Option Bool → Bool
is_true none = false
is_true (some b) = b

unfoldable pub parse_bool_value : String → Bool
unfolding parse_bool trim_space
parse_bool_value value = is_true (parse_bool (trim_space value))

-- `unescape` is url.QueryUnescape, `none` for an error.
module _ (unescape : String → Option String) where
  abbrev or_raw : Option String → String → String
  or_raw none raw = raw
  or_raw (some decoded) raw = decoded

  abbrev set_header : String → Option (String × String) → TextMap → TextMap
  unfolding trim_space
  set_header part none m = set_text (trim_space part) "" m
  set_header part (some (key, raw)) m = set_text (trim_space key) (or_raw (unescape raw) raw) m

  unfoldable pub parse_header_parts : List String → TextMap → TextMap
  unfolding trim_space cut
  parse_header_parts [] m = m
  parse_header_parts (part ∷ parts) m = parse_header_parts parts (set_header part (cut "=" part) m)

  -- parseHeaders of exporter/config.go
  unfoldable pub parse_header_list : String → TextMap
  unfolding parse_header_parts split
  parse_header_list value = if str_eq value "" then [] else parse_header_parts (split "," value) []

module _ (fl : Float64) where
  open fl use {F, zero_f, one_f, sub_f}

  -- Config{}
  abbrev pub zero_config : Config F
  zero_config = record {
    protocol = OtlpProtocol.grpc;
    endpoint = "";
    traces_endpoint = "";
    metrics_endpoint = "";
    logs_endpoint = "";
    profiles_endpoint = "";
    headers = none;
    insecure = false;
    insecure_set = false;
    certificate = "";
    client_certificate = "";
    client_key = "";
    compression = "";
    timeout = pos 0;
    batch_size = pos 0;
    batch_timeout = pos 0;
    max_queue_size = pos 0;
    resource_overrides = none;
    sampler = "";
    sampler_arg = zero_f;
    sampler_arg_set = false;
  }

  unfoldable pub fill_defaults : Config F → Config F
  fill_defaults c = record c {
    endpoint = string_default c.endpoint default_endpoint;
    timeout = int_default c.timeout default_timeout;
    batch_size = int_default c.batch_size default_batch_size;
    batch_timeout = int_default c.batch_timeout default_batch_timeout;
    max_queue_size = int_default c.max_queue_size default_max_queue_size;
    sampler = string_default c.sampler "always_on";
    sampler_arg = if c.sampler_arg_set then c.sampler_arg else one_f;
    sampler_arg_set = true;
  }

  -- c.MergeWith(o)
  unfoldable pub merge_with : Config F → Config F → Config F
  merge_with c o = record {
    protocol = override_protocol c.protocol o.protocol;
    endpoint = override_text c.endpoint o.endpoint;
    traces_endpoint = override_text c.traces_endpoint o.traces_endpoint;
    metrics_endpoint = override_text c.metrics_endpoint o.metrics_endpoint;
    logs_endpoint = override_text c.logs_endpoint o.logs_endpoint;
    profiles_endpoint = override_text c.profiles_endpoint o.profiles_endpoint;
    headers = override_map c.headers o.headers;
    insecure = if o.insecure || o.insecure_set then o.insecure else c.insecure;
    insecure_set = if o.insecure || o.insecure_set then o.insecure_set else c.insecure_set;
    certificate = override_text c.certificate o.certificate;
    client_certificate = override_text c.client_certificate o.client_certificate;
    client_key = override_text c.client_key o.client_key;
    compression = override_text c.compression o.compression;
    timeout = override_int c.timeout o.timeout;
    batch_size = override_positive c.batch_size o.batch_size;
    batch_timeout = override_positive c.batch_timeout o.batch_timeout;
    max_queue_size = override_positive c.max_queue_size o.max_queue_size;
    resource_overrides = override_map c.resource_overrides o.resource_overrides;
    sampler = override_text c.sampler o.sampler;
    sampler_arg = if o.sampler_arg_set then o.sampler_arg else c.sampler_arg;
    sampler_arg_set = o.sampler_arg_set || c.sampler_arg_set;
  }

  -- os.LookupEnv, url.QueryUnescape and strconv.ParseFloat.
  module _ (env : String → Option String) (unescape : String → Option String)
      (parse_float : String → Option F) where
    abbrev first_of : Option String → Option String → Option String
    first_of none later = later
    first_of (some value) later = some value

    unfoldable pub lookup_signal_env : String → Option String
    lookup_signal_env suffix = first_of (env ("OTEL_EXPORTER_OTLP_TRACES_" ++ₛ suffix)) (
        first_of (env ("OTEL_EXPORTER_OTLP_METRICS_" ++ₛ suffix)) (
          first_of (env ("OTEL_EXPORTER_OTLP_LOGS_" ++ₛ suffix))
            (env ("OTEL_EXPORTER_OTLP_" ++ₛ suffix))))

    -- if value, ok := …; ok { c = f(value) }, where c was `zero`
    abbrev when_set {ℓ} : {A : Type ℓ} → Option String → (String → A) → A → A
    when_set none f unset = unset
    when_set (some value) f unset = f value

    abbrev sampler_number : Option F → F
    sampler_number none = sub_f zero_f one_f
    sampler_number (some arg) = arg

    unfoldable pub config_from_env : Config F
    unfolding lookup_signal_env parse_header_list parse_otlp_protocol parse_timeout_millis
        parse_bool_value parse_sampler trim_space
    config_from_env = record (zero_config) {
      endpoint = when_set (env "OTEL_EXPORTER_OTLP_ENDPOINT") (λ v. v) "";
      traces_endpoint = when_set (env "OTEL_EXPORTER_OTLP_TRACES_ENDPOINT") (λ v. v) "";
      metrics_endpoint = when_set (env "OTEL_EXPORTER_OTLP_METRICS_ENDPOINT") (λ v. v) "";
      logs_endpoint = when_set (env "OTEL_EXPORTER_OTLP_LOGS_ENDPOINT") (λ v. v) "";
      headers =
          when_set (lookup_signal_env "HEADERS") (λ v. some (parse_header_list unescape v)) none;
      protocol = when_set (lookup_signal_env "PROTOCOL") parse_otlp_protocol OtlpProtocol.grpc;
      compression = when_set (lookup_signal_env "COMPRESSION") (λ v. v) "";
      timeout = when_set (lookup_signal_env "TIMEOUT") parse_timeout_millis (pos 0);
      insecure = when_set (lookup_signal_env "INSECURE") parse_bool_value false;
      insecure_set = when_set (lookup_signal_env "INSECURE") (λ v. true) false;
      certificate = when_set (lookup_signal_env "CERTIFICATE") (λ v. v) "";
      client_certificate = when_set (lookup_signal_env "CLIENT_CERTIFICATE") (λ v. v) "";
      client_key = when_set (lookup_signal_env "CLIENT_KEY") (λ v. v) "";
      sampler = when_set (env "OTEL_TRACES_SAMPLER") parse_sampler "";
      sampler_arg =
          when_set (env "OTEL_TRACES_SAMPLER_ARG")
            (λ v. sampler_number (parse_float (trim_space v))) zero_f;
      sampler_arg_set = when_set (env "OTEL_TRACES_SAMPLER_ARG") (λ v. true) false;
    }
