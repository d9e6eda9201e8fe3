-- ===== src/Exporter/Endpoints.antt =====
-- exporter/endpoints.go: the endpoint of each signal. A URL is what package net/url makes of a text:
-- its path, and the text with another path.
use Prim.Native.String.{◌++◌ as ◌++ₛ◌}
use xk6_otel_gen.Prelude.{
  String, Bool, true, false, ◌&&◌, ◌||◌, Option, none, some, str_eq, if◌then◌else◌,
}
use xk6_otel_gen.Prelude.Text.{contains_text, has_suffix, string_default}
use xk6_otel_gen.Exporter.Config.{Config, OtlpProtocol, default_endpoint}

pub record Url : Type 0 where
  pub path : String
  pub with_path : String → String

-- The switch on the path in appendSignalPath.
unfoldable pub signal_path : String → String → String
unfolding has_suffix
signal_path path suffix =
    if str_eq path "" || str_eq path "/"
    then "/" ++ₛ suffix
    else if has_suffix "/" path
    then path ++ₛ suffix
    else path ++ₛ ("/" ++ₛ suffix)

abbrev is_http : OtlpProtocol → Bool
is_http OtlpProtocol.http = true
is_http _ = false

-- `parse_url` is url.Parse, `none` for an error.
module _ (parse_url : String → Option Url) where
  abbrev with_signal_path : String → String → Option Url → String
  unfolding signal_path
  with_signal_path base suffix none = base
  with_signal_path base suffix (some u) = u.with_path (signal_path u.path suffix)

  unfoldable pub append_signal_path : String → String → String
  unfolding signal_path
  append_signal_path base suffix = with_signal_path base suffix (parse_url base)

  unfoldable pub resolve_signal_endpoint : String → String → OtlpProtocol → String → String
  unfolding append_signal_path
  resolve_signal_endpoint per_signal base protocol suffix =
      if str_eq per_signal ""
      then if is_http protocol && contains_text "://" base
        then append_signal_path base suffix
        else base
      else per_signal

  unfoldable pub resolve_endpoints : {F : Type 0} → Config F → String × String × String
  unfolding resolve_signal_endpoint
  resolve_endpoints c =
      let base = string_default c.endpoint default_endpoint in
      (
        resolve_signal_endpoint c.traces_endpoint base c.protocol "v1/traces",
        resolve_signal_endpoint c.metrics_endpoint base c.protocol "v1/metrics",
        resolve_signal_endpoint c.logs_endpoint base c.protocol "v1/logs",
      )
