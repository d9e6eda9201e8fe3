-- ===== src/Exporter/Config/Defaults.antt =====
-- What fillDefaults of exporter/config.go does to a configuration that Validate accepts.
use xk6_otel_gen.Prelude.{
  ◌≡◌, refl, String, Bool, true, false, not, ◌&&◌, ◌||◌, [], str_eq, append-eq-nil, Bool-cases, inl,
  inr, arith, if◌then◌else◌,
}
use xk6_otel_gen.Prelude.Int.{ℤ, pos, negsuc, ltb_ℤ}
use xk6_otel_gen.Prelude.Text.{string_default}
use xk6_otel_gen.Topology.Float.{Float64}
use xk6_otel_gen.Exporter.Config.{Config, fill_defaults, int_default, default_endpoint}
use xk6_otel_gen.Exporter.Config.Check.{
  Outside, known_protocol, validate_signal_endpoint, error_if, positive, valid_endpoint,
  validate_sizes, validate_config,
}

quiet-false : (wrong : Bool) (field : String) → error_if wrong field ≡ [] → wrong ≡ false
quiet-false true field quiet = absurd cc
quiet-false false field quiet = refl

quiet-positive :
    (n : ℤ) (field : String) → error_if (not (positive n)) field ≡ [] → positive n ≡ true
quiet-positive n field quiet = elim (Bool-cases (positive n)) [
  | inl yes_ ↦ yes_
  | inr no_ ↦ absurd (cc (no_, quiet))
]

kept : (n def : ℤ) → positive n ≡ true → int_default n def ≡ n
kept (pos n) def p = ground arith
kept (negsuc n) def p = ground arith

kept_text : (s def : String) → str_eq s "" ≡ false → string_default s def ≡ s
kept_text s def full = rw full refl

first-false : (p q : Bool) → (p || q) ≡ false → p ≡ false
first-false true q h = h
first-false false q h = refl

kept_queue :
    (n size def : ℤ) (field : String)
    → error_if (not (positive n) || (positive size && ltb_ℤ n size)) field ≡ []
    → int_default n def ≡ n
kept_queue n size def field quiet = elim (Bool-cases (positive n)) [
  | inl yes_ ↦ kept n def yes_
  | inr no_ ↦ absurd (cc (no_, quiet))
]

module _ (fl : Float64) (w : Outside) where
  open fl use {F, one_f}

  sizes_kept :
      (c : Config F)
      → validate_sizes fl w c ≡ []
      → (fill_defaults fl c).timeout ≡ c.timeout
        × (fill_defaults fl c).batch_size ≡ c.batch_size
        × (fill_defaults fl c).batch_timeout ≡ c.batch_timeout
        × (fill_defaults fl c).max_queue_size ≡ c.max_queue_size
  unfolding validate_sizes fill_defaults
  sizes_kept c quiet =
      let (timeout, quiet) =
        append-eq-nil (error_if (not (positive c.timeout)) "Timeout") _ quiet in
      let (size, quiet) =
        append-eq-nil (error_if (not (positive c.batch_size)) "BatchSize") _ quiet in
      let (batch, queue) =
        append-eq-nil (error_if (not (positive c.batch_timeout)) "BatchTimeout") _ quiet in
      (
        kept c.timeout _ (quiet-positive c.timeout "Timeout" timeout),
        kept c.batch_size _ (quiet-positive c.batch_size "BatchSize" size),
        kept c.batch_timeout _ (quiet-positive c.batch_timeout "BatchTimeout" batch),
        kept_queue c.max_queue_size c.batch_size _ "MaxQueueSize" queue,
      )

  -- Of a configuration that Validate accepts, fillDefaults changes at most the sampler and its
  -- argument.
  pub fill_defaults-accepted :
      (c : Config F)
      → validate_config fl w c ≡ []
      → fill_defaults fl c ≡ record c {
        sampler = string_default c.sampler "always_on";
        sampler_arg = if c.sampler_arg_set then c.sampler_arg else one_f;
        sampler_arg_set = true;
      }
  unfolding validate_config fill_defaults
  fill_defaults-accepted c quiet =
      let (_, quiet) =
        append-eq-nil (error_if (not (known_protocol c.protocol)) "Protocol") _ quiet in
      let (endpoint, quiet) =
        append-eq-nil
          (error_if (str_eq c.endpoint "" || not (valid_endpoint w c.endpoint)) "Endpoint") _
          quiet in
      let (_, quiet) =
        append-eq-nil (validate_signal_endpoint w "TracesEndpoint" c.traces_endpoint) _ quiet in
      let (_, quiet) =
        append-eq-nil (validate_signal_endpoint w "MetricsEndpoint" c.metrics_endpoint) _ quiet in
      let (_, quiet) =
        append-eq-nil (validate_signal_endpoint w "LogsEndpoint" c.logs_endpoint) _ quiet in
      let (_, quiet) =
        append-eq-nil (validate_signal_endpoint w "ProfilesEndpoint" c.profiles_endpoint) _ quiet in
      let (sizes, _) = append-eq-nil (validate_sizes fl w c) _ quiet in
      let (timeout, size, batch, queue) = sizes_kept c sizes in
      let text =
        kept_text c.endpoint default_endpoint
          (first-false (str_eq c.endpoint "") _ (quiet-false _ "Endpoint" endpoint)) in
      λ i. record c {
        endpoint = text i;
        timeout = timeout i;
        batch_size = size i;
        batch_timeout = batch i;
        max_queue_size = queue i;
        sampler = string_default c.sampler "always_on";
        sampler_arg = if c.sampler_arg_set then c.sampler_arg else one_f;
        sampler_arg_set = true;
      }
