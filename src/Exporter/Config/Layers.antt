-- ===== src/Exporter/Config/Layers.antt =====
-- The layers of a configuration: MergeWith and fillDefaults of exporter/config.go.
use xk6_otel_gen.Prelude.{◌≡◌, false, if◌then◌else◌}
use xk6_otel_gen.Prelude.Int.{pos, ltb_ℤ}
use xk6_otel_gen.Topology.Float.{Float64}
use xk6_otel_gen.Exporter.Config.{Config}

module _ (fl : Float64) where
  open fl use {F, zero_f}

  -- A configuration with no negative size, whose sampler argument is 0 unless it is set.
  pub record IsLayer (c : Config F) : Type 0 where
    pub batch_size : ltb_ℤ c.batch_size (pos 0) ≡ false
    pub batch_timeout : ltb_ℤ c.batch_timeout (pos 0) ≡ false
    pub max_queue_size : ltb_ℤ c.max_queue_size (pos 0) ≡ false
    pub sampler_arg : (if c.sampler_arg_set then c.sampler_arg else zero_f) ≡ c.sampler_arg
