-- ===== src/Tests/Outputs.antt =====
-- The theorems about the exporter, the k6 output and the accumulators, applied to small inputs.
use xk6_otel_gen.Prelude.{
  ℕ, ◌+◌, ◌*◌, ◌/◌, ◌%◌, ◌==◌, ◌≡◌, ◌≤◌, refl, none, some, true, false, List, [], ◌∷◌, length,
  arith, if◌then◌else◌,
}
use xk6_otel_gen.Prelude.Int.{ℤ, pos, negsuc, ◌+ℤ◌}
use xk6_otel_gen.Prelude.Text.{cut}
use xk6_otel_gen.Exporter.Config.{Config, OtlpProtocol, zero_config, fill_defaults}
use xk6_otel_gen.Exporter.Config.Check.{
  Outside, validate_config, valid_endpoint, validate_signal_endpoint, validate_sizes, valid_sampler,
  validate_tls_config, validate_string_map,
}
use xk6_otel_gen.Exporter.Config.Defaults.{fill_defaults-accepted}
use xk6_otel_gen.K6Output.Params.{parse_out_args}
use xk6_otel_gen.K6Output.Params.Bounds.{IsBounded, parse_out_args-IsBounded}
use xk6_otel_gen.K6Output.Queue.{
  Output, Pushing, QueueStep, QueueSteps, push, drop_oldest, push_again, drain_queue,
}
use xk6_otel_gen.K6Output.Queue.Conserved.{total, pushes, queue_conserved, drain_queue-emits}
use xk6_otel_gen.Synth.Observable.{
  Adder, FloatBits, AddStep, AddSteps, Cell, Phase, adder, compare_and_swap,
}
use xk6_otel_gen.Synth.Observable.Atomic.{sum_from, calls, steps-IsSum}
use xk6_otel_gen.Tests.{whole}

-- A host and a port for every address, and no files.
abbrev localhost : Outside
localhost = record {
  parse_url = λ s. none;
  split_host_port = λ s. some ("localhost", "4317");
  loads_certificates = λ s. false;
  loads_key_pair = λ s t. false;
}

abbrev http_layer : Config ℤ
http_layer = record (zero_config whole) {
  protocol = OtlpProtocol.http;
  endpoint = "collector:4318";
  timeout = pos 5_000_000_000;
  batch_size = pos 256;
  batch_timeout = pos 500_000_000;
  max_queue_size = pos 1024;
}

abbrev headers_layer : Config ℤ
headers_layer = record (zero_config whole) { headers = some (("key", "value") ∷ []) }

fill_defaults-accepted_example :
    fill_defaults whole http_layer
    ≡ record http_layer { sampler = "always_on"; sampler_arg = pos 1; sampler_arg_set = true }
unfolding validate_config valid_endpoint validate_signal_endpoint validate_sizes valid_sampler
    validate_tls_config validate_string_map cut
fill_defaults-accepted_example = fill_defaults-accepted whole localhost http_layer refl

parse_out_args-IsBounded_example :
    IsBounded (parse_out_args localhost (λ s. none) "protocol=http, queueSize=20000").0
parse_out_args-IsBounded_example =
    parse_out_args-IsBounded localhost (λ s. none) "protocol=http, queueSize=20000"

-- A queue of one place, into which two samples are pushed.
abbrev empty_output : Output ℕ
empty_output = record {
  capacity = 1;
  queue = [];
  drops = 0;
  pushing = Pushing.idle;
  batch = [];
  emitted = [];
}

-- The output after both calls of tryPush: the first sample was dropped for the second.
abbrev second_in : Output ℕ
second_in = record empty_output { queue = 8 ∷ []; drops = 1 }

crowded : QueueSteps empty_output second_in
unfolding push drop_oldest push_again
crowded =
    QueueSteps.then_step
      (QueueSteps.then_step
        (QueueSteps.then_step
          (QueueSteps.then_step (QueueSteps.done empty_output)
            (QueueStep.pushed 7 empty_output refl))
          (QueueStep.pushed 8 (record empty_output { queue = 7 ∷ [] }) refl))
        (QueueStep.dropped 8 (record empty_output { queue = 7 ∷ []; pushing = Pushing.full 8 })
          refl))
      (QueueStep.pushed_again 8 (record empty_output { drops = 1; pushing = Pushing.retrying 8 })
        refl)

queue_conserved_example :
    (length second_in.queue ≤ 1) × (total second_in ≡ total empty_output + pushes crowded)
queue_conserved_example = queue_conserved crowded (omega arith)

drain_queue-emits_example :
    ((drain_queue (8 ∷ []) second_in).queue ≡ [])
    × ((drain_queue (8 ∷ []) second_in).batch ≡ [])
    × ((drain_queue (8 ∷ []) second_in).emitted ≡ 8 ∷ [])
    × ((drain_queue (8 ∷ []) second_in).drops ≡ 1)
drain_queue-emits_example = drain_queue-emits (8 ∷ []) second_in refl

-- Whole numbers as bits: the last bit is the sign.
abbrev zigzag : ℤ → ℕ
zigzag (pos n) = 2 * n
zigzag (negsuc n) = 2 * n + 1

abbrev unzigzag : ℕ → ℤ
unzigzag b = if b % 2 == 0 then pos (b / 2) else negsuc (b / 2)

abbrev whole_bits : FloatBits whole
whole_bits = record { to_bits = zigzag; from_bits = unzigzag }

unzigzag-zigzag : (x : ℤ) → unzigzag (zigzag x) ≡ x
unzigzag-zigzag (pos n) = ground arith
unzigzag-zigzag (negsuc n) = ground arith

abbrev cell : ℕ → List (Adder whole whole_bits) → List ℤ → Cell whole whole_bits
cell bits adders added = record { bits = bits; adders = adders; added = added }

abbrev caller : ℤ → Phase → Adder whole whole_bits
caller delta phase = adder whole whole_bits delta phase

-- Two calls load 0; the one that adds 5 swaps first, and the swap of the other fails.
abbrev raced : Cell whole whole_bits
raced = cell 10 (caller (pos 3) Phase.starting ∷ []) (pos 5 ∷ [])

race : AddSteps whole whole_bits (cell 0 [] []) raced
unfolding compare_and_swap ◌+ℤ◌
race =
    AddSteps.then_step
      (AddSteps.then_step
        (AddSteps.then_step
          (AddSteps.then_step
            (AddSteps.then_step
              (AddSteps.then_step (AddSteps.done (cell 0 [] []))
                (AddStep.called (pos 3) (cell 0 [] [])))
              (AddStep.called (pos 5) (cell 0 (caller (pos 3) Phase.starting ∷ []) [])))
            (AddStep.loads [] (caller (pos 3) Phase.starting ∷ []) (pos 5)
              (cell 0 (caller (pos 5) Phase.starting ∷ caller (pos 3) Phase.starting ∷ []) [])
              refl))
          (AddStep.loads (caller (pos 5) (Phase.loaded 0) ∷ []) [] (pos 3)
            (cell 0 (caller (pos 5) (Phase.loaded 0) ∷ caller (pos 3) Phase.starting ∷ []) [])
            refl))
        (AddStep.swaps [] (caller (pos 3) (Phase.loaded 0) ∷ []) (pos 5) 0
          (cell 0 (caller (pos 5) (Phase.loaded 0) ∷ caller (pos 3) (Phase.loaded 0) ∷ []) [])
          refl))
      (AddStep.swaps [] [] (pos 3) 0 (cell 10 (caller (pos 3) (Phase.loaded 0) ∷ []) (pos 5 ∷ []))
        refl)

steps-IsSum_example :
    (unzigzag 10 ≡ sum_from whole whole_bits (pos 0) (pos 5 ∷ []))
    × (2 ≡ calls whole whole_bits race)
steps-IsSum_example = steps-IsSum whole whole_bits unzigzag-zigzag 0 raced race
