-- ===== src/Topology/Parse/Store.antt =====
-- The objects that topology/parse.go allocates: a heap, and the references that are taken.
use xk6_otel_gen.Prelude.{ℕ, suc, none, [], ◌==◌, if◌then◌else◌}
use xk6_otel_gen.Prelude.Int.{pos}
use xk6_otel_gen.Topology.Float.{Float64}
use xk6_otel_gen.Topology.Enums.{ServiceKind, Protocol, BackoffPolicy}
use xk6_otel_gen.Topology.Types.{
  Heap, Service, Operation, Edge, CallNodes, ServiceRef, OperationRef, EdgeRef,
}

-- The references below the three counters are taken, the others free.
pub record Store (F : Type 0) : Type 0 where
  pub heap : Heap F
  pub services : ℕ
  pub operations : ℕ
  pub edges : ℕ

-- The object of a reference is replaced.
abbrev pub update {ℓ} : {A : Type ℓ} → ℕ → A → (ℕ → A) → ℕ → A
update p object objects q = if p == q then object else objects q

module _ {F : Type 0} where
  abbrev pub put_edge : EdgeRef → Edge F → Store F → Store F
  put_edge e edge s = record s { heap = record s.heap { edge = update e edge s.heap.edge } }

  abbrev pub put_operation : OperationRef → Operation F → Store F → Store F
  put_operation op operation s = record s {
    heap = record s.heap { operation = update op operation s.heap.operation };
  }

  abbrev pub put_service : ServiceRef → Service F → Store F → Store F
  put_service svc service s = record s {
    heap = record s.heap { service = update svc service s.heap.service };
  }

  -- &Edge{…}: the new reference is the counter before the call.
  unfoldable pub new_edge : Edge F → Store F → Store F
  new_edge edge s = record (put_edge s.edges edge s) { edges = suc s.edges }

  unfoldable pub new_operation : Operation F → Store F → Store F
  new_operation operation s = record (put_operation s.operations operation s) {
    operations = suc s.operations;
  }

  unfoldable pub new_service : Service F → Store F → Store F
  new_service service s = record (put_service s.services service s) { services = suc s.services }

-- No object yet; what a free reference shows is never read.
module _ (fl : Float64) where
  open fl use {F, zero_f}

  abbrev zero_service : Service F
  zero_service = record {
    name = "";
    namespace = "";
    kind = ServiceKind.application;
    replicas = pos 0;
    language = "";
    framework = "";
    version = "";
    operations = [];
    metrics = [];
  }

  abbrev zero_operation : Operation F
  zero_operation = record {
    name = "";
    service = none;
    calls = CallNodes.end;
    log_events = [];
    metrics = [];
    state_updates = [];
    profile = none;
  }

  abbrev zero_edge : Edge F
  zero_edge = record {
    source = none;
    target = none;
    protocol = Protocol.http;
    latency = record { distribution = ""; p50 = pos 0; p95 = pos 0 };
    error_rate = zero_f;
    timeout = pos 0;
    retries = pos 0;
    retry_backoff = BackoffPolicy.exponential;
    retry_base_delay = pos 0;
    on_failure = none;
  }

  abbrev pub empty_store : Store F
  empty_store = record {
    heap = record {
      service = λ p. zero_service;
      operation = λ p. zero_operation;
      edge = λ p. zero_edge;
    };
    services = 0;
    operations = 0;
    edges = 0;
  }
