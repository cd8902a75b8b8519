-- ===== src/HealthCheck/Tests.antt =====
-- Runs of pkg/metricstore/healthcheck.go on a node with one metric that is stale.
use cc_backend.Common.{ℕ, pos, ◌≡◌, false, not, ◌&&◌, Option, none, some, [], ◌∷◌, if◌then◌else◌}
use cc_backend.Bytes.{Bytes, key_eq}
use cc_backend.Buffer.{Buffer}
use cc_backend.Level.{Level, level, nil, cons, find_level}
use cc_backend.HealthCheck.{mem, check_node, collect_metric_status}
use cc_backend.HealthCheck.Grades.{
  seen, stale, node_verdict, collect_metric_status_lem, check_node_lem,
}

abbrev buffer_at : ℕ → Buffer ℕ
buffer_at start = record {
  contents = 1 ∷ 2 ∷ [];
  cap = 4;
  frequency = 10;
  start = pos start;
  archived = false;
  closed = false;
  last_used = pos 0;
}

abbrev flops : Bytes
flops = b'f' ∷ []

abbrev load : Bytes
load = b'l' ∷ []

abbrev offset : Bytes → Option ℕ
offset name = if key_eq name flops then some 0 else if key_eq name load then some 1 else none

abbrev host : Level ℕ
host = level nil ((buffer_at 100 ∷ []) ∷ (buffer_at 20 ∷ []) ∷ [])

abbrev root : Level ℕ
root =
    level (cons (b'c' ∷ []) (level (cons (b'h' ∷ []) host nil) ([] ∷ [] ∷ [])) nil) ([] ∷ [] ∷ [])

collect_metric_status_example :
    (mem load
        (collect_metric_status offset
          (pos 140)
          (flops ∷ load ∷ [])
          host
          (record { healthy = []; degraded = [] })).degraded
      ≡ (mem load (flops ∷ load ∷ []) && stale offset (pos 140) load host))
    × (mem load
          (collect_metric_status offset
            (pos 140)
            (flops ∷ load ∷ [])
            host
            (record { healthy = []; degraded = [] })).healthy
        ≡ (mem load (flops ∷ load ∷ [])
            && (seen offset (pos 140) load host && not (stale offset (pos 140) load host))))
collect_metric_status_example =
    collect_metric_status_lem offset (pos 140) load (flops ∷ load ∷ []) host

check_node_example :
    check_node offset (pos 140) root (b'c' ∷ []) (b'h' ∷ []) (flops ∷ load ∷ [])
    ≡ node_verdict offset
        (pos 140)
        (flops ∷ load ∷ [])
        (find_level root ((b'c' ∷ []) ∷ (b'h' ∷ []) ∷ []))
check_node_example =
    check_node_lem offset (pos 140) root (b'c' ∷ []) (b'h' ∷ []) (flops ∷ load ∷ [])
