-- ===== src/LineProtocol/Ingest.antt =====
-- What the samples of `DecodeLine` of pkg/metricstore/lineprotocol.go do to the store.
use cc_backend.Common.{ℕ, List, [], ◌∷◌, ◌++◌}
use cc_backend.Buffer.{Floats, Pool}
use cc_backend.Buffer.Chain.{IsPool, IsChain}
use cc_backend.Level.{Level, find_level_or_create}
use cc_backend.Level.Free.Books.{AllChains}
use cc_backend.Store.{write_to_level}
use cc_backend.Store.Keep.{create-AllChains, write_to_level-IsChain}
use cc_backend.LineProtocol.{Event, get_level, sample, ingest}

module _ (fl : Floats) (n : ℕ) where
  open fl use {Float}

  -- Whatever samples arrive, the store keeps every chain of the tree and the pool well formed.
  ingest-IsChain :
      (pool : Pool Float) (root : Level Float) (events : List (Event Float))
      → IsPool pool
      → AllChains IsChain root
      → IsPool (ingest fl n pool root events).0 × AllChains IsChain (ingest fl n pool root events).1
  unfolding ingest
  ingest-IsChain pool root [] h k = (h, k)
  ingest-IsChain pool root (get_level path ∷ events) h k =
      ingest-IsChain pool (find_level_or_create root path n) events h
        (create-AllChains IsChain tt root path n k)
  ingest-IsChain pool root (sample s ∷ events) h k =
      let r = write_to_level fl n pool root (s.path ++ s.selector) s.timestamp (s.metric ∷ []) in
      let kept =
        write_to_level-IsChain fl n pool root (s.path ++ s.selector) s.timestamp (s.metric ∷ []) h
          k in
      ingest-IsChain r.pool r.left events kept.0 kept.1
