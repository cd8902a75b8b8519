-- ===== src/Wal/Channels/Tests.antt =====
-- Sends and receives on two channels of pkg/metricstore/walCheckpoint.go.
use cc_backend.Common.{ℕ, pos, ◌≡◌, refl, true, false, List, [], ◌∷◌, ◌++◌, length, get_or, arith}
use cc_backend.Bytes.{Bytes}
use cc_backend.Wal.{WalMessage}
use cc_backend.Wal.Channels.{
  Traffic, Action, send, receive, act_all, of_host, wal_shard_index, no_traffic,
}
use cc_backend.Wal.Channels.Order.{act_all-order}

-- A hash of the length of the name, in place of FNV.
abbrev hash : Bytes → ℕ
hash bs = length bs

abbrev from : Bytes → ℕ → WalMessage ℕ
from node v = record {
  metric_name = b'f' ∷ [];
  cluster = b'c' ∷ [];
  node = node;
  selector = [];
  value = v;
  timestamp = pos v;
}

-- The host b shares the channel with a, and cc has the other one. The channel is full at the third
-- message, and the last message comes during a checkpoint.
abbrev actions : List (Action ℕ)
actions =
    send false false (from (b'a' ∷ []) 1)
    ∷ send false false (from (b'b' ∷ []) 2)
    ∷ send false false (from (b'a' ∷ []) 3)
    ∷ receive 1
    ∷ send false false (from (b'a' ∷ []) 4)
    ∷ send false false (from (b'c' ∷ b'c' ∷ []) 5)
    ∷ send false true (from (b'a' ∷ []) 6)
    ∷ []

taken_first : (act_all hash 2 2 (no_traffic 2) actions).taken ≡ from (b'a' ∷ []) 1 ∷ []
unfolding act_all cc_backend.Wal.Channels.act cc_backend.Wal.Channels.send_wal_message
    cc_backend.Wal.Channels.receive_message wal_shard_index
taken_first = refl

act_all-order_example :
    let t = act_all hash 2 2 (no_traffic 2) actions in
    of_host (b'c' ∷ []) (b'a' ∷ []) t.sent
    ≡ of_host (b'c' ∷ []) (b'a' ∷ []) t.taken
      ++ of_host
          (b'c' ∷ [])
          (b'a' ∷ [])
          (get_or t.queues (wal_shard_index hash 2 (b'c' ∷ []) (b'a' ∷ [])) [])
act_all-order_example = act_all-order hash 2 2 (b'c' ∷ []) (b'a' ∷ []) actions (omega arith)
