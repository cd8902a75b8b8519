-- ===== src/Wal/Channels.antt =====
-- The channels of the shards of pkg/metricstore/walCheckpoint.go: `SendWALMessage` puts a message
-- into the channel of its host, and the goroutine of a shard takes messages out of it. The hash is
-- the FNV of the standard library. The channels are there, as WALStaging makes them.
pub mod Order
mod Tests
use cc_backend.Common.{
  ℕ, zero, suc, ◌+◌, ◌-◌, ◌*◌, ◌/◌, ◌%◌, ◌^◌, ◌≤◌, ◌<◌, ℤ, pos, negsuc, sub_ℕ, pos_part, neg_part,
  ltb_ℤ, leb_ℤ, ◌≤ℤ◌, ◌<ℤ◌, ◌+ℤ◌, ◌-ℤ◌, ◌≡◌, refl, sym, ap, ◌∙◌, Bool, true, false, not, ◌&&◌, ◌||◌,
  Option, none, some, List, [], ◌∷◌, ◌++◌, map, append-nil, append_assoc, ltb, leb, ◌==◌, length,
  get_elem?, ◌⊎◌, inl, inr, ◌↔◌, ◌≢◌, get_or, set, replicate, take, drop, if◌then◌else◌, arith,
  int_laws, Bool-cases, Option-cases, length-append, length-replicate, length-set, All, All-append,
  le→leb, gt→leb, lt→ltb, ge→ltb, ltb→lt, leb→le, ==_iff,
}
use native.Mathlib.Nat.{mod-lt}
use cc_backend.Bytes.{Bytes, key_eq, key_eq_iff}
use cc_backend.Wal.{WalMessage}
use cc_backend.Store.Keep.{All-set, get_or-All}

-- The channels, oldest message first, with the messages that went into one so far and those that
-- were taken out of one.
pub record Traffic (F : Type 0) : Type 0 where
  pub queues : List (List (WalMessage F))
  pub sent : List (WalMessage F)
  pub taken : List (WalMessage F)

-- A call of SendWALMessage, with walShuttingDown and walCheckpointActive, or a receive of a shard.
pub data Action (F : Type 0) : Type 0 where
  send : Bool → Bool → WalMessage F → Action F
  receive : ℕ → Action F

-- The channels at the start.
abbrev pub no_traffic : {F : Type 0} → ℕ → Traffic F
no_traffic shards = record { queues = replicate shards []; sent = []; taken = [] }

unfoldable pub wal_shard_index : (Bytes → ℕ) → ℕ → Bytes → Bytes → ℕ
wal_shard_index hash shards cluster node = hash (cluster ++ 0 ∷ node) % shards

module _ {F : Type 0} where
  unfoldable pub receive_message : ℕ → Traffic F → Traffic F
  receive_message shard t = elim (get_or t.queues shard []) [
    | [] ↦ t
    | msg ∷ rest ↦ record {
      queues = set t.queues shard rest;
      sent = t.sent;
      taken = t.taken ++ msg ∷ [];
    }
  ]

  -- The messages of a host.
  unfoldable pub of_host : Bytes → Bytes → List (WalMessage F) → List (WalMessage F)
  of_host cluster node [] = []
  of_host cluster node (msg ∷ msgs) =
      let rest = of_host cluster node msgs in
      if key_eq msg.cluster cluster && key_eq msg.node node then msg ∷ rest else rest

  module _ (hash : Bytes → ℕ) (shards capacity : ℕ) where
    unfoldable pub send_wal_message : Bool → Bool → WalMessage F → Traffic F → Traffic F × Bool
    send_wal_message shutting_down checkpoint msg t =
        let shard = wal_shard_index hash shards msg.cluster msg.node in
        let queue = get_or t.queues shard [] in
        if shutting_down
        then (t, false)
        else if checkpoint
        then (t, true)
        else if ltb (length queue) capacity
        then (
          record {
            queues = set t.queues shard (queue ++ msg ∷ []);
            sent = t.sent ++ msg ∷ [];
            taken = t.taken;
          },
          true,
        )
        else (t, false)

    unfoldable pub act : Traffic F → Action F → Traffic F
    act t (send shutting_down checkpoint msg) = (send_wal_message shutting_down checkpoint msg t).0
    act t (receive shard) = receive_message shard t

    unfoldable pub act_all : Traffic F → List (Action F) → Traffic F
    act_all t [] = t
    act_all t (a ∷ actions) = act_all (act t a) actions
