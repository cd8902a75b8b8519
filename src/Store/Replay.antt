-- ===== src/Store/Replay.antt =====
-- The effect of `loadWALFile` of pkg/metricstore/walCheckpoint.go on the level of a host. A pointer to
-- a level is the path to it from there.
pub mod Cache
pub mod Writes
pub mod Crash
mod Tests
use cc_backend.Common.{
  ℕ, zero, suc, ◌+◌, ◌-◌, ◌*◌, ◌/◌, ◌%◌, ◌^◌, ◌≤◌, ◌<◌, ℤ, pos, negsuc, sub_ℕ, pos_part, neg_part,
  ltb_ℤ, leb_ℤ, ◌≤ℤ◌, ◌<ℤ◌, ◌+ℤ◌, ◌-ℤ◌, ◌≡◌, refl, sym, ap, ◌∙◌, Bool, true, false, not, ◌&&◌, ◌||◌,
  Option, none, some, List, [], ◌∷◌, ◌++◌, map, append-nil, append_assoc, ltb, leb, ◌==◌, length,
  get_elem?, ◌⊎◌, inl, inr, ◌↔◌, ◌≢◌, get_or, set, replicate, take, drop, if◌then◌else◌, arith,
  int_laws, Bool-cases, Option-cases, length-append, length-replicate, length-set, All, All-append,
  le→leb, gt→leb, lt→ltb, ge→ltb, ltb→lt, leb→le, ==_iff,
}
use cc_backend.Bytes.{Bytes, key_eq}
use cc_backend.Buffer.{Floats, Buffer, Pool}
use cc_backend.Level.{Level, metrics, find_level, find_level_or_create}
use cc_backend.Store.{Metric, Outcome, open_chain, replace_metrics, write_chain, write_to_level}
use cc_backend.Wal.{Encoding, WalMessage}
use cc_backend.Wal.Shard.{load_wal_file}

-- The rest of the loop, and the key of a selector.
unfoldable pub join_rest : List Bytes → Bytes
join_rest [] = []
join_rest (s ∷ sel) = 0 ∷ (s ++ join_rest sel)

unfoldable pub join_selector : List Bytes → Bytes
join_selector [] = []
join_selector (s ∷ sel) = s ++ join_rest sel

-- lvlCache
abbrev pub LevelCache : Type 0
LevelCache = List (Bytes × List Bytes)

unfoldable pub look_up : Bytes → LevelCache → Option (List Bytes)
look_up key [] = none
look_up key ((k, path) ∷ cache) = if key_eq k key then some path else look_up key cache

pub record ReplayState (F : Type 0) : Type 0 where
  pub pool : Pool F
  pub tree : Level F
  pub cache : LevelCache

module _ (fl : Floats) where
  open fl use {Float}

  -- Behind the look-up of the level: its pool and its chains.
  unfoldable pub write_sample :
      Pool Float
      → List (List (Buffer Float))
      → ℕ × ℕ
      → ℤ
      → Float
      → Pool Float × List (List (Buffer Float))
  write_sample pool ms config ts v =
      let (p, c) = open_chain pool (get_or ms config.0 []) ts config.1 in
      elim (write_chain fl p c ts v) [
        | none ↦ (p, set ms config.0 c)
        | some (p', c') ↦ (p', set ms config.0 c')
      ]

  unfoldable pub write_at :
      Pool Float → Level Float → List Bytes → ℕ × ℕ → ℤ → Float → Pool Float × Level Float
  write_at pool tree path config ts v = elim (find_level tree path) [
    | none ↦ (pool, tree)
    | some l ↦
        (let (p, ms) = write_sample pool (metrics l) config ts v in
          (p, replace_metrics tree path ms))
  ]

-- `retained` is the look-up in m.Metrics, with the offset and the frequency, and `n` their number.
module _ (fl : Floats) (n : ℕ) (retained : Bytes → Option (ℕ × ℕ)) (from : ℤ) where
  open fl use {Float}

  -- The body of the loop for a message.
  unfoldable pub replay_message : ReplayState Float → WalMessage Float → ReplayState Float
  replay_message st msg = if ltb_ℤ msg.timestamp from then st else elim (retained msg.metric_name) [
    | none ↦ st
    | some config ↦ elim (look_up (join_selector msg.selector) st.cache) [
      | some path ↦
          (let (p, t) = write_at fl st.pool st.tree path config msg.timestamp msg.value in
            record { pool = p; tree = t; cache = st.cache })
      | none ↦
          (let (p, t) =
              write_at fl st.pool (find_level_or_create st.tree msg.selector n) msg.selector config
                msg.timestamp msg.value in
            record {
              pool = p;
              tree = t;
              cache = (join_selector msg.selector, msg.selector) ∷ st.cache;
            })
    ]
  ]

  unfoldable pub replay_messages : ReplayState Float → List (WalMessage Float) → ReplayState Float
  replay_messages st [] = st
  replay_messages st (msg ∷ msgs) = replay_messages (replay_message st msg) msgs

-- The encoding of the floats of the store.
pub record Codec (F : Type 0) : Type 0 where
  pub to_bits : F → ℕ
  pub from_bits : ℕ → F
  pub checksum : Bytes → ℕ
  pub to_bits_lt : (v : F) → to_bits v < 2 ^ 32
  pub checksum_lt : (bs : Bytes) → checksum bs < 2 ^ 32

abbrev pub encoding : {F : Type 0} → Codec F → Encoding
encoding {F} c = record {
  Float = F;
  to_bits = c.to_bits;
  from_bits = c.from_bits;
  checksum = c.checksum;
  to_bits_lt = c.to_bits_lt;
  checksum_lt = c.checksum_lt;
}

-- `loadWALFile` on the bytes of the file: `none` is an error, and nothing is written.
unfoldable pub load_wal :
    (fl : Floats)
    → Codec (Floats.Float fl)
    → ℕ
    → (Bytes → Option (ℕ × ℕ))
    → ℤ
    → Pool (Floats.Float fl)
    → Level (Floats.Float fl)
    → Bytes
    → Option (Pool (Floats.Float fl) × Level (Floats.Float fl))
load_wal fl codec n retained from pool tree bytes = elim (load_wal_file (encoding codec) bytes) [
  | none ↦ none
  | some msgs ↦
      (let st =
          replay_messages fl n retained from (record { pool = pool; tree = tree; cache = [] })
            msgs in
        some (st.pool, st.tree))
]
