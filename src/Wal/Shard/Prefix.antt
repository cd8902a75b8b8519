-- ===== src/Wal/Shard/Prefix.antt =====
-- A replay of a part of the log of pkg/metricstore/walCheckpoint.go, cut off at any byte.
use cc_backend.Common.{
  ℕ, zero, suc, ◌≤◌, ◌≡◌, refl, ap, ◌∙◌, List, [], ◌∷◌, ◌++◌, map, length, ◌⊎◌, inl, inr, take,
  arith, length-append, All,
}
use cc_backend.Bytes.{Bytes}
use cc_backend.Wal.{
  Encoding, WalMessage, payload_size, write_wal_record, write_wal_records, read_wal_record,
  replay_loop,
}
use cc_backend.Wal.RoundTrip.{IsWritable, recorded, read-write_wal_record}
use cc_backend.Wal.Replay.{replay-torn, length-write}

-- Two ways to cut a list: behind its first part, or inside of it.
pub cuts :
    (xs ys us vs : Bytes)
    → xs ++ ys ≡ us ++ vs
    → ((xs' : Bytes) × (xs ≡ us ++ xs') × (xs' ++ ys ≡ vs))
      ⊎ ((lost : ℕ) × (back : Bytes) × (us ≡ xs ++ (lost ∷ back)))
cuts xs ys [] vs e = inl (xs, refl, e)
cuts [] ys (u ∷ us) vs e = inr (u, us, refl)
cuts (x ∷ xs) ys (u ∷ us) vs e =
    let here : x ≡ u = cc in
    let tail : xs ++ ys ≡ us ++ vs = cc in
    elim (cuts xs ys us vs tail) [
      | inl (xs', p, q) ↦ inl (xs', cc, q)
      | inr (lost, back, p) ↦ inr (lost, back, cc)
    ]

module _ (en : Encoding) where
  open en use {Float}

  -- A part `xs` of the log replays some of the messages, all of them where nothing is missing.
  abbrev pub Replays : ℕ → List (WalMessage Float) → Bytes → Bytes → Type 0
  Replays fuel msgs xs ys =
      (k : ℕ) × (replay_loop en fuel xs ≡ map (recorded en) (take k msgs))
      × (ys ≡ [] → take k msgs ≡ msgs)

  pub replay-cut :
      (msgs : List (WalMessage Float)) (xs ys : Bytes) (fuel : ℕ)
      → All (λ m. IsWritable (payload_size en m) m) msgs
      → xs ++ ys ≡ write_wal_records en msgs
      → length xs ≤ fuel
      → Replays fuel msgs xs ys
  unfolding write_wal_records replay_loop read_wal_record
  replay-cut [] [] ys zero h e enough = (0, refl, λ q. refl)
  replay-cut [] [] ys (suc fuel) h e enough = (0, refl, λ q. refl)
  replay-cut [] (x ∷ xs) ys fuel h e enough = absurd (omega (arith, ap length e))
  replay-cut (m ∷ msgs) xs ys zero (h, hs) e enough = (
    0,
    refl,
    λ q. absurd (
        omega (
          arith,
          ap length e,
          length-append xs ys,
          ap length q,
          length-append (write_wal_record en m) (write_wal_records en msgs),
          length-write en m,
        )),
  )
  replay-cut (m ∷ msgs) xs ys (suc fuel) (h, hs) e enough =
      elim (cuts xs ys (write_wal_record en m) (write_wal_records en msgs) e) [
        | inl (xs', p, q) ↦
            let (k, same, all) = replay-cut msgs xs' ys fuel hs q (
              omega (
                arith,
                length-write en m,
                ap length p,
                length-append (write_wal_record en m) xs',
              )) in
            (
              suc k,
              ap (replay_loop en (suc fuel)) p
                  ∙ rw (read-write_wal_record en m xs' h, replay_loop)
                      (ap (λ l. recorded en m ∷ l) same),
              λ e'. ap (λ l. m ∷ l) (all e'),
            )
        | inr (lost, back, p) ↦ (
          0,
          replay-torn en (suc fuel) xs
              (record { msg = m; writable = h; lost = lost; back = back; cut = p }),
          λ q. absurd (
              omega (
                arith,
                ap length e,
                length-append xs ys,
                ap length q,
                length-append (write_wal_record en m) (write_wal_records en msgs),
                ap length p,
                length-append xs (lost ∷ back),
              )),
        )
      ]
