-- ===== src/Wal/Replay.antt =====
-- Replay of a log of pkg/metricstore/walCheckpoint.go that a crash has cut off.
use cc_backend.Common.{
  Result, ok, err, ◌>>=◌, bind-eq-ok, ℕ, zero, suc, ◌≤◌, ◌<◌, ◌≡◌, refl, sym, ap, ◌∙◌, Bool, true,
  false, not, Option, none, some, List, [], ◌∷◌, ◌++◌, map, append-nil, append_assoc, ltb, leb,
  ◌==◌, length, inl, inr, ◌≢◌, take, drop, if◌then◌else◌, arith, Bool-cases, length-append,
  take-append_le, drop-append_le, All, le→leb, gt→leb, leb→le,
}
use cc_backend.Bytes.{Bytes, put_le, get_le, split_at, length-put_le}
use cc_backend.Wal.{
  Encoding, WalMessage, WalError, wal_record_magic, max_payload, take_bytes, payload_size, payload,
  write_wal_record, parse_wal_payload, read_checked, read_wal_record, replay_loop, replay_records,
  write_wal_records, read_magic, read_length, read_payload, read_crc, too_large, crc_mismatch,
  invalid_magic,
}
use cc_backend.Wal.RoundTrip.{IsWritable, recorded, read-write_wal_record}

-- A reader that succeeds leaves over the bytes that are added behind its input.
abbrev Grows {ℓ} : {A : Type ℓ} → (Bytes → Result WalError (A × Bytes)) → Type ℓ
Grows {A = A} g =
    (bs more : Bytes) (a : A) (r : Bytes) → g bs ≡ ok (a, r) → g (bs ++ more) ≡ ok (a, r ++ more)

take_enough :
    (n : ℕ) (e : WalError) (bs : Bytes)
    → n ≤ length bs
    → take_bytes n e bs ≡ ok (take n bs, drop n bs)
unfolding take_bytes split_at
take_enough n e bs h = rw (le→leb n (length bs) h, take_bytes, split_at)

take_too_few : (n : ℕ) (e : WalError) (bs : Bytes) → length bs < n → take_bytes n e bs ≡ err e
unfolding take_bytes split_at
take_too_few n e bs h = rw (gt→leb n (length bs) h, take_bytes, split_at)

take-Grows : (n : ℕ) (e : WalError) → Grows (take_bytes n e)
take-Grows n e bs more a r h = elim (Bool-cases (leb n (length bs))) [
  | inl enough ↦
      let le = leb→le n (length bs) enough in
      take_enough n e (bs ++ more) (omega (arith, length-append bs more))
      ∙ rw (take-append_le n bs more le, drop-append_le n bs more le) (cc (take_enough n e bs le))
  | inr short ↦ cc (take_too_few n e bs (ground arith))
]

module _ {ℓ} {A B : Type ℓ} where
  bind-Grows :
      (g : Bytes → Result WalError (A × Bytes)) (k : A → Bytes → Result WalError (B × Bytes))
      → Grows g
      → ((a : A) → Grows (k a))
      → Grows (λ bs. g bs >>= λ x. k x.0 x.1)
  bind-Grows g k gg gk bs more b r h =
      let (x, e, h') = bind-eq-ok (g bs) _ h in rw (gg bs more x.0 x.1 e) (gk x.0 x.1 more b r h')

guard-Grows {ℓ} :
    {A : Type ℓ} (t : Bool) (e : WalError) (g : Bytes → Result WalError (A × Bytes))
    → Grows g
    → Grows (λ bs. if t then err e else g bs)
guard-Grows true e g gg bs more a r h = cc
guard-Grows false e g gg bs more a r h = gg bs more a r h

last-Grows {ℓ} :
    {A B : Type ℓ} (m : Result WalError A) (f : A → B) → Grows (λ bs. m >>= λ a. ok (f a, bs))
last-Grows (ok a) f bs more b r h = cc
last-Grows (err e) f bs more b r h = cc

module _ (en : Encoding) where
  open en use {Float, checksum}

  checked-Grows : (magic : Bytes) → Grows (read_checked en magic)
  unfolding read_checked
  checked-Grows magic = guard-Grows (not (get_le magic == wal_record_magic)) invalid_magic _ (
      bind-Grows (take_bytes 4 read_length) _ (take-Grows 4 read_length) λ len.
        guard-Grows (ltb max_payload (get_le len)) too_large _ (
          bind-Grows (take_bytes (get_le len) read_payload) _ (take-Grows (get_le len) read_payload)
            λ body. bind-Grows (take_bytes 4 read_crc) _ (take-Grows 4 read_crc) λ crc.
              guard-Grows (not (checksum body == get_le crc)) crc_mismatch _
                (last-Grows (parse_wal_payload en body) some)))

  read-append_more :
      (bs more : Bytes) {m : WalMessage Float} {r : Bytes}
      → read_wal_record en bs ≡ ok (some m, r)
      → read_wal_record en (bs ++ more) ≡ ok (some m, r ++ more)
  unfolding read_wal_record
  read-append_more [] more h = cc
  read-append_more (b ∷ bs) more {m} {r} h =
      bind-Grows (take_bytes 4 read_magic) (read_checked en) (take-Grows 4 read_magic) checked-Grows
        (b ∷ bs) more (some m) r h

  -- A record cut off before its end: the part of it that is there, and what is missing.
  pub record IsTorn (front : Bytes) : Type 1 where
    pub msg : WalMessage Float
    pub writable : IsWritable (payload_size en msg) msg
    pub lost : ℕ
    pub back : Bytes
    pub cut : write_wal_record en msg ≡ front ++ (lost ∷ back)

  torn-not_read :
      (front : Bytes)
      → IsTorn front
      → {m : WalMessage Float} {r : Bytes} → read_wal_record en front ≢ ok (some m, r)
  torn-not_read front t {m} {r} h =
      let more = read-append_more front (t.lost ∷ t.back) h in
      let whole = read-write_wal_record en t.msg [] t.writable in
      let same : ◌≡◌ {A = Result WalError (Option (WalMessage Float) × Bytes)}
          (ok (some m, r ++ (t.lost ∷ t.back))) (ok (some (recorded en t.msg), [])) =
        sym more
        ∙ ap (read_wal_record en) (sym t.cut ∙ sym (append-nil (write_wal_record en t.msg)))
        ∙ whole in
      let rest : r ++ (t.lost ∷ t.back) ≡ [] = cc in
      absurd (omega (arith, ap length rest, length-append r (t.lost ∷ t.back)))

  pub replay-torn : (fuel : ℕ) (front : Bytes) → IsTorn front → replay_loop en fuel front ≡ []
  unfolding replay_loop
  replay-torn zero front t = refl
  replay-torn (suc fuel) front t = go (read_wal_record en front) refl
    where
      go :
          (r : Result WalError (Option (WalMessage Float) × Bytes))
          → read_wal_record en front ≡ r
          → replay_loop en (suc fuel) front ≡ []
      go (err e) h = rw (h, replay_loop)
      go (ok (none, rest)) h = rw (h, replay_loop)
      go (ok (some m, rest)) h = absurd (torn-not_read front t h)

  replay-write :
      (msgs : List (WalMessage Float)) (front : Bytes) (fuel : ℕ)
      → All (λ m. IsWritable (payload_size en m) m) msgs
      → IsTorn front
      → length msgs ≤ fuel
      → replay_loop en fuel (write_wal_records en msgs ++ front) ≡ map (recorded en) msgs
  unfolding replay_loop write_wal_records
  replay-write [] front fuel h t enough = replay-torn fuel front t
  replay-write (m ∷ msgs) front zero h t enough = absurd (omega arith)
  replay-write (m ∷ msgs) front (suc fuel) (h, hs) t enough =
      rw
        (
          append_assoc (write_wal_record en m) (write_wal_records en msgs) front,
          read-write_wal_record en m (write_wal_records en msgs ++ front) h,
          replay_loop,
        )
        (ap (λ l. recorded en m ∷ l) (replay-write msgs front fuel hs t (omega arith)))

  pub length-write : (m : WalMessage Float) → 0 < length (write_wal_record en m)
  unfolding write_wal_record
  length-write m = omega (
    arith,
    length-append (put_le 4 wal_record_magic)
        (put_le 4 (payload_size en m) ++ (payload en m ++ put_le 4 (checksum (payload en m)))),
    length-put_le 4 wal_record_magic,
  )

  pub length-write_all :
      (msgs : List (WalMessage Float)) → length msgs ≤ length (write_wal_records en msgs)
  unfolding write_wal_records
  length-write_all [] = omega arith
  length-write_all (m ∷ msgs) = omega (
    arith,
    length-write_all msgs,
    length-write m,
    length-append (write_wal_record en m) (write_wal_records en msgs),
  )

  -- A log that a crash cut off inside a record, anywhere in it, replays exactly the records before
  -- that one, each as it was recorded and in the order in which it was written.
  pub replay-crash :
      (msgs : List (WalMessage Float)) (front : Bytes)
      → All (λ m. IsWritable (payload_size en m) m) msgs
      → IsTorn front
      → replay_records en (write_wal_records en msgs ++ front) ≡ map (recorded en) msgs
  unfolding replay_records
  replay-crash msgs front h t =
      replay-write msgs front _ h t
        (omega (arith, length-write_all msgs, length-append (write_wal_records en msgs) front))
