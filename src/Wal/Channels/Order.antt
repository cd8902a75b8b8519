-- ===== src/Wal/Channels/Order.antt =====
-- The order of the messages in the channels of pkg/metricstore/walCheckpoint.go.
use cc_backend.Common.{
  ℕ, zero, suc, ◌<◌, ◌≡◌, refl, sym, ap, ◌∙◌, Bool, true, false, ◌&&◌, List, [], ◌∷◌, ◌++◌,
  append-nil, append_assoc, ltb, ◌==◌, length, inl, inr, ◌≢◌, get_or, set, replicate, arith,
  Bool-cases, length-replicate, length-set, ==_iff,
}
use native.Mathlib.Nat.{mod-lt}
use cc_backend.Bytes.{Bytes, key_eq, key_eq_iff}
use cc_backend.Wal.{WalMessage}
use cc_backend.Wal.Channels.{
  Traffic, Action, send, receive, no_traffic, wal_shard_index, receive_message, of_host,
  send_wal_message, act, act_all,
}

wal_shard_index-lt :
    (hash : Bytes → ℕ) (shards : ℕ) (cluster node : Bytes)
    → 0 < shards
    → wal_shard_index hash shards cluster node < shards
unfolding wal_shard_index
wal_shard_index-lt hash shards cluster node h = mod-lt (hash (cluster ++ 0 ∷ node)) h

module _ {F : Type 0} where
  of_host-append :
      (cluster node : Bytes) (xs ys : List (WalMessage F))
      → of_host cluster node (xs ++ ys) ≡ of_host cluster node xs ++ of_host cluster node ys
  unfolding of_host
  of_host-append cluster node [] ys = refl
  of_host-append cluster node (x ∷ xs) ys =
      elim (Bool-cases (key_eq x.cluster cluster && key_eq x.node node)) [
        | inl own ↦ rw own (ap (λ l. x ∷ l) (of_host-append cluster node xs ys))
        | inr other ↦ rw other (of_host-append cluster node xs ys)
      ]

get_or-set_same :
    {A : Type 0} (xs : List A) (i : ℕ) (v d : A) → i < length xs → get_or (set xs i v) i d ≡ v
get_or-set_same [] i v d h = absurd (omega arith)
get_or-set_same (x ∷ xs) zero v d h = refl
get_or-set_same (x ∷ xs) (suc i) v d h = get_or-set_same xs i v d (omega arith)

get_or-set_other :
    {A : Type 0} (xs : List A) (i j : ℕ) (v d : A) → i ≢ j → get_or (set xs i v) j d ≡ get_or xs j d
get_or-set_other [] i j v d h = refl
get_or-set_other (x ∷ xs) zero zero v d h = absurd (h refl)
get_or-set_other (x ∷ xs) zero (suc j) v d h = refl
get_or-set_other (x ∷ xs) (suc i) zero v d h = refl
get_or-set_other (x ∷ xs) (suc i) (suc j) v d h = get_or-set_other xs i j v d (λ e. h (ap suc e))

get_or-length :
    {A : Type 0} (xs : List (List A)) (i : ℕ) {x : A} {rest : List A}
    → get_or xs i [] ≡ x ∷ rest
    → i < length xs
get_or-length [] i e = cc
get_or-length (y ∷ xs) zero e = omega arith
get_or-length (y ∷ xs) (suc i) e = omega (arith, get_or-length xs i e)

module _ {F : Type 0} (hash : Bytes → ℕ) (shards capacity : ℕ) (cluster node : Bytes) where
  -- The messages of the host that went in are those that came out and those in its channel, in this
  -- order, and no other channel has one.
  record IsFifo (t : Traffic F) : Type 0 where
    size : length t.queues ≡ shards
    order :
        of_host cluster node t.sent
        ≡ of_host cluster node t.taken
          ++ of_host cluster node (get_or t.queues (wal_shard_index hash shards cluster node) [])
    elsewhere :
        (i : ℕ)
        → i ≢ wal_shard_index hash shards cluster node
        → of_host cluster node (get_or t.queues i []) ≡ []

  of_one : WalMessage F → List (WalMessage F)
  of_one msg = of_host cluster node (msg ∷ [])

  -- A message of another shard is not one of the host.
  other_shard :
      (msg : WalMessage F)
      → wal_shard_index hash shards msg.cluster msg.node ≢ wal_shard_index hash shards cluster node
      → of_one msg ≡ []
  unfolding of_one of_host
  other_shard msg h = elim (Bool-cases (key_eq msg.cluster cluster && key_eq msg.node node)) [
    | inr other ↦ rw other refl
    | inl own ↦ absurd (h (same_host own))
  ]
    where
      both : (a b : Bool) → (a && b) ≡ true → (a ≡ true) × (b ≡ true)
      both true true e = (refl, refl)
      both true false e = cc
      both false b e = cc

      same_host :
          (key_eq msg.cluster cluster && key_eq msg.node node) ≡ true
          → wal_shard_index hash shards msg.cluster msg.node
            ≡ wal_shard_index hash shards cluster node
      same_host own =
          let (c, n) = both (key_eq msg.cluster cluster) (key_eq msg.node node) own in
          let same_cluster = (key_eq_iff msg.cluster cluster).0 c in
          let same_node = (key_eq_iff msg.node node).0 n in rw (same_cluster, same_node) refl

  push : Traffic F → WalMessage F → Traffic F
  push t msg =
      let shard = wal_shard_index hash shards msg.cluster msg.node in
      record {
        queues = set t.queues shard (get_or t.queues shard [] ++ msg ∷ []);
        sent = t.sent ++ msg ∷ [];
        taken = t.taken;
      }

  push-IsFifo : (t : Traffic F) (msg : WalMessage F) → 0 < shards → IsFifo t → IsFifo (push t msg)
  unfolding push of_one
  push-IsFifo t msg some_shard k =
      let shard = wal_shard_index hash shards msg.cluster msg.node in
      let home = wal_shard_index hash shards cluster node in
      let q = get_or t.queues shard [] in
      let size' = length-set t.queues shard (q ++ msg ∷ []) ∙ k.size in
      let fits : shard < length t.queues =
        rw (k.size) (wal_shard_index-lt hash shards msg.cluster msg.node some_shard) in
      elim (Bool-cases (shard == home)) [
        | inl e ↦
            (let same = (==_iff shard home).0 e in
              let own_queue : get_or t.queues home [] ≡ q =
                ap (λ i. get_or t.queues i []) (sym same) in
              record {
                size = size';
                order =
                    of_host-append cluster node t.sent (msg ∷ [])
                    ∙ ap (λ l. l ++ of_one msg)
                        (k.order
                          ∙ ap (λ l. of_host cluster node t.taken ++ of_host cluster node l)
                              own_queue)
                    ∙ append_assoc (of_host cluster node t.taken) (of_host cluster node q)
                        (of_one msg)
                    ∙ ap (λ l. of_host cluster node t.taken ++ l)
                        (sym (of_host-append cluster node q (msg ∷ []))
                          ∙ ap (of_host cluster node) (
                              sym (get_or-set_same t.queues shard (q ++ msg ∷ []) [] fits)
                              ∙ ap (λ i. get_or (set t.queues shard (q ++ msg ∷ [])) i []) same));
                elsewhere = λ i h.
                    ap (of_host cluster node) (
                      get_or-set_other t.queues shard i (q ++ msg ∷ []) []
                        (λ e'. h (sym e' ∙ same)))
                    ∙ k.elsewhere i h;
              })
        | inr e ↦
            (let differ : shard ≢ home = λ same. (let yes = (==_iff shard home).1 same in cc) in
              let none_of = other_shard msg differ in
              record {
                size = size';
                order =
                    of_host-append cluster node t.sent (msg ∷ [])
                    ∙ ap (λ l. of_host cluster node t.sent ++ l) none_of
                    ∙ append-nil (of_host cluster node t.sent)
                    ∙ k.order
                    ∙ ap (λ l. of_host cluster node t.taken ++ of_host cluster node l)
                        (sym (get_or-set_other t.queues shard home (q ++ msg ∷ []) [] differ));
                elsewhere = λ i h. elim (Bool-cases (shard == i)) [
                  | inl here ↦
                      (let at_shard = (==_iff shard i).0 here in
                        ap
                          (λ j.
                            of_host cluster node (get_or (set t.queues shard (q ++ msg ∷ [])) j []))
                          (sym at_shard)
                        ∙ ap (of_host cluster node)
                            (get_or-set_same t.queues shard (q ++ msg ∷ []) [] fits)
                        ∙ of_host-append cluster node q (msg ∷ [])
                        ∙ ap (λ l. of_host cluster node q ++ l) none_of
                        ∙ append-nil (of_host cluster node q)
                        ∙ k.elsewhere shard differ)
                  | inr there ↦
                      ap (of_host cluster node) (
                        get_or-set_other t.queues shard i (q ++ msg ∷ []) []
                          (λ e'. (let yes = (==_iff shard i).1 e' in cc)))
                      ∙ k.elsewhere i h
                ];
              })
      ]

  nil_parts : (xs ys : List (WalMessage F)) → xs ++ ys ≡ [] → (xs ≡ []) × (ys ≡ [])
  nil_parts [] ys e = (refl, e)
  nil_parts (x ∷ xs) ys e = cc

  pop-IsFifo :
      (t : Traffic F) (shard : ℕ) (msg : WalMessage F) (rest : List (WalMessage F))
      → get_or t.queues shard [] ≡ msg ∷ rest
      → IsFifo t
      → IsFifo
          (record { queues = set t.queues shard rest; sent = t.sent; taken = t.taken ++ msg ∷ [] })
  unfolding of_one
  pop-IsFifo t shard msg rest e k =
      let home = wal_shard_index hash shards cluster node in
      let fits = get_or-length t.queues shard e in
      let size' = length-set t.queues shard rest ∙ k.size in
      let queue : of_host cluster node (get_or t.queues shard [])
          ≡ of_one msg ++ of_host cluster node rest =
        ap (of_host cluster node) e ∙ of_host-append cluster node (msg ∷ []) rest in
      let left : get_or (set t.queues shard rest) shard [] ≡ rest =
        get_or-set_same t.queues shard rest [] fits in
      elim (Bool-cases (shard == home)) [
        | inl own ↦
            (let same = (==_iff shard home).0 own in
              record {
                size = size';
                order =
                    k.order
                    ∙ ap (λ l. of_host cluster node t.taken ++ l)
                        (ap (λ i. of_host cluster node (get_or t.queues i [])) (sym same) ∙ queue)
                    ∙ sym (
                        append_assoc (of_host cluster node t.taken) (of_one msg)
                          (of_host cluster node rest))
                    ∙ ap (λ l. l ++ of_host cluster node rest)
                        (sym (of_host-append cluster node t.taken (msg ∷ [])))
                    ∙ ap (λ l. of_host cluster node (t.taken ++ msg ∷ []) ++ of_host cluster node l)
                        (sym left ∙ ap (λ i. get_or (set t.queues shard rest) i []) same);
                elsewhere = λ i h.
                    ap (of_host cluster node)
                      (get_or-set_other t.queues shard i rest [] (λ e'. h (sym e' ∙ same)))
                    ∙ k.elsewhere i h;
              })
        | inr other ↦
            (let differ : shard ≢ home = λ same. (let yes = (==_iff shard home).1 same in cc) in
              let (none_of, none_left) =
                nil_parts (of_one msg) (of_host cluster node rest)
                  (sym queue ∙ k.elsewhere shard differ) in
              record {
                size = size';
                order =
                    k.order
                    ∙ ap (λ l. l ++ of_host cluster node (get_or t.queues home []))
                        (sym (
                          of_host-append cluster node t.taken (msg ∷ [])
                          ∙ ap (λ l. of_host cluster node t.taken ++ l) none_of
                          ∙ append-nil (of_host cluster node t.taken)))
                    ∙ ap (λ l. of_host cluster node (t.taken ++ msg ∷ []) ++ of_host cluster node l)
                        (sym (get_or-set_other t.queues shard home rest [] differ));
                elsewhere = λ i h. elim (Bool-cases (shard == i)) [
                  | inl here ↦
                      ap (λ j. of_host cluster node (get_or (set t.queues shard rest) j []))
                        (sym ((==_iff shard i).0 here))
                      ∙ ap (of_host cluster node) left
                      ∙ none_left
                  | inr there ↦
                      ap (of_host cluster node) (
                        get_or-set_other t.queues shard i rest []
                          (λ e'. (let yes = (==_iff shard i).1 e' in cc)))
                      ∙ k.elsewhere i h
                ];
              })
      ]

  receive-IsFifo : (t : Traffic F) (shard : ℕ) → IsFifo t → IsFifo (receive_message shard t)
  unfolding receive_message
  receive-IsFifo t shard k = go (get_or t.queues shard []) refl
    where
      go :
          (q : List (WalMessage F))
          → get_or t.queues shard [] ≡ q
          → IsFifo (receive_message shard t)
      go [] e = rw (receive_message, e) k
      go (msg ∷ rest) e = rw (receive_message, e) (pop-IsFifo t shard msg rest e k)

  act-IsFifo :
      (t : Traffic F) (a : Action F) → 0 < shards → IsFifo t → IsFifo (act hash shards capacity t a)
  unfolding act send_wal_message push
  act-IsFifo t (send true checkpoint msg) h k = k
  act-IsFifo t (send false true msg) h k = k
  act-IsFifo t (send false false msg) h k =
      elim (Bool-cases (
        ltb (length (get_or t.queues (wal_shard_index hash shards msg.cluster msg.node) []))
          capacity)) [
            | inl room ↦ rw (act, send_wal_message, room) (push-IsFifo t msg h k)
            | inr full ↦ rw (act, send_wal_message, full) k
          ]
  act-IsFifo t (receive shard) h k = receive-IsFifo t shard k

  act_all-IsFifo :
      (t : Traffic F) (actions : List (Action F))
      → 0 < shards
      → IsFifo t
      → IsFifo (act_all hash shards capacity t actions)
  unfolding act_all
  act_all-IsFifo t [] h k = k
  act_all-IsFifo t (a ∷ actions) h k =
      act_all-IsFifo (act hash shards capacity t a) actions h (act-IsFifo t a h k)

  nil_at : (n i : ℕ) → get_or {A = List (WalMessage F)} (replicate n []) i [] ≡ []
  nil_at zero i = refl
  nil_at (suc n) zero = refl
  nil_at (suc n) (suc i) = nil_at n i

  of_nil :
      (n i : ℕ) → of_host cluster node (get_or {A = List (WalMessage F)} (replicate n []) i []) ≡ []
  unfolding of_host
  of_nil n i = ap (of_host cluster node) (nil_at n i)

  no_traffic-IsFifo : IsFifo (no_traffic shards)
  unfolding of_host
  no_traffic-IsFifo = record {
    size = length-replicate shards [];
    order = sym (of_nil shards _);
    elsewhere = λ i h'. of_nil shards i;
  }

  -- However sends and receives interleave, the messages of a host that a shard took, followed by
  -- those in the channel of the host, are the messages of the host that went into a channel, in
  -- their order: the log of a host is written in the order of its samples.
  pub act_all-order :
      (actions : List (Action F))
      → 0 < shards
      → let t = act_all hash shards capacity (no_traffic shards) actions in
        of_host cluster node t.sent
        ≡ of_host cluster node t.taken
          ++ of_host cluster node (get_or t.queues (wal_shard_index hash shards cluster node) [])
  act_all-order actions h = (act_all-IsFifo (no_traffic shards) actions h no_traffic-IsFifo).order
