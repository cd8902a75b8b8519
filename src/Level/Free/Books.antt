-- ===== src/Level/Free/Books.antt =====
-- The books of the sweeps over the tree of pkg/metricstore/level.go: what they free goes to the
-- pool, what they count is what is gone.
use cc_backend.Common.{
  ℕ, ◌+◌, ℤ, ◌≡◌, refl, sym, ap, ◌∙◌, true, List, [], ◌∷◌, length, inl, inr, if◌then◌else◌, arith,
  Bool-cases, ltb_ℤ→lt, All,
}
use cc_backend.Bytes.{Bytes}
use cc_backend.Buffer.{Buffer, Pool, finish}
use cc_backend.Buffer.Chain.{IsPool}
use cc_backend.Buffer.Free.{
  Freed, force_free_oldest, EndsOrdered, all_dead, free-IsFreed, retire-IsPool, length-retire,
  weigh, weigh-retire,
}
use cc_backend.Level.{Level, level, Children, nil, cons}
use cc_backend.Level.Free.{
  Swept, swept_head, free_chain, force_free_chain, sweep_metrics, all_nil, no_children, is_empty,
  free_and_check_empty, free_children, force_free, force_free_children,
}
use cc_backend.Level.Free.Oldest.{shortened, force_free-shortened}

-- How many buffers a list of chains and a tree hold.
abbrev pub total_metrics : {F : Type 0} → List (List (Buffer F)) → ℕ
total_metrics [] = 0
total_metrics (c ∷ ms) = length c + total_metrics ms

unfoldable mutual
  pub total : {F : Type 0} → Level F → ℕ
  total (level cs ms) = total_metrics ms + total_children cs

  pub total_children : {F : Type 0} → Children F → ℕ
  total_children nil = 0
  total_children (cons k l cs) = total l + total_children cs

-- What the buffers of a list of chains and of a tree weigh.
abbrev pub weigh_metrics : {F : Type 0} → (ℕ → ℤ → ℕ) → List (List (Buffer F)) → ℕ
weigh_metrics w [] = 0
weigh_metrics w (c ∷ ms) = weigh w c + weigh_metrics w ms

unfoldable mutual
  pub weigh_level : {F : Type 0} → (ℕ → ℤ → ℕ) → Level F → ℕ
  weigh_level w (level cs ms) = weigh_metrics w ms + weigh_children w cs

  pub weigh_children : {F : Type 0} → (ℕ → ℤ → ℕ) → Children F → ℕ
  weigh_children w nil = 0
  weigh_children w (cons k l cs) = weigh_level w l + weigh_children w cs

-- A predicate on each chain of a tree.
abbrev mutual
  pub AllChains : {F : Type 0} → (List (Buffer F) → Type 0) → Level F → Type 0
  AllChains P (level cs ms) = All P ms × AllChainsChildren P cs

  pub AllChainsChildren : {F : Type 0} → (List (Buffer F) → Type 0) → Children F → Type 0
  AllChainsChildren P nil = Unit {0}
  AllChainsChildren P (cons k l cs) = AllChains P l × AllChainsChildren P cs

-- A sweep loses no buffer: what is left and what was freed add up, and the freed ones are in the
-- pool, at standard capacity, where none is exchanged for another: for any weight of a frequency and
-- a start, the pool and what is left weigh together what they did before.
pub record Accounts {F : Type 0} {A : Type 0} (size : A → ℕ) (weight : (ℕ → ℤ → ℕ) → A → ℕ)
    (pool : Pool F) (a : A) (r : Swept F A) : Type 0 where
  pub counted : r.freed + size r.left ≡ size a
  pub returned : length r.pool ≡ length pool + r.freed
  pub conserved : (w : ℕ → ℤ → ℕ) → weigh w r.pool + weight w r.left ≡ weigh w pool + weight w a
  pub standard : IsPool pool → IsPool r.pool

abbrev pub EndsChain : {F : Type 0} → List (Buffer F) → Type 0
EndsChain [] = Unit {0}
EndsChain (b ∷ older) = EndsOrdered b older

module _ {F : Type 0} (now : ℤ) where
  head-Accounts :
      (pool : Pool F) (b : Buffer F) (older : List (Buffer F)) (r : Freed F)
      → r.freed + length r.older ≡ length older + (if r.delme then 1 else 0)
      → length r.pool + (if r.delme then 1 else 0) ≡ length pool + r.freed
      → ((w : ℕ → ℤ → ℕ) → weigh w r.pool + weigh w r.older ≡ weigh w pool + weigh w older)
      → (r.delme ≡ true → r.older ≡ [])
      → (IsPool pool → IsPool r.pool)
      → Accounts length weigh pool (b ∷ older) (swept_head now b r)
  head-Accounts pool b older r h k c none_left i = elim (Bool-cases r.delme) [
    | inl gone ↦ record {
      counted = ground (arith, ap length (none_left gone));
      returned = ground (arith, length-retire now r.pool b);
      conserved = λ w.
          rw gone (omega (arith, c w, weigh-retire w now r.pool b, ap (weigh w) (none_left gone)));
      standard = λ p. rw gone (retire-IsPool now r.pool b (i p));
    }
    | inr stays ↦ record {
      counted = ground arith;
      returned = ground arith;
      conserved = λ w. rw stays (omega (arith, c w));
      standard = λ p. rw stays (i p);
    }
  ]

  free_chain-Accounts :
      (t : ℤ) (pool : Pool F) (c : List (Buffer F))
      → EndsChain c
      → Accounts length weigh pool c (free_chain now t pool c)
  unfolding free_chain
  free_chain-Accounts t pool [] h = record {
    counted = refl;
    returned = omega arith;
    conserved = λ w. refl;
    standard = λ p. p;
  }
  free_chain-Accounts t pool (b ∷ older) h =
      let f = free-IsFreed now t pool b older h in
      head-Accounts pool b older _ f.counted f.returned f.conserved
        (λ gone. f.kept ∙ all_dead t b older h (ltb_ℤ→lt (finish b) t (sym f.head_dead ∙ gone)))
        f.standard

  -- `forceFreeOldest` frees one buffer of the chain, whichever that is.
  record IsForced (pool : Pool F) (older : List (Buffer F)) (r : Freed F) : Type 0 where
    one : r.freed ≡ 1
    counted : r.freed + length r.older ≡ length older + (if r.delme then 1 else 0)
    returned : length r.pool + (if r.delme then 1 else 0) ≡ length pool + r.freed
    conserved : (w : ℕ → ℤ → ℕ) → weigh w r.pool + weigh w r.older ≡ weigh w pool + weigh w older
    none_left : r.delme ≡ true → r.older ≡ []
    standard : IsPool pool → IsPool r.pool

  force_free_oldest-IsForced :
      (pool : Pool F) (b : Buffer F) (older : List (Buffer F))
      → IsForced pool older (force_free_oldest now pool b older)
  unfolding force_free_oldest
  force_free_oldest-IsForced pool b [] = record {
    one = refl;
    counted = refl;
    returned = refl;
    conserved = λ w. refl;
    none_left = λ _. refl;
    standard = λ p. p;
  }
  force_free_oldest-IsForced pool b (p ∷ older) =
      let r = force_free_oldest now pool p older in
      let f = force_free_oldest-IsForced pool p older in
      let head =
        head-Accounts pool p older r f.counted f.returned f.conserved f.none_left f.standard in
      record {
        one = f.one;
        counted = ground (arith, head.counted);
        returned = ground (arith, head.returned);
        conserved = head.conserved;
        none_left = λ e. cc;
        standard = head.standard;
      }

  force_free_chain-Accounts :
      (pool : Pool F) (c : List (Buffer F))
      → Accounts length weigh pool c (force_free_chain now pool c)
  unfolding force_free_chain
  force_free_chain-Accounts pool [] = record {
    counted = refl;
    returned = omega arith;
    conserved = λ w. refl;
    standard = λ p. p;
  }
  force_free_chain-Accounts pool (b ∷ older) =
      let f = force_free_oldest-IsForced pool b older in
      head-Accounts pool b older _ f.counted f.returned f.conserved f.none_left f.standard

  module _ (sweep : Pool F → List (Buffer F) → Swept F (List (Buffer F)))
      (P : List (Buffer F) → Type 0)
      (good : (pool : Pool F) (c : List (Buffer F))
        → P c
        → Accounts length weigh pool c (sweep pool c)) where
    sweep_metrics-Accounts :
        (pool : Pool F) (ms : List (List (Buffer F)))
        → All P ms
        → Accounts total_metrics weigh_metrics pool ms (sweep_metrics sweep pool ms)
    unfolding sweep_metrics
    sweep_metrics-Accounts pool [] h = record {
      counted = refl;
      returned = omega arith;
      conserved = λ w. refl;
      standard = λ p. p;
    }
    sweep_metrics-Accounts pool (c ∷ ms) (h, hs) =
        let one = good pool c h in
        let rest = sweep_metrics-Accounts (sweep pool c).pool ms hs in
        record {
          counted = omega (arith, one.counted, rest.counted);
          returned = omega (arith, one.returned, rest.returned);
          conserved = λ w. omega (arith, one.conserved w, rest.conserved w);
          standard = λ p. rest.standard (one.standard p);
        }

every : {F : Type 0} (ms : List (List (Buffer F))) → All (λ c. Unit {0}) ms
every [] = tt
every (c ∷ ms) = (tt, every ms)

all_nil_total :
    {F : Type 0} (ms : List (List (Buffer F))) → all_nil ms ≡ true → total_metrics ms ≡ 0
unfolding all_nil
all_nil_total [] h = refl
all_nil_total ([] ∷ ms) h = omega (arith, all_nil_total ms h)
all_nil_total ((b ∷ c) ∷ ms) h = cc

empty_total : {F : Type 0} (l : Level F) → is_empty l ≡ true → total l ≡ 0
unfolding total no_children
empty_total (level nil ms) h = omega (arith, all_nil_total ms h)
empty_total (level (cons k l cs) ms) h = cc

all_nil_weigh :
    {F : Type 0} (w : ℕ → ℤ → ℕ) (ms : List (List (Buffer F)))
    → all_nil ms ≡ true
    → weigh_metrics w ms ≡ 0
unfolding all_nil
all_nil_weigh w [] h = refl
all_nil_weigh w ([] ∷ ms) h = omega (arith, all_nil_weigh w ms h)
all_nil_weigh w ((b ∷ c) ∷ ms) h = cc

empty_weigh : {F : Type 0} (w : ℕ → ℤ → ℕ) (l : Level F) → is_empty l ≡ true → weigh_level w l ≡ 0
unfolding weigh_level no_children
empty_weigh w (level nil ms) h = omega (arith, all_nil_weigh w ms h)
empty_weigh w (level (cons k l cs) ms) h = cc

module _ {F : Type 0} (now t : ℤ) where
  abbrev kept_child : Bytes → Swept F (Level F) → Swept F (Children F) → Swept F (Children F)
  kept_child key r rest = record {
    freed = r.freed + rest.freed;
    left = if is_empty r.left then rest.left else cons key r.left rest.left;
    pool = rest.pool;
  }

  kept_child-Accounts :
      (pool : Pool F) (key : Bytes) (child : Level F) (cs : Children F) (r : Swept F (Level F))
      (rest : Swept F (Children F))
      → Accounts total weigh_level pool child r
      → Accounts total_children weigh_children r.pool cs rest
      → Accounts total_children weigh_children pool (cons key child cs) (kept_child key r rest)
  unfolding total weigh_level
  kept_child-Accounts pool key child cs r rest a b = record {
    counted = elim (Bool-cases (is_empty r.left)) [
      | inl none_left ↦
          rw none_left (omega (arith, a.counted, b.counted, empty_total r.left none_left))
      | inr some_left ↦ rw some_left (omega (arith, a.counted, b.counted))
    ];
    returned = omega (arith, a.returned, b.returned);
    conserved = λ w. elim (Bool-cases (is_empty r.left)) [
      | inl none_left ↦
          rw none_left (omega (arith, a.conserved w, b.conserved w, empty_weigh w r.left none_left))
      | inr some_left ↦ rw some_left (omega (arith, a.conserved w, b.conserved w))
    ];
    standard = λ p. b.standard (a.standard p);
  }

mutual
  unfolding free_and_check_empty free_children total total_children weigh_level weigh_children

  free-Accounts :
      {F : Type 0} (now t : ℤ) (pool : Pool F) (l : Level F)
      → AllChains EndsChain l
      → Accounts total weigh_level pool l (free_and_check_empty now t pool l)
  free-Accounts now t pool (level cs ms) (hm, hc) =
      let own =
        sweep_metrics-Accounts now (free_chain now t) EndsChain (free_chain-Accounts now t) pool ms
          hm in
      let rest = free_children-Accounts now t _ cs hc in
      record {
        counted = omega (arith, own.counted, rest.counted);
        returned = omega (arith, own.returned, rest.returned);
        conserved = λ w. omega (arith, own.conserved w, rest.conserved w);
        standard = λ p. rest.standard (own.standard p);
      }

  free_children-Accounts :
      {F : Type 0} (now t : ℤ) (pool : Pool F) (cs : Children F)
      → AllChainsChildren EndsChain cs
      → Accounts total_children weigh_children pool cs (free_children now t pool cs)
  free_children-Accounts now t pool nil h = record {
    counted = refl;
    returned = omega arith;
    conserved = λ w. refl;
    standard = λ p. p;
  }
  free_children-Accounts now t pool (cons key child cs) (h, hs) =
      kept_child-Accounts now t pool key child cs _ _ (free-Accounts now t pool child h)
        (free_children-Accounts now t _ cs hs)

mutual
  unfolding force_free force_free_children total total_children weigh_level weigh_children

  forced-Accounts :
      {F : Type 0} (now : ℤ) (pool : Pool F) (l : Level F)
      → Accounts total weigh_level pool l (force_free now pool l)
  forced-Accounts now pool (level cs ms) =
      let own =
        sweep_metrics-Accounts now (force_free_chain now) (λ c. Unit {0})
          (λ p c _. force_free_chain-Accounts now p c) pool ms (every ms) in
      let rest = forced_children-Accounts now _ cs in
      record {
        counted = omega (arith, own.counted, rest.counted);
        returned = omega (arith, own.returned, rest.returned);
        conserved = λ w. omega (arith, own.conserved w, rest.conserved w);
        standard = λ p. rest.standard (own.standard p);
      }

  forced_children-Accounts :
      {F : Type 0} (now : ℤ) (pool : Pool F) (cs : Children F)
      → Accounts total_children weigh_children pool cs (force_free_children now pool cs)
  forced_children-Accounts now pool nil = record {
    counted = refl;
    returned = omega arith;
    conserved = λ w. refl;
    standard = λ p. p;
  }
  forced_children-Accounts now pool (cons key child cs) =
      let one = forced-Accounts now pool child in
      let rest = forced_children-Accounts now _ cs in
      record {
        counted = omega (arith, one.counted, rest.counted);
        returned = omega (arith, one.returned, rest.returned);
        conserved = λ w. omega (arith, one.conserved w, rest.conserved w);
        standard = λ p. rest.standard (one.standard p);
      }

-- `freeAndCheckEmpty` on a tree whose chains end in order: the number that it returns is the number
-- of buffers that left the tree. They are in the pool, at standard capacity: for any weight of a
-- frequency and a start, the pool and the tree weigh together what they did before.
pub free_and_check_empty-Accounts :
    {F : Type 0} (now t : ℤ) (pool : Pool F) (l : Level F)
    → AllChains EndsChain l
    → Accounts total weigh_level pool l (free_and_check_empty now t pool l)
free_and_check_empty-Accounts now t pool l h = free-Accounts now t pool l h

-- `forceFree` takes the last buffer of each chain of the tree and leaves all else as it was; the
-- number that it returns is the number of buffers that left the tree. They are in the pool, at
-- standard capacity: for any weight of a frequency and a start, the pool and the tree weigh together
-- what they did before.
pub force_free-Accounts :
    {F : Type 0} (now : ℤ) (pool : Pool F) (l : Level F)
    → ((force_free now pool l).left ≡ shortened l)
      × Accounts total weigh_level pool l (force_free now pool l)
force_free-Accounts now pool l = (force_free-shortened now pool l, forced-Accounts now pool l)
