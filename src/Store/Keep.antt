-- ===== src/Store/Keep.antt =====
-- `WriteToLevel` of pkg/metricstore/metricstore.go keeps every chain of the tree well formed.
use cc_backend.Common.{
  ℕ, zero, suc, ◌<◌, ℤ, ◌≡◌, sym, ap, ◌∙◌, none, some, List, [], ◌∷◌, ◌==◌, inl, inr, get_or, set,
  replicate, arith, Bool-cases, Option-cases, All,
}
use cc_backend.Bytes.{Bytes, key_eq}
use cc_backend.Buffer.{Floats, Buffer, Pool, new_buffer}
use cc_backend.Buffer.Chain.{IsChain, IsPool}
use cc_backend.Buffer.Write.{new_cap}
use cc_backend.Buffer.Keep.{write-IsChain}
use cc_backend.Level.{
  Level, level, Children, nil, cons, metrics, find_child, set_child, fresh, find_level,
  find_level_or_create,
}
use cc_backend.Level.Free.Books.{AllChains, AllChainsChildren}
use cc_backend.Store.{
  Metric, open_chain, replace_metrics, write_chain, write_metrics, write_to_level,
}

pub All-set :
    {A : Type 0} (P : A → Type 0) (xs : List A) (i : ℕ) (x : A)
    → All P xs
    → P x
    → All P (set xs i x)
All-set P [] i x h k = tt
All-set P (y ∷ xs) zero x (h, hs) k = (k, hs)
All-set P (y ∷ xs) (suc i) x (h, hs) k = (h, All-set P xs i x hs k)

pub get_or-All :
    {A : Type 0} (P : A → Type 0) (xs : List A) (i : ℕ) (d : A) → All P xs → P d → P (get_or xs i d)
get_or-All P [] i d h k = k
get_or-All P (y ∷ xs) zero d (h, hs) k = h
get_or-All P (y ∷ xs) (suc i) d (h, hs) k = get_or-All P xs i d hs k

module _ {F : Type 0} (P : List (Buffer F) → Type 0) where
  pub AllChains-find :
      (k : Bytes) (cs : Children F) {l : Level F}
      → AllChainsChildren P cs
      → find_child k cs ≡ some l
      → AllChains P l
  unfolding find_child
  AllChains-find k nil h e = cc
  AllChains-find k (cons j m cs) {l} (h, hs) e = elim (Bool-cases (key_eq j k)) [
    | inl here ↦
        (let found : some m ≡ some l = sym (rw here) ∙ e in let same : l ≡ m = cc in rw same h)
    | inr there ↦ AllChains-find k cs hs (sym (rw there) ∙ e)
  ]

  pub AllChains-set :
      (k : Bytes) (l : Level F) (cs : Children F)
      → AllChainsChildren P cs
      → AllChains P l
      → AllChainsChildren P (set_child k l cs)
  unfolding set_child
  AllChains-set k l nil h hl = (hl, tt)
  AllChains-set k l (cons j m cs) (h, hs) hl = elim (Bool-cases (key_eq j k)) [
    | inl here ↦ rw here (hl, hs)
    | inr there ↦ rw there (h, AllChains-set k l cs hs hl)
  ]

  pub AllChains_nils : P [] → (n : ℕ) → All P (replicate n [])
  AllChains_nils h zero = tt
  AllChains_nils h (suc n) = (h, AllChains_nils h n)

  find_level-All :
      (l : Level F) (sel : List Bytes) {t : Level F}
      → AllChains P l
      → find_level l sel ≡ some t
      → All P (metrics t)
  unfolding find_level
  find_level-All (level cs ms) [] {t} (h, hs) e =
      (let same : level cs ms ≡ t = cc in rw (ap metrics (sym same)) h)
  find_level-All (level cs ms) (s ∷ sel) {t} (h, hs) e = elim (Option-cases (find_child s cs)) [
    | inl missing ↦ absurd (none_some (sym (rw (missing, find_level)) ∙ e))
    | inr (child, found) ↦
        find_level-All child sel (AllChains-find s cs hs found) (sym (rw (found, find_level)) ∙ e)
  ]
    where
      none_some : none ≡ some t → ⊥
      none_some q = cc

  replace_metrics-AllChains :
      (l : Level F) (sel : List Bytes) (ms' : List (List (Buffer F)))
      → AllChains P l
      → All P ms'
      → AllChains P (replace_metrics l sel ms')
  unfolding replace_metrics
  replace_metrics-AllChains (level cs ms) [] ms' (h, hs) k = (k, hs)
  replace_metrics-AllChains (level cs ms) (s ∷ sel) ms' (h, hs) k =
      elim (Option-cases (find_child s cs)) [
        | inl missing ↦ rw (missing, replace_metrics) (h, hs)
        | inr (child, found) ↦
            rw (found, replace_metrics)
              (
                h,
                AllChains-set s _ cs hs
                    (replace_metrics-AllChains child sel ms' (AllChains-find s cs hs found) k),
              )
      ]

  pub create-AllChains :
      P []
      → (l : Level F) (sel : List Bytes) (n : ℕ) → AllChains P l
      → AllChains P (find_level_or_create l sel n)
  unfolding find_level_or_create fresh
  create-AllChains empty l [] n h = h
  create-AllChains empty (level cs ms) (s ∷ sel) n (h, hs) = elim (Option-cases (find_child s cs)) [
    | inl missing ↦
        rw (missing, find_level_or_create)
          (
            h,
            AllChains-set s _ cs hs
                (create-AllChains empty (fresh n) sel n (AllChains_nils empty n, tt)),
          )
    | inr (child, found) ↦
        rw (found, find_level_or_create)
          (
            h,
            AllChains-set s _ cs hs
                (create-AllChains empty child sel n (AllChains-find s cs hs found)),
          )
  ]

module _ (fl : Floats) where
  open fl use {Float}

  -- The chain that is written to, and the pool behind it.
  open_chain-IsChain :
      (pool : Pool Float) (c : List (Buffer Float)) (ts : ℤ) (freq : ℕ)
      → 0 < freq
      → IsPool pool
      → IsChain c
      → IsPool (open_chain pool c ts freq).0 × IsChain (open_chain pool c ts freq).1
  unfolding open_chain new_buffer
  open_chain-IsChain pool [] ts freq pf h k =
      let made = new_cap fl pool ts freq h in
      (made.1, (record { positive = pf; room = omega (arith, made.0); fits = omega arith }, tt, tt))
  open_chain-IsChain pool (b ∷ older) ts freq pf h k = (h, k)

  write_chain-IsChain :
      (pool : Pool Float) (c : List (Buffer Float)) (ts : ℤ) (v : Float) {p : Pool Float}
      {c' : List (Buffer Float)}
      → IsPool pool
      → IsChain c
      → write_chain fl pool c ts v ≡ some (p, c')
      → IsPool p × IsChain c'
  unfolding write_chain
  write_chain-IsChain pool [] ts v h k e = cc
  write_chain-IsChain pool (b ∷ older) ts v h k e = write-IsChain fl pool b older ts v h k e

  -- `WriteToLevel` keeps the chains of its level and the pool well formed, where it returns an
  -- error too.
  write_metrics-IsChain :
      (pool : Pool Float) (ms : List (List (Buffer Float))) (ts : ℤ) (metrics : List (Metric Float))
      → IsPool pool
      → All IsChain ms
      → IsPool (write_metrics fl pool ms ts metrics).pool
        × All IsChain (write_metrics fl pool ms ts metrics).left
  unfolding write_metrics
  write_metrics-IsChain pool ms ts [] h k = (h, k)
  write_metrics-IsChain pool ms ts (m ∷ rest) h k = elim (Bool-cases (m.frequency == 0)) [
    | inl zero_frequency ↦ rw zero_frequency (write_metrics-IsChain pool ms ts rest h k)
    | inr some_frequency ↦
        let opened =
          open_chain-IsChain pool (get_or ms m.offset []) ts m.frequency
            (ground (arith, some_frequency)) h (get_or-All IsChain ms m.offset [] k tt) in
        elim (Option-cases (
          write_chain fl (open_chain pool (get_or ms m.offset []) ts m.frequency).0
            (open_chain pool (get_or ms m.offset []) ts m.frequency).1 ts m.value)) [
              | inl error ↦
                  rw (some_frequency, error, write_metrics)
                    (opened.0, All-set IsChain ms m.offset _ k opened.1)
              | inr ((p, c), done) ↦
                  let kept = write_chain-IsChain _ _ ts m.value opened.0 opened.1 done in
                  rw (some_frequency, done, write_metrics)
                    (write_metrics-IsChain p (set ms m.offset c) ts rest kept.0
                      (All-set IsChain ms m.offset c k kept.1))
            ]
  ]

  -- `WriteToLevel` keeps every chain of the tree and the pool well formed, whatever the samples are
  -- and where it returns an error too.
  pub write_to_level-IsChain :
      (n : ℕ) (pool : Pool Float) (root : Level Float) (selector : List Bytes) (ts : ℤ)
      (ms : List (Metric Float))
      → IsPool pool
      → AllChains IsChain root
      → IsPool (write_to_level fl n pool root selector ts ms).pool
        × AllChains IsChain (write_to_level fl n pool root selector ts ms).left
  unfolding write_to_level
  write_to_level-IsChain n pool root selector ts ms h k =
      let made = create-AllChains IsChain tt root selector n k in
      elim (Option-cases (find_level (find_level_or_create root selector n) selector)) [
        | inl missing ↦ rw (missing, write_to_level) (h, made)
        | inr (l, found) ↦
            let kept =
              write_metrics-IsChain pool (metrics l) ts ms h
                (find_level-All IsChain _ selector made found) in
            rw (found, write_to_level)
              (
                kept.0,
                replace_metrics-AllChains IsChain (find_level_or_create root selector n) selector _
                    made kept.1,
              )
      ]
