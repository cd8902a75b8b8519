-- ===== src/Level/Free/Left.antt =====
-- What freeAndCheckEmpty of pkg/metricstore/level.go leaves in the tree.
use cc_backend.Common.{
  ℤ, ltb_ℤ, ◌≤ℤ◌, ◌≡◌, false, List, [], ◌∷◌, inl, inr, Bool-cases, ltb_ℤ→ge, All,
}
use cc_backend.Buffer.{Buffer, Pool, finish}
use cc_backend.Buffer.Free.{live, free-IsFreed}
use cc_backend.Level.{Level, level, Children, nil, cons}
use cc_backend.Level.Free.{free_chain, sweep_metrics, is_empty, free_and_check_empty, free_children}
use cc_backend.Level.Free.Books.{AllChains, AllChainsChildren, EndsChain}

abbrev pub IsLive : {F : Type 0} → ℤ → List (Buffer F) → Type 0
IsLive t c = All (λ b. t ≤ℤ finish b) c

-- No level below this one is without buffers and without children.
abbrev mutual
  pub NoEmpty : {F : Type 0} → Level F → Type 0
  NoEmpty (level cs ms) = NoEmptyChildren cs

  pub NoEmptyChildren : {F : Type 0} → Children F → Type 0
  NoEmptyChildren nil = Unit {0}
  NoEmptyChildren (cons k l cs) = (is_empty l ≡ false) × NoEmpty l × NoEmptyChildren cs

module _ {F : Type 0} (now t : ℤ) where
  live-IsLive : (c : List (Buffer F)) → IsLive t (live t c)
  unfolding live
  live-IsLive [] = tt
  live-IsLive (b ∷ c) = elim (Bool-cases (ltb_ℤ (finish b) t)) [
    | inl dead ↦ rw dead (live-IsLive c)
    | inr alive ↦ rw alive (ltb_ℤ→ge (finish b) t alive, live-IsLive c)
  ]

  free_chain-IsLive :
      (pool : Pool F) (c : List (Buffer F)) → EndsChain c → IsLive t (free_chain now t pool c).left
  unfolding free_chain
  free_chain-IsLive pool [] h = tt
  free_chain-IsLive pool (b ∷ older) h =
      let f = free-IsFreed now t pool b older h in
      elim (Bool-cases (ltb_ℤ (finish b) t)) [
        | inl dead ↦ rw (f.head_dead, dead) tt
        | inr alive ↦
            rw (f.head_dead, alive) (ltb_ℤ→ge (finish b) t alive, rw f.kept (live-IsLive older))
      ]

  sweep-IsLive :
      (ms : List (List (Buffer F))) (pool : Pool F)
      → All EndsChain ms
      → All (IsLive t) (sweep_metrics (free_chain now t) pool ms).left
  unfolding sweep_metrics
  sweep-IsLive [] pool h = tt
  sweep-IsLive (c ∷ ms) pool (h, hs) =
      (free_chain-IsLive pool c h, sweep-IsLive ms (free_chain now t pool c).pool hs)

mutual
  unfolding free_and_check_empty free_children

  free-left :
      {F : Type 0} (now t : ℤ) (pool : Pool F) (l : Level F)
      → AllChains EndsChain l
      → AllChains (IsLive t) (free_and_check_empty now t pool l).left
        × NoEmpty (free_and_check_empty now t pool l).left
  free-left now t pool (level cs ms) (hm, hc) =
      let rest = free_children-left now t _ cs hc in
      ((sweep-IsLive now t ms pool hm, rest.0), rest.1)

  free_children-left :
      {F : Type 0} (now t : ℤ) (pool : Pool F) (cs : Children F)
      → AllChainsChildren EndsChain cs
      → AllChainsChildren (IsLive t) (free_children now t pool cs).left
        × NoEmptyChildren (free_children now t pool cs).left
  free_children-left now t pool nil h = (tt, tt)
  free_children-left now t pool (cons key child cs) (h, hs) =
      let one = free-left now t pool child h in
      let rest = free_children-left now t _ cs hs in
      elim (Bool-cases (is_empty (free_and_check_empty now t pool child).left)) [
        | inl empty ↦ rw empty rest
        | inr kept ↦ rw kept ((one.0, rest.0), (kept, one.1, rest.1))
      ]
