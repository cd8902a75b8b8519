-- ===== src/Level/Free/Oldest.antt =====
-- What `forceFree` of pkg/metricstore/level.go leaves of a tree: each chain without its last buffer.
use cc_backend.Common.{ℤ, ◌≡◌, refl, ap, ◌∙◌, List, [], ◌∷◌}
use cc_backend.Buffer.{Buffer, Pool}
use cc_backend.Buffer.Free.{force_free_oldest}
use cc_backend.Level.{Level, level, Children, nil, cons}
use cc_backend.Level.Free.{
  swept_head, force_free_chain, sweep_metrics, force_free, force_free_children,
}

-- A list without its last element.
abbrev pub but_last : {A : Type 0} → List A → List A
but_last [] = []
but_last (x ∷ []) = []
but_last (x ∷ y ∷ xs) = x ∷ but_last (y ∷ xs)

abbrev pub but_lasts : {F : Type 0} → List (List (Buffer F)) → List (List (Buffer F))
but_lasts [] = []
but_lasts (c ∷ ms) = but_last c ∷ but_lasts ms

-- The tree with each of its chains without the last buffer.
abbrev mutual
  pub shortened : {F : Type 0} → Level F → Level F
  shortened (level cs ms) = level (shortened_children cs) (but_lasts ms)

  pub shortened_children : {F : Type 0} → Children F → Children F
  shortened_children nil = nil
  shortened_children (cons key child cs) = cons key (shortened child) (shortened_children cs)

module _ {F : Type 0} (now : ℤ) where
  force_free_oldest-but_last :
      (pool : Pool F) (b : Buffer F) (older : List (Buffer F))
      → (swept_head now b (force_free_oldest now pool b older)).left ≡ but_last (b ∷ older)
  unfolding force_free_oldest
  force_free_oldest-but_last pool b [] = refl
  force_free_oldest-but_last pool b (p ∷ older) =
      ap (λ rest. b ∷ rest) (force_free_oldest-but_last pool p older)

  force_free_chain-but_last :
      (pool : Pool F) (c : List (Buffer F)) → (force_free_chain now pool c).left ≡ but_last c
  unfolding force_free_chain
  force_free_chain-but_last pool [] = refl
  force_free_chain-but_last pool (b ∷ older) = force_free_oldest-but_last pool b older

  sweep_metrics-but_lasts :
      (pool : Pool F) (ms : List (List (Buffer F)))
      → (sweep_metrics (force_free_chain now) pool ms).left ≡ but_lasts ms
  unfolding sweep_metrics
  sweep_metrics-but_lasts pool [] = refl
  sweep_metrics-but_lasts pool (c ∷ ms) =
      ap
        (λ x. x ∷ (sweep_metrics (force_free_chain now) (force_free_chain now pool c).pool ms).left)
        (force_free_chain-but_last pool c)
      ∙ ap (λ xs. but_last c ∷ xs) (sweep_metrics-but_lasts (force_free_chain now pool c).pool ms)

mutual
  unfolding force_free force_free_children

  pub force_free-shortened :
      {F : Type 0} (now : ℤ) (pool : Pool F) (l : Level F)
      → (force_free now pool l).left ≡ shortened l
  force_free-shortened now pool (level cs ms) =
      ap (λ cs'. level cs' (sweep_metrics (force_free_chain now) pool ms).left)
        (force_free_children-shortened now _ cs)
      ∙ ap (level (shortened_children cs)) (sweep_metrics-but_lasts now pool ms)

  force_free_children-shortened :
      {F : Type 0} (now : ℤ) (pool : Pool F) (cs : Children F)
      → (force_free_children now pool cs).left ≡ shortened_children cs
  force_free_children-shortened now pool nil = refl
  force_free_children-shortened now pool (cons key child cs) =
      ap (λ l. cons key l (force_free_children now (force_free now pool child).pool cs).left)
        (force_free-shortened now pool child)
      ∙ ap (cons key (shortened child))
          (force_free_children-shortened now (force_free now pool child).pool cs)
