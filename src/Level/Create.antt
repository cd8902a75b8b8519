-- ===== src/Level/Create.antt =====
-- What findLevelOrCreate of pkg/metricstore/level.go makes of the tree.
use cc_backend.Common.{
  ℕ, ◌≡◌, refl, sym, ap, ◌∙◌, Option, none, some, List, [], ◌∷◌, inl, inr, if◌then◌else◌, arith,
  Bool-cases, Option-cases,
}
use cc_backend.Bytes.{Bytes, key_eq, key_eq_iff, key_eq_refl}
use cc_backend.Buffer.{Buffer}
use cc_backend.Level.{
  Level, level, Children, nil, cons, metrics, find_child, set_child, fresh, find_level,
  find_level_or_create,
}

module _ {F : Type 0} where
  pub find_child-set_child :
      (k j : Bytes) (l : Level F) (cs : Children F)
      → find_child j (set_child k l cs) ≡ (if key_eq k j then some l else find_child j cs)
  unfolding find_child set_child
  find_child-set_child k j l nil = refl
  find_child-set_child k j l (cons i m cs) =
      ground (arith, key_eq_iff k j, key_eq_iff i k, key_eq_iff i j, find_child-set_child k j l cs)

  find_child_self :
      (k : Bytes) (l : Level F) (cs : Children F) → find_child k (set_child k l cs) ≡ some l
  find_child_self k l cs = find_child-set_child k k l cs ∙ rw (key_eq_refl k)

  -- One step of the two walks.
  pub find-cons :
      (cs : Children F) (ms : List (List (Buffer F))) (s : Bytes) (sel : List Bytes) (c : Level F)
      → find_child s cs ≡ some c
      → find_level (level cs ms) (s ∷ sel) ≡ find_level c sel
  unfolding find_level
  find-cons cs ms s sel c e = rw (e, find_level)

  pub find-missing :
      (cs : Children F) (ms : List (List (Buffer F))) (s : Bytes) (sel : List Bytes)
      → find_child s cs ≡ none
      → find_level (level cs ms) (s ∷ sel) ≡ none
  unfolding find_level
  find-missing cs ms s sel e = rw (e, find_level)

  abbrev pub found_or : ℕ → Option (Level F) → Level F
  found_or n none = fresh n
  found_or n (some c) = c

  pub create-cons :
      (cs : Children F) (ms : List (List (Buffer F))) (s : Bytes) (sel : List Bytes) (n : ℕ)
      → find_level_or_create (level cs ms) (s ∷ sel) n
        ≡ level (set_child s (find_level_or_create (found_or n (find_child s cs)) sel n) cs) ms
  unfolding find_level_or_create
  create-cons cs ms s sel n = elim (Option-cases (find_child s cs)) [
    | inl e ↦ rw (e, find_level_or_create)
    | inr (c, e) ↦ rw (e, find_level_or_create)
  ]

  fresh_leaf :
      (n : ℕ) (s : Bytes) (sel : List Bytes) → find_level (fresh {F = F} n) (s ∷ sel) ≡ none
  unfolding fresh find_level find_child
  fresh_leaf n s sel = refl

  find-found_or :
      (n : ℕ) (cs : Children F) (ms : List (List (Buffer F))) (s : Bytes) (sel : List Bytes)
      → found_or n (find_level (found_or n (find_child s cs)) sel)
        ≡ found_or n (find_level (level cs ms) (s ∷ sel))
  find-found_or n cs ms s sel = elim (Option-cases (find_child s cs)) [
    | inl e ↦ rw (find-missing cs ms s sel e, e) (fresh_found n sel)
    | inr (c, e) ↦ rw (find-cons cs ms s sel c e, e)
  ]
    where
      fresh_found : (n : ℕ) (sel : List Bytes) → found_or n (find_level (fresh n) sel) ≡ fresh n
      fresh_found n [] = unfold find_level in refl
      fresh_found n (s' ∷ sel') = rw (fresh_leaf n s' sel')

  -- `findLevelOrCreate` leads to the level at the selector: the one that was there, or else a new
  -- one with no children and no buffers.
  pub find-find_level_or_create :
      (l : Level F) (sel : List Bytes) (n : ℕ)
      → find_level (find_level_or_create l sel n) sel ≡ some (found_or n (find_level l sel))
  find-find_level_or_create l [] n = unfold find_level_or_create find_level in refl
  find-find_level_or_create (level cs ms) (s ∷ sel) n =
      rw
        (
          create-cons cs ms s sel n,
          find-cons (set_child s (find_level_or_create (found_or n (find_child s cs)) sel n) cs) ms
              s sel _ (find_child_self s _ cs),
        )
        (find-find_level_or_create (found_or n (find_child s cs)) sel n
          ∙ ap some (find-found_or n cs ms s sel))

  metrics-create :
      (l : Level F) (sel : List Bytes) (n : ℕ) → metrics (find_level_or_create l sel n) ≡ metrics l
  metrics-create l [] n = unfold find_level_or_create in refl
  metrics-create (level cs ms) (s ∷ sel) n = rw (create-cons cs ms s sel n)

  find_root : (l t : Level F) → find_level l [] ≡ some t → l ≡ t
  unfolding find_level
  find_root l t h = cc

  -- It moves and changes nothing: a level that was there is found under its path as before, with
  -- the same buffers.
  pub create_keeps :
      (l : Level F) (sel p : List Bytes) (n : ℕ) (t : Level F)
      → find_level l p ≡ some t
      → (u : Level F) × (find_level (find_level_or_create l sel n) p ≡ some u)
        × (metrics u ≡ metrics t)
  create_keeps l sel [] n t h = (
    find_level_or_create l sel n,
    (unfold find_level in refl),
    metrics-create l sel n ∙ ap metrics (find_root l t h),
  )
  create_keeps l [] (s ∷ p) n t h = (t, (unfold find_level_or_create in h), refl)
  create_keeps (level cs ms) (s ∷ sel) (q ∷ p) n t h = elim (Option-cases (find_child q cs)) [
    | inl e ↦ cc (find-missing cs ms q p e)
    | inr (c, e) ↦
        let under : find_level c p ≡ some t = sym (find-cons cs ms q p c e) ∙ h in
        elim (Bool-cases (key_eq s q)) [
          | inl same ↦
              let (u, found, kept) = create_keeps c sel p n t under in
              let here : found_or n (find_child s cs) ≡ c =
                ap (λ k. found_or n (find_child k cs)) ((key_eq_iff s q).0 same)
                ∙ ap (found_or n) e in
              (
                u,
                rw (create-cons cs ms s sel n, here)
                    (find-cons _ ms q p _
                        (find_child-set_child s q (find_level_or_create c sel n) cs ∙ rw same)
                      ∙ found),
                kept,
              )
          | inr other ↦ (
            t,
            rw (create-cons cs ms s sel n)
                (find-cons _ ms q p c (find_child-set_child s q _ cs ∙ rw other e) ∙ under),
            refl,
          )
        ]
  ]
