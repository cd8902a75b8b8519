-- ===== src/Level/Tests.antt =====
-- Runs of the tree operations of pkg/metricstore/level.go.
use cc_backend.Common.{ℕ, pos, ◌+ℤ◌, ◌≡◌, refl, false, some, List, [], ◌∷◌, arith}
use cc_backend.Bytes.{Bytes, key_eq}
use cc_backend.Buffer.{Buffer, first_write, finish}
use cc_backend.Level.{
  Level, level, nil, cons, metrics, find_level, find_child, find_level_or_create,
}
use cc_backend.Level.Create.{create_keeps}
use cc_backend.Level.Free.{free_and_check_empty, force_free}
use cc_backend.Level.Free.Oldest.{shortened}
use cc_backend.Level.Free.Books.{
  total, weigh_level, Accounts, AllChains, EndsChain, free_and_check_empty-Accounts,
  force_free-Accounts,
}

abbrev buffer_of : List ℕ → ℕ → Buffer ℕ
buffer_of xs start = record {
  contents = xs;
  cap = 4;
  frequency = 10;
  start = pos start;
  archived = false;
  closed = false;
  last_used = pos 0;
}

abbrev chain : List (Buffer ℕ)
chain = buffer_of (1 ∷ 2 ∷ []) 95 ∷ buffer_of (3 ∷ []) 45 ∷ []

-- Cluster `c` with the nodes `m`, whose data is old, and `n`.
abbrev tree : Level ℕ
tree =
    level
      (cons (b'c' ∷ [])
        (level
          (cons (b'm' ∷ []) (level nil ((buffer_of (4 ∷ []) 5 ∷ []) ∷ []))
            (cons (b'n' ∷ []) (level nil (chain ∷ [] ∷ [])) nil))
          ([] ∷ []))
        nil)
      []

abbrev path : List Bytes
path = (b'c' ∷ []) ∷ (b'n' ∷ []) ∷ []

tree-path : find_level tree path ≡ some (level nil (chain ∷ [] ∷ []))
unfolding find_level find_child key_eq
tree-path = refl

create_keeps_example :
    (u : Level ℕ) × (find_level (find_level_or_create tree ((b'c' ∷ []) ∷ (b'x' ∷ []) ∷ []) 2) path
      ≡ some u)
    × (metrics u ≡ chain ∷ [] ∷ [])
create_keeps_example =
    create_keeps tree ((b'c' ∷ []) ∷ (b'x' ∷ []) ∷ []) path 2 (level nil (chain ∷ [] ∷ []))
      tree-path

tree_ends : AllChains EndsChain tree
unfolding finish first_write ◌+ℤ◌
tree_ends = (tt, (((tt, tt), (((tt, tt), tt), ((((omega arith, tt), (tt, tt)), tt), tt))), tt))

free_and_check_empty-Accounts_example :
    Accounts total weigh_level [] tree (free_and_check_empty (pos 500) (pos 80) [] tree)
free_and_check_empty-Accounts_example =
    free_and_check_empty-Accounts (pos 500) (pos 80) [] tree tree_ends

force_free-Accounts_example :
    ((force_free (pos 500) [] tree).left ≡ shortened tree)
    × Accounts total weigh_level [] tree (force_free (pos 500) [] tree)
force_free-Accounts_example = force_free-Accounts (pos 500) [] tree
