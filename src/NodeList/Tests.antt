-- ===== src/NodeList/Tests.antt =====
-- Runs of the node lists of pkg/archive/nodelist.go.
use cc_backend.Common.{
  pos, ◌+ℤ◌, ◌-ℤ◌, ◌≡◌, refl, true, some, List, [], ◌∷◌, length, arith, int_laws, All,
}
use cc_backend.Bytes.{Bytes}
use cc_backend.NodeList.{IntRange, str, int_ranges, NodeList, contains, limits, prefix}
use mathlib.Core.Option
use cc_backend.NodeList.Print.{
  print_list, node_count, node_count-print_list, PrintsAll, print_from, print_limits, print_term,
  format_padded, decimal,
}
use cc_backend.NodeList.Member.{IsTerm, IsRange, contains-print_list}

-- a[09-10,3]
abbrev nine_to_ten : IntRange
nine_to_ten = record { start = pos 9; end = pos 10; zero_padded = true; digits = 2 }

abbrev three : IntRange
three = record { start = pos 3; end = pos 3; zero_padded = true; digits = 2 }

abbrev nodes : NodeList
nodes =
    (str (b'a' ∷ []) ∷ int_ranges (nine_to_ten ∷ three ∷ []) ∷ [])
    ∷ (str (b'b' ∷ b'1' ∷ []) ∷ [])
    ∷ []

abbrev node_names : List Bytes
node_names =
    (b'a' ∷ b'0' ∷ b'9' ∷ [])
    ∷ (b'a' ∷ b'1' ∷ b'0' ∷ [])
    ∷ (b'a' ∷ b'0' ∷ b'3' ∷ [])
    ∷ (b'b' ∷ b'1' ∷ [])
    ∷ []

nodes_print : print_list nodes ≡ some node_names
unfolding print_list print_from print_limits print_term format_padded decimal limits ◌-ℤ◌ ◌+ℤ◌
    prefix
nodes_print = refl

nodes-PrintsAll : All PrintsAll nodes
unfolding limits
nodes-PrintsAll = (((omega int_laws, refl), ((omega int_laws, refl), tt)), (tt, tt))

node_count-print_list_example :
    node_count nodes ≡ Option.map (λ names. pos (length names)) (print_list nodes)
node_count-print_list_example = node_count-print_list nodes nodes-PrintsAll

nodes-IsTerm : All IsTerm nodes
nodes-IsTerm = ((1, (range, (range', tt))), (tt, tt))
  where
    range : IsRange 1 nine_to_ten
    range = record {
      is_padded = refl;
      width = refl;
      from_zero = omega arith;
      fits = omega arith;
      int32 = omega arith;
    }

    range' : IsRange 1 three
    range' = record {
      is_padded = refl;
      width = refl;
      from_zero = omega arith;
      fits = omega arith;
      int32 = omega arith;
    }

contains-print_list_example : All (λ name. contains nodes name ≡ true) node_names
contains-print_list_example = contains-print_list nodes node_names nodes-IsTerm nodes_print
