-- ===== src/Buffer/Tests.antt =====
-- Runs of the operations of pkg/metricstore/buffer.go on small chains.
use cc_backend.Common.{
  ℕ, ◌+◌, ℤ, pos, negsuc, ◌≤ℤ◌, ◌+ℤ◌, ◌-ℤ◌, go_div, ◌≡◌, refl, false, Option, none, some, List, [],
  ◌∷◌, arith, int_laws,
}
use cc_backend.Buffer.{
  Floats, Buffer, buffer_cap, first_write, finish, pool_get, new_buffer, index, put_slot, write,
}
use cc_backend.Buffer.Chain.{IsBuffer, IsChain, IsPool}
use cc_backend.Buffer.Keep.{write-IsChain}
use cc_backend.Buffer.Refine.{chain_at, updated, write-chain_at}
use cc_backend.Buffer.Read.{ok, read, Promise, read-Promise}
use cc_backend.Buffer.RoundTrip.{read-write}
use cc_backend.Buffer.Free.{retire, free, IsFreed, free-IsFreed, EndsOrdered}

-- Numbers with a NaN, `none`.
abbrev plus : Option ℕ → Option ℕ → Option ℕ
plus none y = none
plus (some x) none = none
plus (some x) (some y) = some (x + y)

plus-none : (x : Option ℕ) → plus x none ≡ none
plus-none none = refl
plus-none (some x) = refl

abbrev numbers : Floats
numbers = record { Float = Option ℕ; nan = none; add = plus; add_nan = plus-none }

abbrev buffer_of : List (Option ℕ) → ℤ → Buffer (Option ℕ)
buffer_of xs start = record {
  contents = xs;
  cap = 4;
  frequency = 10;
  start = start;
  archived = false;
  closed = false;
  last_used = pos 0;
}

-- Three slots of 10 seconds from 100 on, behind them a full buffer, and a buffer of an hour before.
abbrev head : Buffer (Option ℕ)
head = buffer_of (some 1 ∷ none ∷ some 3 ∷ []) (pos 95)

abbrev middle : Buffer (Option ℕ)
middle = buffer_of (some 5 ∷ some 6 ∷ some 7 ∷ some 8 ∷ []) (pos 45)

abbrev oldest : Buffer (Option ℕ)
oldest = buffer_of (some 9 ∷ []) (negsuc 4)

abbrev older : List (Buffer (Option ℕ))
older = middle ∷ oldest ∷ []

abbrev head_written : Buffer (Option ℕ)
head_written = buffer_of (some 1 ∷ none ∷ some 3 ∷ some 4 ∷ []) (pos 95)

abbrev spare : Buffer (Option ℕ)
spare = record (buffer_of (some 2 ∷ []) (pos 7)) { cap = buffer_cap }

abbrev new_head : Buffer (Option ℕ)
new_head = record spare { contents = some 4 ∷ []; start = pos 135 }

head-IsChain : IsChain (head ∷ older)
unfolding first_write
head-IsChain = (
  is_buffer,
  (start_ok, omega arith),
  (is_buffer', (start_ok', omega arith), (is_buffer'', tt, tt)),
)
  where
    is_buffer : IsBuffer head
    is_buffer = record { positive = omega arith; room = omega arith; fits = omega arith }

    start_ok : pos 45 +ℤ pos 40 ≤ℤ first_write head
    start_ok = omega int_laws

    start_ok' : negsuc 4 +ℤ pos 10 ≤ℤ first_write middle
    start_ok' = omega int_laws

    is_buffer' : IsBuffer middle
    is_buffer' = record { positive = omega arith; room = omega arith; fits = omega arith }

    is_buffer'' : IsBuffer oldest
    is_buffer'' = record { positive = omega arith; room = omega arith; fits = omega arith }

-- In the buffer, one slot further than the data; and behind a full buffer.
write_in_place : write numbers [] head older (pos 130) (some 4) ≡ some ([], head_written ∷ older)
unfolding write index go_div put_slot ◌-ℤ◌
write_in_place = refl

write_appended :
    write numbers (spare ∷ []) head older (pos 140) (some 4) ≡ some ([], new_head ∷ head ∷ older)
unfolding write index go_div put_slot new_buffer pool_get ◌-ℤ◌
write_appended = refl

write-IsChain_example : IsPool {F = Option ℕ} [] × IsChain (new_head ∷ head ∷ older)
write-IsChain_example =
    write-IsChain numbers (spare ∷ []) head older (pos 140) (some 4) (refl, tt) head-IsChain
      write_appended

write-chain_at_example :
    chain_at numbers (new_head ∷ head ∷ older) (pos 150)
    ≡ updated numbers head older (pos 140) (some 4) (pos 150)
write-chain_at_example =
    write-chain_at numbers (spare ∷ []) head older (pos 140) (some 4) (omega arith) write_appended
      (pos 150)

abbrev three_cells : List (Option ℕ)
three_cells = some 0 ∷ some 0 ∷ some 1 ∷ some 0 ∷ []

read-Promise_example :
    Promise numbers 10 (pos 80) (pos 110) (read numbers head older (pos 80) (pos 110) three_cells)
unfolding ◌-ℤ◌
read-Promise_example =
    read-Promise numbers 10 head older (pos 80) (pos 110) three_cells (omega arith)
      (refl, (refl, (refl, tt))) refl

written_first : first_write head_written ≤ℤ pos 130
unfolding first_write
written_first = omega int_laws

read-write_example :
    read numbers head_written older (pos 130) (pos 131) (some 0 ∷ [])
    ≡ ok (some 4 ∷ []) (pos 130) (pos 140)
unfolding ◌+ℤ◌
read-write_example =
    read-write numbers [] head older (pos 130) (some 4) (some 0) [] tt head-IsChain write_in_place
      written_first

older-EndsOrdered : EndsOrdered head older
unfolding finish first_write
older-EndsOrdered = (omega int_laws, (omega int_laws, tt))

free-IsFreed_example :
    IsFreed (pos 500) (pos 120) [] head older (free (pos 500) [] head older (pos 120))
free-IsFreed_example = free-IsFreed (pos 500) (pos 120) [] head older older-EndsOrdered

free_run : (free (pos 500) [] head older (pos 90)).older ≡ middle ∷ []
unfolding free finish first_write retire ◌+ℤ◌
free_run = refl
