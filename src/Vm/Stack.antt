-- ===== src/Vm/Stack.antt =====
-- core/vm/stack.go, stack_table.go and memory_table.go: the stack, the check of its height before an
-- operation, and the memory that an operation reaches. A stack is a list with its top first; a slice
-- that is indexed out of range panics.
use Prim.Native.Nat.{max}
use uranus.Prelude.{
  ℕ, ◌+◌, ◌-◌, Bool, not, ◌&&◌, List, [], ◌∷◌, none, some, length, get_elem?, ltb, ◌==◌,
  if◌then◌else◌, Result, ok, panic, slice_bounds, ◌>>=◌,
}

abbrev pub Stack : Type 0
Stack = List ℕ

unfoldable pub push : ℕ → Stack → Stack
push d st = d ∷ st

unfoldable pub pop : Stack → Result (ℕ × Stack)
pop [] = panic slice_bounds
pop (v ∷ st) = ok (v, st)

-- `Back`
unfoldable pub back : ℕ → Stack → Result ℕ
back n st = elim (get_elem? st n) [ none ↦ panic slice_bounds | some v ↦ ok v ]

-- `require`, true where there is no error
abbrev pub require : ℕ → Stack → Bool
require n st = not (ltb (length st) n)

abbrev pub stack_limit : ℕ
stack_limit = 1024

-- The function that `makeStackFunc` makes, true where there is no error.
unfoldable pub make_stack_func : ℕ → ℕ → Stack → Bool
make_stack_func pops pushes st =
    require pops st && not (ltb stack_limit (length st + pushes - pops))

unfoldable pub calc_mem_size : ℕ → ℕ → ℕ
calc_mem_size off l = if l == 0 then 0 else off + l

-- The size at an offset and a length of the stack.
unfoldable pub mem_size_at : ℕ → ℕ → Stack → Result ℕ
unfolding calc_mem_size back
mem_size_at i j st = back i st >>= λ off. back j st >>= λ l. ok (calc_mem_size off l)

-- The larger of two such sizes.
unfoldable pub mem_size_of_two : ℕ → ℕ → ℕ → ℕ → Stack → Result ℕ
unfolding mem_size_at
mem_size_of_two i j k l st = mem_size_at i j st >>= λ x. mem_size_at k l st >>= λ y. ok (max x y)

unfoldable pub memory_sha3 : Stack → Result ℕ
memory_sha3 = mem_size_at 0 1

unfoldable pub memory_call_data_copy : Stack → Result ℕ
memory_call_data_copy = mem_size_at 0 2

unfoldable pub memory_ext_code_copy : Stack → Result ℕ
memory_ext_code_copy = mem_size_at 1 3

unfoldable pub memory_create : Stack → Result ℕ
memory_create = mem_size_at 1 2

unfoldable pub memory_call : Stack → Result ℕ
memory_call = mem_size_of_two 5 6 3 4

unfoldable pub memory_delegate_call : Stack → Result ℕ
memory_delegate_call = mem_size_of_two 4 5 2 3

-- The size of a fixed length at the offset on top of the stack.
unfoldable pub mem_size_for : ℕ → Stack → Result ℕ
unfolding calc_mem_size back
mem_size_for l st = back 0 st >>= λ off. ok (calc_mem_size off l)

unfoldable pub memory_return_data_copy : Stack → Result ℕ
memory_return_data_copy = mem_size_at 0 2

unfoldable pub memory_code_copy : Stack → Result ℕ
memory_code_copy = mem_size_at 0 2

unfoldable pub memory_mload : Stack → Result ℕ
memory_mload = mem_size_for 32

unfoldable pub memory_mstore8 : Stack → Result ℕ
memory_mstore8 = mem_size_for 1

unfoldable pub memory_mstore : Stack → Result ℕ
memory_mstore = mem_size_for 32

unfoldable pub memory_call_code : Stack → Result ℕ
memory_call_code = mem_size_of_two 5 6 3 4

unfoldable pub memory_static_call : Stack → Result ℕ
memory_static_call = mem_size_of_two 4 5 2 3

unfoldable pub memory_return : Stack → Result ℕ
memory_return = mem_size_at 0 1

unfoldable pub memory_revert : Stack → Result ℕ
memory_revert = mem_size_at 0 1

unfoldable pub memory_log : Stack → Result ℕ
memory_log = mem_size_at 0 1
