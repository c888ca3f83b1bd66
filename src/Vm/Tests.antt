-- ===== src/Vm/Tests.antt =====
-- The theorems about the memory, applied to one of two words.
use uranus.Prelude.{◌⊎◌, true, false, [], ◌∷◌, ℕ, ◌≡◌, refl, some, replicate, arith}
use uranus.Vm.Calls.{call_gas, IsGranted, call_gas-IsGranted}
use uranus.Vm.Memory.{Memory, memory_gas_cost, expand, grown, stopped, out_of_gas}
use uranus.Vm.Stack.{make_stack_func}
use uranus.Vm.Heights.{IsRunnable, IsRefused, make_stack_func-IsRunnable}
use uranus.Vm.Growth.{IsPriced, expand-fee}

abbrev test_memory : Memory
test_memory = record { store = replicate 64 0; last_gas_cost = 6 }

IsPriced-test_memory : IsPriced 2 test_memory
IsPriced-test_memory = record { whole = refl; bounded = omega arith; paid = refl }

expand-fee_example :
    (mem' : Memory) × IsPriced 32 mem' × (expand 1000 100 test_memory ≡ grown 8 mem')
expand-fee_example = expand-fee test_memory 2 1000 100 IsPriced-test_memory (omega arith)

too_little_gas : expand 1000 91 test_memory ≡ stopped out_of_gas
unfolding expand memory_gas_cost
too_little_gas = refl

make_stack_func-IsRunnable_example :
    ((make_stack_func 2 1 (5 ∷ 6 ∷ 7 ∷ []) ≡ true) × IsRunnable 2 1 (5 ∷ 6 ∷ 7 ∷ []))
    ⊎ ((make_stack_func 2 1 (5 ∷ 6 ∷ 7 ∷ []) ≡ false) × IsRefused 2 1 (5 ∷ 6 ∷ 7 ∷ []))
make_stack_func-IsRunnable_example = make_stack_func-IsRunnable 2 1 (5 ∷ 6 ∷ 7 ∷ [])

call_gas-IsGranted_example :
    (gas : ℕ) × (call_gas 25000 6500 100 9000 ≡ some gas) × IsGranted 6500 100 9000 gas
call_gas-IsGranted_example =
    call_gas-IsGranted 25000 6500 100 9000 (omega arith) (omega arith) (omega arith)
