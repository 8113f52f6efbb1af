-- ===== src/Libfuncs/Felt252/Examples.antt =====
-- Felts at concrete arguments.
use cairo_native.Prelude.{◌-◌, ◌*◌, ◌/◌, ◌%◌, ◌≡◌, [], ◌∷◌, none, arith}
use cairo_native.Error.{ok, ◌>>=◌}
use cairo_native.Mlir.Wrapping.{wrapping, wrapping-IsMlir}
use cairo_native.Types.Integer.{prime}
use cairo_native.Libfuncs.Int.Felts.{first_of}
use cairo_native.Libfuncs.Felt252.Build.{add, sub, Felt252Runtime, build_binary_operation}
use cairo_native.Libfuncs.Felt252.Sums.{build_binary_operation-add, add-sub_round_trip}

-- Stands for the functions of the runtime.
abbrev runtime : Felt252Runtime
runtime = record { felt252_mul = λ a b. a * b % prime; felt252_div = λ a b. a / b }

build_binary_operation-add_example :
    build_binary_operation wrapping runtime add none ((prime - 1) ∷ 5 ∷ []) ≡ ok (0, 4 ∷ [])
build_binary_operation-add_example =
    build_binary_operation-add wrapping-IsMlir runtime (prime - 1) 5 (omega arith) (omega arith)

add-sub_round_trip_example :
    (build_binary_operation wrapping runtime add none (9 ∷ (prime - 4) ∷ []) >>= λ (branch, values).
    build_binary_operation wrapping runtime sub none (first_of values ∷ (prime - 4) ∷ []))
    ≡ ok (0, 9 ∷ [])
add-sub_round_trip_example =
    add-sub_round_trip wrapping-IsMlir runtime 9 (prime - 4) (omega arith) (omega arith)
