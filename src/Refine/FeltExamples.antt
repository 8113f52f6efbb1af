-- ===== src/Refine/FeltExamples.antt =====
-- Felts at concrete arguments: 3 and 5.
use cairo_native.Prelude.{◌*◌, ◌/◌, ◌%◌, none, [], ◌∷◌, arith}
use cairo_native.Mlir.Wrapping.{wrapping, wrapping-IsMlir}
use cairo_native.Types.Integer.{prime}
use cairo_native.Libfuncs.Felt252.Build.{add, sub, Felt252Runtime, build_binary_operation}
use cairo_native.Emu.Value.{Value}
use cairo_native.Emu.Felt252.{eval_felt_operation, felt_add, felt_sub}
use cairo_native.Refine.Felt252.{SameFelt, felt_operation-SameFelt}

-- Stands for the functions of the runtime.
abbrev runtime : Felt252Runtime
runtime = record { felt252_mul = λ a b. a * b % prime; felt252_div = λ a b. a / b }

felt_operation-SameFelt_example :
    SameFelt
      (eval_felt_operation ◌/◌ felt_add (Value.felt 3 ∷ Value.felt 5 ∷ []))
      (build_binary_operation wrapping runtime add none (3 ∷ 5 ∷ []))
    × SameFelt
        (eval_felt_operation ◌/◌ felt_sub (Value.felt 3 ∷ Value.felt 5 ∷ []))
        (build_binary_operation wrapping runtime sub none (3 ∷ 5 ∷ []))
felt_operation-SameFelt_example =
    felt_operation-SameFelt wrapping-IsMlir runtime ◌/◌ 3 5 (omega arith) (omega arith)
