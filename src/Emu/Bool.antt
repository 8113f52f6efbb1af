-- ===== src/Emu/Bool.antt =====
-- debug_utils/sierra-emu/src/vm/bool.rs: booleans are enumerations of two units.
use cairo_native.Prelude.{
  ℕ, Bool, ◌&&◌, ◌||◌, not, ◌==◌, if◌then◌else◌, Option, none, some, List, [], ◌∷◌,
}
use cairo_native.Emu.Value.{Value, EvalAction, normal_branch, enum_value}

abbrev pub truth : ℕ → Bool
truth n = not (n == 0)

abbrev pub bit : Bool → ℕ
bit b = if b then 1 else 0

-- A binary operator keeps the type and the payload of its first argument.
unfoldable pub eval_bool_operator : (Bool → Bool → Bool) → List Value → Option EvalAction
eval_bool_operator op (enum_value self_ty lhs payload ∷ enum_value ty rhs other ∷ []) =
    some (normal_branch 0 (enum_value self_ty (bit (op (truth lhs) (truth rhs))) payload ∷ []))
eval_bool_operator op _ = none

abbrev pub eval_and : List Value → Option EvalAction
eval_and = eval_bool_operator ◌&&◌

abbrev pub eval_or : List Value → Option EvalAction
eval_or = eval_bool_operator ◌||◌

abbrev pub eval_xor : List Value → Option EvalAction
eval_xor = eval_bool_operator (λ x y. if x then not y else y)

unfoldable pub eval_not : List Value → Option EvalAction
eval_not (enum_value self_ty lhs payload ∷ []) =
    some (normal_branch 0 (enum_value self_ty (bit (lhs == 0)) payload ∷ []))
eval_not _ = none

unfoldable pub eval_bool_to_felt252 : List Value → Option EvalAction
eval_bool_to_felt252 (enum_value self_ty lhs payload ∷ []) =
    some (normal_branch 0 (Value.felt lhs ∷ []))
eval_bool_to_felt252 _ = none
