-- ===== src/Sierra.antt =====
-- The library functions of Sierra, with the types of their signatures: what a builder and the
-- interpreter are told about the call that they handle.
use cairo_native.Prelude.Int.{ℤ, ◌+ℤ◌, ◌-ℤ◌}
use cairo_native.Types.{CoreTypeConcrete}

-- `BoundedIntConcreteLibfunc`. `trim` stands for `TrimMin` and `TrimMax`, which both the compiler
-- and the interpreter treat alike.
pub data BoundedIntConcreteLibfunc : Type 0 where
  add sub mul : (lhs rhs dst : CoreTypeConcrete) → BoundedIntConcreteLibfunc
  div_rem : (lhs rhs div rem : CoreTypeConcrete) → BoundedIntConcreteLibfunc
  constrain : (src lower upper : CoreTypeConcrete) → ℤ → BoundedIntConcreteLibfunc
  trim : (src dst : CoreTypeConcrete) → ℤ → BoundedIntConcreteLibfunc
  is_zero : (src dst : CoreTypeConcrete) → BoundedIntConcreteLibfunc
  wrap_non_zero : CoreTypeConcrete → BoundedIntConcreteLibfunc
  guarantee_verify u128_to_u32_guarantees : BoundedIntConcreteLibfunc

-- `IntOperator`
pub data IntOperator : Type 0 where
  overflowing_add overflowing_sub : IntOperator

-- The operation on integers, without bounds.
abbrev pub exact : IntOperator → ℤ → ℤ → ℤ
exact overflowing_add a b = a +ℤ b
exact overflowing_sub a b = a -ℤ b
