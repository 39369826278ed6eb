-- ===== src/Ir/Types.antt =====
-- The types of the LightIR (src/lightir/Type.cpp). A module makes each type once, so two types
-- are the same object exactly when they are built alike, and a type is its structure here.
use gvn.Prelude.{ℕ, Bool, true, false, ℕ_discrete}
use gvn.Prelude.{is_eq}

mutual
  pub data Ty : Type 0 where
    void_ty label_ty float_ty : Ty
    integer : ℕ → Ty
    pointer : Ty → Ty
    array : Ty → ℕ → Ty
    function_ty : Ty → Tys → Ty

  pub data Tys : Type 0 where
    none_left : Tys
    param : Ty → Tys → Tys

unfoldable pub Ty-discrete : Discrete Ty
Ty-discrete = hlevel ℕ_discrete

-- get_int1_type, get_int32_type.
abbrev pub int1_ty : Ty
int1_ty = integer 1

abbrev pub int32_ty : Ty
int32_ty = integer 32

-- Type::is_eq_type compares the addresses.
unfoldable pub is_eq_type : Ty → Ty → Bool
is_eq_type a b = is_eq Ty-discrete a b

abbrev pub is_void_type : Ty → Bool
is_void_type void_ty = true
is_void_type _ = false

abbrev pub is_integer_type : Ty → Bool
is_integer_type (integer n) = true
is_integer_type _ = false

abbrev pub is_float_type : Ty → Bool
is_float_type float_ty = true
is_float_type _ = false

abbrev pub is_pointer_type : Ty → Bool
is_pointer_type (pointer t) = true
is_pointer_type _ = false

abbrev pub is_array_type : Ty → Bool
is_array_type (array t n) = true
is_array_type _ = false
