-- ===== src/Codegen/Calm/Creates.antt =====
-- The operations of the IRBuilder that go on in the block.
use gvn.Prelude.{ℕ, zero, suc, refl, Bool, List}
use gvn.Ir.Types.{Ty, Tys, none_left, param, array}
use gvn.Ir.Opcodes.{OpId, CmpOp}
use gvn.Ir.Module.{Value}
use gvn.Ast.Types.{RelOp, AddOp, op_plus, op_minus, MulOp, op_mul, op_div}
use gvn.Codegen.Builder.{
  create_binary, create_icmp, create_fcmp, create_zext, create_sitofp, create_fptosi, create_alloca,
  create_store, create_load, index_type, get_element_type, create_gep, create_call,
}
use gvn.Codegen.Convert.{promote, create_compare, create_add, create_mul, convert_arg}
use gvn.Codegen.Calm.{Calm, calm_rules, create-Calm, then-Calm, return-Calm, fail-Calm, check-Calm}

pub create_icmp-Calm : (c : CmpOp) (v w : Value) → Calm (create_icmp c v w)
unfolding create_icmp
create_icmp-Calm c v w = create-Calm OpId.cmp refl _ _ _ _

pub create_fcmp-Calm : (c : CmpOp) (v w : Value) → Calm (create_fcmp c v w)
unfolding create_fcmp
create_fcmp-Calm c v w = create-Calm OpId.fcmp refl _ _ _ _

pub create_zext-Calm : (v : Value) (t : Ty) → Calm (create_zext v t)
unfolding create_zext
create_zext-Calm v t = create-Calm OpId.zext refl _ _ _ _

pub create_sitofp-Calm : (v : Value) (t : Ty) → Calm (create_sitofp v t)
unfolding create_sitofp
create_sitofp-Calm v t = create-Calm OpId.sitofp refl _ _ _ _

pub create_fptosi-Calm : (v : Value) (t : Ty) → Calm (create_fptosi v t)
unfolding create_fptosi
create_fptosi-Calm v t = create-Calm OpId.fptosi refl _ _ _ _

pub create_alloca-Calm : (t : Ty) → Calm (create_alloca t)
unfolding create_alloca
create_alloca-Calm t = create-Calm OpId.alloca refl _ _ _ _

pub create_store-Calm : (v w : Value) → Calm (create_store v w)
unfolding create_store
create_store-Calm v w = create-Calm OpId.store refl _ _ _ _

pub create_load-Calm : (v : Value) → Calm (create_load v)
unfolding create_load
create_load-Calm v = search (calm_rules, create-Calm OpId.load refl) depth 12

index_type-Calm : (k : ℕ) (arr ty : Ty) → Calm (index_type arr ty k)
unfolding index_type
index_type-Calm zero arr ty = return-Calm _
index_type-Calm (suc k) (array t n) ty = then-Calm (check-Calm _) λ _. index_type-Calm k _ _
index_type-Calm (suc k) _ ty = fail-Calm _

pub create_gep-Calm : (v : Value) (vs : List Value) → Calm (create_gep v vs)
unfolding create_gep get_element_type
create_gep-Calm v vs =
    search (calm_rules, index_type-Calm, create-Calm OpId.getelementptr refl) depth 12

pub create_call-Calm : (v : Value) (vs : List Value) → Calm (create_call v vs)
unfolding create_call
create_call-Calm v vs = search (calm_rules, create-Calm OpId.call refl) depth 12

pub promote-Calm : (l r : Value) → Calm (promote l r)
unfolding promote
promote-Calm l r = search (calm_rules, create_sitofp-Calm) depth 12

pub create_compare-Calm : (o : RelOp) (p : Bool × Value × Value) → Calm (create_compare o p)
unfolding create_compare
create_compare-Calm o p = search (calm_rules, create_icmp-Calm, create_fcmp-Calm) depth 12

pub create_add-Calm : (o : AddOp) (p : Bool × Value × Value) → Calm (create_add o p)
unfolding create_add create_binary
create_add-Calm op_plus p =
    search (calm_rules, create-Calm OpId.add refl, create-Calm OpId.fadd refl) depth 12
create_add-Calm op_minus p =
    search (calm_rules, create-Calm OpId.sub refl, create-Calm OpId.fsub refl) depth 12

pub create_mul-Calm : (o : MulOp) (p : Bool × Value × Value) → Calm (create_mul o p)
unfolding create_mul create_binary
create_mul-Calm op_mul p =
    search (calm_rules, create-Calm OpId.mul refl, create-Calm OpId.fmul refl) depth 12
create_mul-Calm op_div p =
    search (calm_rules, create-Calm OpId.sdiv refl, create-Calm OpId.fdiv refl) depth 12

pub convert_arg-Calm : (ps : Tys) (v : Value) → Calm (convert_arg ps v)
convert_arg-Calm none_left v = search calm_rules depth 12
convert_arg-Calm (param p ps) v =
    search (calm_rules, create_sitofp-Calm, create_fptosi-Calm) depth 12
