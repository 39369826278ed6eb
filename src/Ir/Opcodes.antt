-- ===== src/Ir/Opcodes.antt =====
-- Instruction::OpID and the comparison operators (include/lightir/Instruction.h).

pub data OpId : Type 0 where
  ret br : OpId
  add sub mul sdiv : OpId
  fadd fsub fmul fdiv : OpId
  alloca load store : OpId
  cmp fcmp phi call getelementptr zext fptosi sitofp : OpId

-- CmpInst::CmpOp and FCmpInst::CmpOp have the same enumerators.
pub data CmpOp : Type 0 where
  eq ne gt ge lt le : CmpOp

unfoldable pub OpId-discrete : Discrete OpId
OpId-discrete = hlevel

unfoldable pub CmpOp-discrete : Discrete CmpOp
CmpOp-discrete = hlevel
