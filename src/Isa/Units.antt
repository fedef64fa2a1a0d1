-- ===== src/Isa/Units.antt =====
-- MD_OP_FUCLASS of machine.h: the opcodes of machine.def whose functional-unit class is NA, with the
-- first entry of md_op2fu and the DEFLINK opcodes, need no functional unit.
use smt_register_capping.Isa.Opcode.{Opcode}
use smt_register_capping.Base.{Bool, true, false}

-- MD_OP_FUCLASS(op) != NA
unfoldable pub needs_unit : Opcode → Bool
needs_unit Opcode.fltv = false
needs_unit Opcode.ldf = false
needs_unit Opcode.ldg = false
needs_unit Opcode.stf = false
needs_unit Opcode.stg = false
needs_unit Opcode.pal_wrent = false
needs_unit Opcode.pal_wrkgp = false
needs_unit Opcode.pal_callsys = false
needs_unit Opcode.pal_imb = false
needs_unit Opcode.pal_rduniq = false
needs_unit Opcode.pal_wruniq = false
needs_unit Opcode.implver = false
needs_unit Opcode.amask = false
needs_unit Opcode.amaski = false
needs_unit Opcode.sqrtf = false
needs_unit Opcode.itoff = false
needs_unit Opcode.sqrtg = false
needs_unit Opcode.sqrtt = false
needs_unit Opcode.trapb = false
needs_unit Opcode.excb = false
needs_unit Opcode.mb = false
needs_unit Opcode.wmb = false
needs_unit Opcode.fetch = false
needs_unit Opcode.fetch_m = false
needs_unit Opcode.rpcc = false
needs_unit Opcode.rc_ = false
needs_unit Opcode.ecb = false
needs_unit Opcode.rs_ = false
needs_unit Opcode.wh64 = false
needs_unit Opcode.op_na = false
needs_unit Opcode.call_pal = false
needs_unit Opcode.link = false
needs_unit _ = true
