-- ===== src/RegFile/RegSet.antt =====
-- reg_file_t::get_reg_set of regrename.c: the types of the registers that an operation uses. The
-- opcodes that are not listed use none, in a case of the switch or in its default.
pub mod Agreement
use smt_register_capping.Isa.Opcode.{Opcode, RegType, reg_none, reg_int, reg_fp}
use smt_register_capping.Base.{ℕ}

-- class reg_set of regrename.h
pub record RegSet : Type 0 where
  pub src1 : RegType
  pub src2 : RegType
  pub dest : RegType
  pub load : ℕ
  pub store : ℕ

abbrev uses : RegType → RegType → RegType → ℕ → ℕ → RegSet
uses a b c l s = record { src1 = a; src2 = b; dest = c; load = l; store = s }

unfoldable pub get_reg_set : Opcode → RegSet
get_reg_set Opcode.lda = uses reg_none reg_int reg_int 1 0
get_reg_set Opcode.ldah = uses reg_none reg_int reg_int 1 0
get_reg_set Opcode.ldbu = uses reg_none reg_int reg_int 1 0
get_reg_set Opcode.ldq_u = uses reg_none reg_int reg_int 1 0
get_reg_set Opcode.ldwu = uses reg_none reg_int reg_int 1 0
get_reg_set Opcode.ldl = uses reg_none reg_int reg_int 1 0
get_reg_set Opcode.ldq = uses reg_none reg_int reg_int 1 0
get_reg_set Opcode.ldl_l = uses reg_none reg_int reg_int 1 0
get_reg_set Opcode.ldq_l = uses reg_none reg_int reg_int 1 0
get_reg_set Opcode.stw = uses reg_int reg_int reg_none 0 1
get_reg_set Opcode.stb = uses reg_int reg_int reg_none 0 1
get_reg_set Opcode.stq_u = uses reg_int reg_int reg_none 0 1
get_reg_set Opcode.stl = uses reg_int reg_int reg_none 0 1
get_reg_set Opcode.stq = uses reg_int reg_int reg_none 0 1
get_reg_set Opcode.stl_c = uses reg_int reg_int reg_int 0 1
get_reg_set Opcode.stq_c = uses reg_int reg_int reg_int 0 1
get_reg_set Opcode.lds = uses reg_none reg_int reg_fp 1 0
get_reg_set Opcode.ldt = uses reg_none reg_int reg_fp 1 0
get_reg_set Opcode.sts = uses reg_fp reg_int reg_none 0 0
get_reg_set Opcode.stt = uses reg_fp reg_int reg_none 0 0
get_reg_set Opcode.br = uses reg_none reg_none reg_int 0 0
get_reg_set Opcode.bsr = uses reg_none reg_none reg_int 0 0
get_reg_set Opcode.implver = uses reg_none reg_none reg_int 0 0
get_reg_set Opcode.rpcc = uses reg_none reg_none reg_int 0 0
get_reg_set Opcode.fbeq = uses reg_fp reg_none reg_none 0 0
get_reg_set Opcode.fblt = uses reg_fp reg_none reg_none 0 0
get_reg_set Opcode.fble = uses reg_fp reg_none reg_none 0 0
get_reg_set Opcode.fbne = uses reg_fp reg_none reg_none 0 0
get_reg_set Opcode.fbge = uses reg_fp reg_none reg_none 0 0
get_reg_set Opcode.fbgt = uses reg_fp reg_none reg_none 0 0
get_reg_set Opcode.blbc = uses reg_int reg_none reg_none 0 0
get_reg_set Opcode.beq = uses reg_int reg_none reg_none 0 0
get_reg_set Opcode.blt = uses reg_int reg_none reg_none 0 0
get_reg_set Opcode.ble = uses reg_int reg_none reg_none 0 0
get_reg_set Opcode.blbs = uses reg_int reg_none reg_none 0 0
get_reg_set Opcode.bne = uses reg_int reg_none reg_none 0 0
get_reg_set Opcode.bge = uses reg_int reg_none reg_none 0 0
get_reg_set Opcode.bgt = uses reg_int reg_none reg_none 0 0
get_reg_set Opcode.addl = uses reg_int reg_int reg_int 0 0
get_reg_set Opcode.s4addl = uses reg_int reg_int reg_int 0 0
get_reg_set Opcode.subl = uses reg_int reg_int reg_int 0 0
get_reg_set Opcode.s4subl = uses reg_int reg_int reg_int 0 0
get_reg_set Opcode.cmpbge = uses reg_int reg_int reg_int 0 0
get_reg_set Opcode.s8addl = uses reg_int reg_int reg_int 0 0
get_reg_set Opcode.s8subl = uses reg_int reg_int reg_int 0 0
get_reg_set Opcode.cmpult = uses reg_int reg_int reg_int 0 0
get_reg_set Opcode.addq = uses reg_int reg_int reg_int 0 0
get_reg_set Opcode.s4addq = uses reg_int reg_int reg_int 0 0
get_reg_set Opcode.subq = uses reg_int reg_int reg_int 0 0
get_reg_set Opcode.s4subq = uses reg_int reg_int reg_int 0 0
get_reg_set Opcode.cmpeq = uses reg_int reg_int reg_int 0 0
get_reg_set Opcode.s8addq = uses reg_int reg_int reg_int 0 0
get_reg_set Opcode.s8subq = uses reg_int reg_int reg_int 0 0
get_reg_set Opcode.cmpule = uses reg_int reg_int reg_int 0 0
get_reg_set Opcode.addlv = uses reg_int reg_int reg_int 0 0
get_reg_set Opcode.sublv = uses reg_int reg_int reg_int 0 0
get_reg_set Opcode.cmplt = uses reg_int reg_int reg_int 0 0
get_reg_set Opcode.addqv = uses reg_int reg_int reg_int 0 0
get_reg_set Opcode.subqv = uses reg_int reg_int reg_int 0 0
get_reg_set Opcode.cmple = uses reg_int reg_int reg_int 0 0
get_reg_set Opcode.and = uses reg_int reg_int reg_int 0 0
get_reg_set Opcode.bic = uses reg_int reg_int reg_int 0 0
get_reg_set Opcode.cmovlbs = uses reg_int reg_int reg_int 0 0
get_reg_set Opcode.cmovlbc = uses reg_int reg_int reg_int 0 0
get_reg_set Opcode.bis = uses reg_int reg_int reg_int 0 0
get_reg_set Opcode.cmoveq = uses reg_int reg_int reg_int 0 0
get_reg_set Opcode.cmovne = uses reg_int reg_int reg_int 0 0
get_reg_set Opcode.ornot = uses reg_int reg_int reg_int 0 0
get_reg_set Opcode.xor = uses reg_int reg_int reg_int 0 0
get_reg_set Opcode.cmovlt = uses reg_int reg_int reg_int 0 0
get_reg_set Opcode.cmovge = uses reg_int reg_int reg_int 0 0
get_reg_set Opcode.eqv = uses reg_int reg_int reg_int 0 0
get_reg_set Opcode.cmovle = uses reg_int reg_int reg_int 0 0
get_reg_set Opcode.cmovgt = uses reg_int reg_int reg_int 0 0
get_reg_set Opcode.mskbl = uses reg_int reg_int reg_int 0 0
get_reg_set Opcode.extbl = uses reg_int reg_int reg_int 0 0
get_reg_set Opcode.insbl = uses reg_int reg_int reg_int 0 0
get_reg_set Opcode.mskwl = uses reg_int reg_int reg_int 0 0
get_reg_set Opcode.extwl = uses reg_int reg_int reg_int 0 0
get_reg_set Opcode.inswl = uses reg_int reg_int reg_int 0 0
get_reg_set Opcode.mskll = uses reg_int reg_int reg_int 0 0
get_reg_set Opcode.extll = uses reg_int reg_int reg_int 0 0
get_reg_set Opcode.insll = uses reg_int reg_int reg_int 0 0
get_reg_set Opcode.zap = uses reg_int reg_int reg_int 0 0
get_reg_set Opcode.zapnot = uses reg_int reg_int reg_int 0 0
get_reg_set Opcode.mskql = uses reg_int reg_int reg_int 0 0
get_reg_set Opcode.srl = uses reg_int reg_int reg_int 0 0
get_reg_set Opcode.extql = uses reg_int reg_int reg_int 0 0
get_reg_set Opcode.sll = uses reg_int reg_int reg_int 0 0
get_reg_set Opcode.insql = uses reg_int reg_int reg_int 0 0
get_reg_set Opcode.sra = uses reg_int reg_int reg_int 0 0
get_reg_set Opcode.mskwh = uses reg_int reg_int reg_int 0 0
get_reg_set Opcode.inswh = uses reg_int reg_int reg_int 0 0
get_reg_set Opcode.extwh = uses reg_int reg_int reg_int 0 0
get_reg_set Opcode.msklh = uses reg_int reg_int reg_int 0 0
get_reg_set Opcode.inslh = uses reg_int reg_int reg_int 0 0
get_reg_set Opcode.extlh = uses reg_int reg_int reg_int 0 0
get_reg_set Opcode.mskqh = uses reg_int reg_int reg_int 0 0
get_reg_set Opcode.insqh = uses reg_int reg_int reg_int 0 0
get_reg_set Opcode.extqh = uses reg_int reg_int reg_int 0 0
get_reg_set Opcode.mull = uses reg_int reg_int reg_int 0 0
get_reg_set Opcode.mulq = uses reg_int reg_int reg_int 0 0
get_reg_set Opcode.umulh = uses reg_int reg_int reg_int 0 0
get_reg_set Opcode.perr = uses reg_int reg_int reg_int 0 0
get_reg_set Opcode.minsb8 = uses reg_int reg_int reg_int 0 0
get_reg_set Opcode.minsw4 = uses reg_int reg_int reg_int 0 0
get_reg_set Opcode.minub8 = uses reg_int reg_int reg_int 0 0
get_reg_set Opcode.minuw4 = uses reg_int reg_int reg_int 0 0
get_reg_set Opcode.maxub8 = uses reg_int reg_int reg_int 0 0
get_reg_set Opcode.maxuw4 = uses reg_int reg_int reg_int 0 0
get_reg_set Opcode.maxsb8 = uses reg_int reg_int reg_int 0 0
get_reg_set Opcode.maxsw4 = uses reg_int reg_int reg_int 0 0
get_reg_set Opcode.addli = uses reg_int reg_none reg_int 0 0
get_reg_set Opcode.s4addli = uses reg_int reg_none reg_int 0 0
get_reg_set Opcode.subli = uses reg_int reg_none reg_int 0 0
get_reg_set Opcode.s4subli = uses reg_int reg_none reg_int 0 0
get_reg_set Opcode.cmpbgei = uses reg_int reg_none reg_int 0 0
get_reg_set Opcode.s8addli = uses reg_int reg_none reg_int 0 0
get_reg_set Opcode.s8subli = uses reg_int reg_none reg_int 0 0
get_reg_set Opcode.cmpulti = uses reg_int reg_none reg_int 0 0
get_reg_set Opcode.addqi = uses reg_int reg_none reg_int 0 0
get_reg_set Opcode.s4addqi = uses reg_int reg_none reg_int 0 0
get_reg_set Opcode.subqi = uses reg_int reg_none reg_int 0 0
get_reg_set Opcode.s4subqi = uses reg_int reg_none reg_int 0 0
get_reg_set Opcode.cmpeqi = uses reg_int reg_none reg_int 0 0
get_reg_set Opcode.s8addqi = uses reg_int reg_none reg_int 0 0
get_reg_set Opcode.s8subqi = uses reg_int reg_none reg_int 0 0
get_reg_set Opcode.cmpulei = uses reg_int reg_none reg_int 0 0
get_reg_set Opcode.addlvi = uses reg_int reg_none reg_int 0 0
get_reg_set Opcode.sublvi = uses reg_int reg_none reg_int 0 0
get_reg_set Opcode.cmplti = uses reg_int reg_none reg_int 0 0
get_reg_set Opcode.addqvi = uses reg_int reg_none reg_int 0 0
get_reg_set Opcode.subqvi = uses reg_int reg_none reg_int 0 0
get_reg_set Opcode.cmplei = uses reg_int reg_none reg_int 0 0
get_reg_set Opcode.andi = uses reg_int reg_none reg_int 0 0
get_reg_set Opcode.bici = uses reg_int reg_none reg_int 0 0
get_reg_set Opcode.cmovlbsi = uses reg_int reg_none reg_int 0 0
get_reg_set Opcode.cmovlbci = uses reg_int reg_none reg_int 0 0
get_reg_set Opcode.bisi = uses reg_int reg_none reg_int 0 0
get_reg_set Opcode.cmoveqi = uses reg_int reg_none reg_int 0 0
get_reg_set Opcode.cmovnei = uses reg_int reg_none reg_int 0 0
get_reg_set Opcode.ornoti = uses reg_int reg_none reg_int 0 0
get_reg_set Opcode.xori = uses reg_int reg_none reg_int 0 0
get_reg_set Opcode.cmovlti = uses reg_int reg_none reg_int 0 0
get_reg_set Opcode.cmovgei = uses reg_int reg_none reg_int 0 0
get_reg_set Opcode.eqvi = uses reg_int reg_none reg_int 0 0
get_reg_set Opcode.amask = uses reg_int reg_none reg_int 0 0
get_reg_set Opcode.cmovlei = uses reg_int reg_none reg_int 0 0
get_reg_set Opcode.cmovgti = uses reg_int reg_none reg_int 0 0
get_reg_set Opcode.mskbli = uses reg_int reg_none reg_int 0 0
get_reg_set Opcode.extbli = uses reg_int reg_none reg_int 0 0
get_reg_set Opcode.insbli = uses reg_int reg_none reg_int 0 0
get_reg_set Opcode.mskwli = uses reg_int reg_none reg_int 0 0
get_reg_set Opcode.extwli = uses reg_int reg_none reg_int 0 0
get_reg_set Opcode.inswli = uses reg_int reg_none reg_int 0 0
get_reg_set Opcode.msklli = uses reg_int reg_none reg_int 0 0
get_reg_set Opcode.extlli = uses reg_int reg_none reg_int 0 0
get_reg_set Opcode.inslli = uses reg_int reg_none reg_int 0 0
get_reg_set Opcode.zapi = uses reg_int reg_none reg_int 0 0
get_reg_set Opcode.zapnoti = uses reg_int reg_none reg_int 0 0
get_reg_set Opcode.mskqli = uses reg_int reg_none reg_int 0 0
get_reg_set Opcode.srli = uses reg_int reg_none reg_int 0 0
get_reg_set Opcode.extqli = uses reg_int reg_none reg_int 0 0
get_reg_set Opcode.slli = uses reg_int reg_none reg_int 0 0
get_reg_set Opcode.insqli = uses reg_int reg_none reg_int 0 0
get_reg_set Opcode.srai = uses reg_int reg_none reg_int 0 0
get_reg_set Opcode.mskwhi = uses reg_int reg_none reg_int 0 0
get_reg_set Opcode.inswhi = uses reg_int reg_none reg_int 0 0
get_reg_set Opcode.extwhi = uses reg_int reg_none reg_int 0 0
get_reg_set Opcode.msklhi = uses reg_int reg_none reg_int 0 0
get_reg_set Opcode.inslhi = uses reg_int reg_none reg_int 0 0
get_reg_set Opcode.extlhi = uses reg_int reg_none reg_int 0 0
get_reg_set Opcode.mskqhi = uses reg_int reg_none reg_int 0 0
get_reg_set Opcode.insqhi = uses reg_int reg_none reg_int 0 0
get_reg_set Opcode.extqhi = uses reg_int reg_none reg_int 0 0
get_reg_set Opcode.mulli = uses reg_int reg_none reg_int 0 0
get_reg_set Opcode.mulqi = uses reg_int reg_none reg_int 0 0
get_reg_set Opcode.umulhi = uses reg_int reg_none reg_int 0 0
get_reg_set Opcode.jmp = uses reg_int reg_none reg_int 0 0
get_reg_set Opcode.jsr = uses reg_int reg_none reg_int 0 0
get_reg_set Opcode.retn = uses reg_int reg_none reg_int 0 0
get_reg_set Opcode.jsr_coroutine = uses reg_int reg_none reg_int 0 0
get_reg_set Opcode.ctpop = uses reg_int reg_none reg_int 0 0
get_reg_set Opcode.ctlz = uses reg_int reg_none reg_int 0 0
get_reg_set Opcode.cttz = uses reg_int reg_none reg_int 0 0
get_reg_set Opcode.unpkbw = uses reg_int reg_none reg_int 0 0
get_reg_set Opcode.unpkbl = uses reg_int reg_none reg_int 0 0
get_reg_set Opcode.pkwb = uses reg_int reg_none reg_int 0 0
get_reg_set Opcode.pklb = uses reg_int reg_none reg_int 0 0
get_reg_set Opcode.minsb8i = uses reg_int reg_none reg_int 0 0
get_reg_set Opcode.minsw4i = uses reg_int reg_none reg_int 0 0
get_reg_set Opcode.minub8i = uses reg_int reg_none reg_int 0 0
get_reg_set Opcode.minuw4i = uses reg_int reg_none reg_int 0 0
get_reg_set Opcode.maxub8i = uses reg_int reg_none reg_int 0 0
get_reg_set Opcode.maxuw4i = uses reg_int reg_none reg_int 0 0
get_reg_set Opcode.maxsb8i = uses reg_int reg_none reg_int 0 0
get_reg_set Opcode.maxsw4i = uses reg_int reg_none reg_int 0 0
get_reg_set Opcode.sextb = uses reg_int reg_none reg_int 0 0
get_reg_set Opcode.sextw = uses reg_int reg_none reg_int 0 0
get_reg_set Opcode.amaski = uses reg_none reg_none reg_int 0 0
get_reg_set Opcode.sextbi = uses reg_none reg_none reg_int 0 0
get_reg_set Opcode.sextwi = uses reg_none reg_none reg_int 0 0
get_reg_set Opcode.itofs = uses reg_int reg_none reg_fp 0 0
get_reg_set Opcode.itoft = uses reg_int reg_none reg_fp 0 0
get_reg_set Opcode.sqrts = uses reg_fp reg_none reg_fp 0 0
get_reg_set Opcode.sqrtt = uses reg_fp reg_none reg_fp 0 0
get_reg_set Opcode.cvtts = uses reg_fp reg_none reg_fp 0 0
get_reg_set Opcode.cvttq = uses reg_fp reg_none reg_fp 0 0
get_reg_set Opcode.cvtqs = uses reg_fp reg_none reg_fp 0 0
get_reg_set Opcode.cvtqt = uses reg_fp reg_none reg_fp 0 0
get_reg_set Opcode.cvtlq = uses reg_fp reg_none reg_fp 0 0
get_reg_set Opcode.cvtql = uses reg_fp reg_none reg_fp 0 0
get_reg_set Opcode.adds = uses reg_fp reg_fp reg_fp 0 0
get_reg_set Opcode.subs = uses reg_fp reg_fp reg_fp 0 0
get_reg_set Opcode.muls = uses reg_fp reg_fp reg_fp 0 0
get_reg_set Opcode.divs = uses reg_fp reg_fp reg_fp 0 0
get_reg_set Opcode.addt = uses reg_fp reg_fp reg_fp 0 0
get_reg_set Opcode.subt = uses reg_fp reg_fp reg_fp 0 0
get_reg_set Opcode.mult = uses reg_fp reg_fp reg_fp 0 0
get_reg_set Opcode.divt = uses reg_fp reg_fp reg_fp 0 0
get_reg_set Opcode.cmptun = uses reg_fp reg_fp reg_fp 0 0
get_reg_set Opcode.cmpteq = uses reg_fp reg_fp reg_fp 0 0
get_reg_set Opcode.cmptlt = uses reg_fp reg_fp reg_fp 0 0
get_reg_set Opcode.cmptle = uses reg_fp reg_fp reg_fp 0 0
get_reg_set Opcode.cpys = uses reg_fp reg_fp reg_fp 0 0
get_reg_set Opcode.cpysn = uses reg_fp reg_fp reg_fp 0 0
get_reg_set Opcode.cpyse = uses reg_fp reg_fp reg_fp 0 0
get_reg_set Opcode.fcmoveq = uses reg_fp reg_fp reg_fp 0 0
get_reg_set Opcode.fcmovne = uses reg_fp reg_fp reg_fp 0 0
get_reg_set Opcode.fcmovlt = uses reg_fp reg_fp reg_fp 0 0
get_reg_set Opcode.fcmovge = uses reg_fp reg_fp reg_fp 0 0
get_reg_set Opcode.fcmovle = uses reg_fp reg_fp reg_fp 0 0
get_reg_set Opcode.fcmovgt = uses reg_fp reg_fp reg_fp 0 0
get_reg_set Opcode.ftoit = uses reg_fp reg_none reg_int 0 0
get_reg_set Opcode.ftois = uses reg_fp reg_none reg_int 0 0
get_reg_set Opcode.mt_fpcr = uses reg_none reg_none reg_fp 0 0
get_reg_set Opcode.pal_rduniq = uses reg_none reg_none reg_int 0 0
get_reg_set Opcode.pal_wruniq = uses reg_int reg_none reg_none 0 0
get_reg_set _ = uses reg_none reg_none reg_none 0 0
