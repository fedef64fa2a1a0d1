-- ===== src/Isa/Operands.antt =====
-- The output and input operands O1, I1 and I2 of each DEFINST entry of machine.def (O2 and I3 are
-- DNA in every entry). An opcode that is not listed has no operand.
use smt_register_capping.Isa.Opcode.{Opcode}
use smt_register_capping.Base.{ℕ}

-- a register field of the instruction word, or a register that the opcode fixes
pub data Field : Type 0 where
  ra rb rc : Field
  fixed : ℕ → Field

-- DNA, DGPR(N), DFPR(N), DFPCR and DUNIQ of sim-outorder.c
pub data Operand : Type 0 where
  dna fpcr uniq : Operand
  gpr fpr : Field → Operand

pub record Operands : Type 0 where
  pub out1 : Operand
  pub in1 : Operand
  pub in2 : Operand

abbrev form : Operand → Operand → Operand → Operands
form a b c = record { out1 = a; in1 = b; in2 = c }

unfoldable pub operands : Opcode → Operands
operands Opcode.lda = form (gpr ra) dna (gpr rb)
operands Opcode.ldah = form (gpr ra) dna (gpr rb)
operands Opcode.ldbu = form (gpr ra) dna (gpr rb)
operands Opcode.ldq_u = form (gpr ra) dna (gpr rb)
operands Opcode.ldwu = form (gpr ra) dna (gpr rb)
operands Opcode.stw = form dna (gpr ra) (gpr rb)
operands Opcode.stb = form dna (gpr ra) (gpr rb)
operands Opcode.stq_u = form dna (gpr ra) (gpr rb)
operands Opcode.lds = form (fpr ra) dna (gpr rb)
operands Opcode.ldt = form (fpr ra) dna (gpr rb)
operands Opcode.sts = form dna (fpr ra) (gpr rb)
operands Opcode.stt = form dna (fpr ra) (gpr rb)
operands Opcode.ldl = form (gpr ra) dna (gpr rb)
operands Opcode.ldq = form (gpr ra) dna (gpr rb)
operands Opcode.ldl_l = form (gpr ra) dna (gpr rb)
operands Opcode.ldq_l = form (gpr ra) dna (gpr rb)
operands Opcode.stl = form dna (gpr ra) (gpr rb)
operands Opcode.stq = form dna (gpr ra) (gpr rb)
operands Opcode.stl_c = form (gpr ra) (gpr ra) (gpr rb)
operands Opcode.stq_c = form (gpr ra) (gpr ra) (gpr rb)
operands Opcode.br = form (gpr ra) dna dna
operands Opcode.fbeq = form dna (fpr ra) dna
operands Opcode.fblt = form dna (fpr ra) dna
operands Opcode.fble = form dna (fpr ra) dna
operands Opcode.bsr = form (gpr ra) dna dna
operands Opcode.fbne = form dna (fpr ra) dna
operands Opcode.fbge = form dna (fpr ra) dna
operands Opcode.fbgt = form dna (fpr ra) dna
operands Opcode.blbc = form dna (gpr ra) dna
operands Opcode.beq = form dna (gpr ra) dna
operands Opcode.blt = form dna (gpr ra) dna
operands Opcode.ble = form dna (gpr ra) dna
operands Opcode.blbs = form dna (gpr ra) dna
operands Opcode.bne = form dna (gpr ra) dna
operands Opcode.bge = form dna (gpr ra) dna
operands Opcode.bgt = form dna (gpr ra) dna
operands Opcode.pal_wrent = form dna (gpr ra) dna
operands Opcode.pal_wrkgp = form (gpr (fixed 29)) (gpr ra) dna
operands Opcode.pal_rduniq = form (gpr (fixed 0)) uniq dna
operands Opcode.pal_wruniq = form uniq (gpr (fixed 16)) dna
operands Opcode.addl = form (gpr rc) (gpr ra) (gpr rb)
operands Opcode.addli = form (gpr rc) (gpr ra) dna
operands Opcode.s4addl = form (gpr rc) (gpr ra) (gpr rb)
operands Opcode.s4addli = form (gpr rc) (gpr ra) dna
operands Opcode.subl = form (gpr rc) (gpr ra) (gpr rb)
operands Opcode.subli = form (gpr rc) (gpr ra) dna
operands Opcode.s4subl = form (gpr rc) (gpr ra) (gpr rb)
operands Opcode.s4subli = form (gpr rc) (gpr ra) dna
operands Opcode.cmpbge = form (gpr rc) (gpr ra) (gpr rb)
operands Opcode.cmpbgei = form (gpr rc) (gpr ra) dna
operands Opcode.s8addl = form (gpr rc) (gpr ra) (gpr rb)
operands Opcode.s8addli = form (gpr rc) (gpr ra) dna
operands Opcode.s8subl = form (gpr rc) (gpr ra) (gpr rb)
operands Opcode.s8subli = form (gpr rc) (gpr ra) dna
operands Opcode.cmpult = form (gpr rc) (gpr ra) (gpr rb)
operands Opcode.cmpulti = form (gpr rc) (gpr ra) dna
operands Opcode.addq = form (gpr rc) (gpr ra) (gpr rb)
operands Opcode.addqi = form (gpr rc) (gpr ra) dna
operands Opcode.s4addq = form (gpr rc) (gpr ra) (gpr rb)
operands Opcode.s4addqi = form (gpr rc) (gpr ra) dna
operands Opcode.subq = form (gpr rc) (gpr ra) (gpr rb)
operands Opcode.subqi = form (gpr rc) (gpr ra) dna
operands Opcode.s4subq = form (gpr rc) (gpr ra) (gpr rb)
operands Opcode.s4subqi = form (gpr rc) (gpr ra) dna
operands Opcode.cmpeq = form (gpr rc) (gpr ra) (gpr rb)
operands Opcode.cmpeqi = form (gpr rc) (gpr ra) dna
operands Opcode.s8addq = form (gpr rc) (gpr ra) (gpr rb)
operands Opcode.s8addqi = form (gpr rc) (gpr ra) dna
operands Opcode.s8subq = form (gpr rc) (gpr ra) (gpr rb)
operands Opcode.s8subqi = form (gpr rc) (gpr ra) dna
operands Opcode.cmpule = form (gpr rc) (gpr ra) (gpr rb)
operands Opcode.cmpulei = form (gpr rc) (gpr ra) dna
operands Opcode.addlv = form (gpr rc) (gpr ra) (gpr rb)
operands Opcode.addlvi = form (gpr rc) (gpr ra) dna
operands Opcode.sublv = form (gpr rc) (gpr ra) (gpr rb)
operands Opcode.sublvi = form (gpr rc) (gpr ra) dna
operands Opcode.cmplt = form (gpr rc) (gpr ra) (gpr rb)
operands Opcode.cmplti = form (gpr rc) (gpr ra) dna
operands Opcode.addqv = form (gpr rc) (gpr ra) (gpr rb)
operands Opcode.addqvi = form (gpr rc) (gpr ra) dna
operands Opcode.subqv = form (gpr rc) (gpr ra) (gpr rb)
operands Opcode.subqvi = form (gpr rc) (gpr ra) dna
operands Opcode.cmple = form (gpr rc) (gpr ra) (gpr rb)
operands Opcode.cmplei = form (gpr rc) (gpr ra) dna
operands Opcode.implver = form (gpr rc) dna dna
operands Opcode.and = form (gpr rc) (gpr ra) (gpr rb)
operands Opcode.andi = form (gpr rc) (gpr ra) dna
operands Opcode.bic = form (gpr rc) (gpr ra) (gpr rb)
operands Opcode.bici = form (gpr rc) (gpr ra) dna
operands Opcode.cmovlbs = form (gpr rc) (gpr ra) (gpr rb)
operands Opcode.cmovlbsi = form (gpr rc) (gpr ra) dna
operands Opcode.cmovlbc = form (gpr rc) (gpr ra) (gpr rb)
operands Opcode.cmovlbci = form (gpr rc) (gpr ra) dna
operands Opcode.bis = form (gpr rc) (gpr ra) (gpr rb)
operands Opcode.bisi = form (gpr rc) (gpr ra) dna
operands Opcode.cmoveq = form (gpr rc) (gpr ra) (gpr rb)
operands Opcode.cmoveqi = form (gpr rc) (gpr ra) dna
operands Opcode.cmovne = form (gpr rc) (gpr ra) (gpr rb)
operands Opcode.cmovnei = form (gpr rc) (gpr ra) dna
operands Opcode.ornot = form (gpr rc) (gpr ra) (gpr rb)
operands Opcode.ornoti = form (gpr rc) (gpr ra) dna
operands Opcode.xor = form (gpr rc) (gpr ra) (gpr rb)
operands Opcode.xori = form (gpr rc) (gpr ra) dna
operands Opcode.cmovlt = form (gpr rc) (gpr ra) (gpr rb)
operands Opcode.cmovlti = form (gpr rc) (gpr ra) dna
operands Opcode.cmovge = form (gpr rc) (gpr ra) (gpr rb)
operands Opcode.cmovgei = form (gpr rc) (gpr ra) dna
operands Opcode.eqv = form (gpr rc) (gpr ra) (gpr rb)
operands Opcode.eqvi = form (gpr rc) (gpr ra) dna
operands Opcode.amask = form (gpr rc) (gpr rb) dna
operands Opcode.amaski = form (gpr rc) dna dna
operands Opcode.cmovle = form (gpr rc) (gpr ra) (gpr rb)
operands Opcode.cmovlei = form (gpr rc) (gpr ra) dna
operands Opcode.cmovgt = form (gpr rc) (gpr ra) (gpr rb)
operands Opcode.cmovgti = form (gpr rc) (gpr ra) dna
operands Opcode.mskbl = form (gpr rc) (gpr ra) (gpr rb)
operands Opcode.mskbli = form (gpr rc) (gpr ra) dna
operands Opcode.extbl = form (gpr rc) (gpr ra) (gpr rb)
operands Opcode.extbli = form (gpr rc) (gpr ra) dna
operands Opcode.insbl = form (gpr rc) (gpr ra) (gpr rb)
operands Opcode.insbli = form (gpr rc) (gpr ra) dna
operands Opcode.mskwl = form (gpr rc) (gpr ra) (gpr rb)
operands Opcode.mskwli = form (gpr rc) (gpr ra) dna
operands Opcode.extwl = form (gpr rc) (gpr ra) (gpr rb)
operands Opcode.extwli = form (gpr rc) (gpr ra) dna
operands Opcode.inswl = form (gpr rc) (gpr ra) (gpr rb)
operands Opcode.inswli = form (gpr rc) (gpr ra) dna
operands Opcode.mskll = form (gpr rc) (gpr ra) (gpr rb)
operands Opcode.msklli = form (gpr rc) (gpr ra) dna
operands Opcode.extll = form (gpr rc) (gpr ra) (gpr rb)
operands Opcode.extlli = form (gpr rc) (gpr ra) dna
operands Opcode.insll = form (gpr rc) (gpr ra) (gpr rb)
operands Opcode.inslli = form (gpr rc) (gpr ra) dna
operands Opcode.zap = form (gpr rc) (gpr ra) (gpr rb)
operands Opcode.zapi = form (gpr rc) (gpr ra) dna
operands Opcode.zapnot = form (gpr rc) (gpr ra) (gpr rb)
operands Opcode.zapnoti = form (gpr rc) (gpr ra) dna
operands Opcode.mskql = form (gpr rc) (gpr ra) (gpr rb)
operands Opcode.mskqli = form (gpr rc) (gpr ra) dna
operands Opcode.srl = form (gpr rc) (gpr ra) (gpr rb)
operands Opcode.srli = form (gpr rc) (gpr ra) dna
operands Opcode.extql = form (gpr rc) (gpr ra) (gpr rb)
operands Opcode.extqli = form (gpr rc) (gpr ra) dna
operands Opcode.sll = form (gpr rc) (gpr ra) (gpr rb)
operands Opcode.slli = form (gpr rc) (gpr ra) dna
operands Opcode.insql = form (gpr rc) (gpr ra) (gpr rb)
operands Opcode.insqli = form (gpr rc) (gpr ra) dna
operands Opcode.sra = form (gpr rc) (gpr ra) (gpr rb)
operands Opcode.srai = form (gpr rc) (gpr ra) dna
operands Opcode.mskwh = form (gpr rc) (gpr ra) (gpr rb)
operands Opcode.mskwhi = form (gpr rc) (gpr ra) dna
operands Opcode.inswh = form (gpr rc) (gpr ra) (gpr rb)
operands Opcode.inswhi = form (gpr rc) (gpr ra) dna
operands Opcode.extwh = form (gpr rc) (gpr ra) (gpr rb)
operands Opcode.extwhi = form (gpr rc) (gpr ra) dna
operands Opcode.msklh = form (gpr rc) (gpr ra) (gpr rb)
operands Opcode.msklhi = form (gpr rc) (gpr ra) dna
operands Opcode.inslh = form (gpr rc) (gpr ra) (gpr rb)
operands Opcode.inslhi = form (gpr rc) (gpr ra) dna
operands Opcode.extlh = form (gpr rc) (gpr ra) (gpr rb)
operands Opcode.extlhi = form (gpr rc) (gpr ra) dna
operands Opcode.mskqh = form (gpr rc) (gpr ra) (gpr rb)
operands Opcode.mskqhi = form (gpr rc) (gpr ra) dna
operands Opcode.insqh = form (gpr rc) (gpr ra) (gpr rb)
operands Opcode.insqhi = form (gpr rc) (gpr ra) dna
operands Opcode.extqh = form (gpr rc) (gpr ra) (gpr rb)
operands Opcode.extqhi = form (gpr rc) (gpr ra) dna
operands Opcode.mull = form (gpr rc) (gpr ra) (gpr rb)
operands Opcode.mulli = form (gpr rc) (gpr ra) dna
operands Opcode.mulq = form (gpr rc) (gpr ra) (gpr rb)
operands Opcode.mulqi = form (gpr rc) (gpr ra) dna
operands Opcode.umulh = form (gpr rc) (gpr ra) (gpr rb)
operands Opcode.umulhi = form (gpr rc) (gpr ra) dna
operands Opcode.itofs = form (fpr rc) (gpr ra) dna
operands Opcode.sqrts = form (fpr rc) (fpr rb) dna
operands Opcode.itoft = form (fpr rc) (gpr ra) dna
operands Opcode.sqrtt = form (fpr rc) (fpr rb) dna
operands Opcode.adds = form (fpr rc) (fpr ra) (fpr rb)
operands Opcode.subs = form (fpr rc) (fpr ra) (fpr rb)
operands Opcode.muls = form (fpr rc) (fpr ra) (fpr rb)
operands Opcode.divs = form (fpr rc) (fpr ra) (fpr rb)
operands Opcode.addt = form (fpr rc) (fpr ra) (fpr rb)
operands Opcode.subt = form (fpr rc) (fpr ra) (fpr rb)
operands Opcode.mult = form (fpr rc) (fpr ra) (fpr rb)
operands Opcode.divt = form (fpr rc) (fpr ra) (fpr rb)
operands Opcode.cmptun = form (fpr rc) (fpr ra) (fpr rb)
operands Opcode.cmpteq = form (fpr rc) (fpr ra) (fpr rb)
operands Opcode.cmptlt = form (fpr rc) (fpr ra) (fpr rb)
operands Opcode.cmptle = form (fpr rc) (fpr ra) (fpr rb)
operands Opcode.cvtts = form (fpr rc) (fpr rb) dna
operands Opcode.cvttq = form (fpr rc) (fpr rb) dna
operands Opcode.cvtqs = form (fpr rc) (fpr rb) dna
operands Opcode.cvtqt = form (fpr rc) (fpr rb) dna
operands Opcode.cvtlq = form (fpr rc) (fpr rb) dna
operands Opcode.cpys = form (fpr rc) (fpr ra) (fpr rb)
operands Opcode.cpysn = form (fpr rc) (fpr ra) (fpr rb)
operands Opcode.cpyse = form (fpr rc) (fpr ra) (fpr rb)
operands Opcode.mt_fpcr = form fpcr (fpr ra) dna
operands Opcode.mf_fpcr = form (fpr ra) fpcr dna
operands Opcode.fcmoveq = form (fpr rc) (fpr ra) (fpr rb)
operands Opcode.fcmovne = form (fpr rc) (fpr ra) (fpr rb)
operands Opcode.fcmovlt = form (fpr rc) (fpr ra) (fpr rb)
operands Opcode.fcmovge = form (fpr rc) (fpr ra) (fpr rb)
operands Opcode.fcmovle = form (fpr rc) (fpr ra) (fpr rb)
operands Opcode.fcmovgt = form (fpr rc) (fpr ra) (fpr rb)
operands Opcode.cvtql = form (fpr rc) (fpr rb) dna
operands Opcode.rpcc = form (gpr ra) dna dna
operands Opcode.jmp = form (gpr ra) (gpr rb) dna
operands Opcode.jsr = form (gpr ra) (gpr rb) dna
operands Opcode.retn = form (gpr ra) (gpr rb) dna
operands Opcode.jsr_coroutine = form (gpr ra) (gpr rb) dna
operands Opcode.ctpop = form (gpr rc) (gpr rb) dna
operands Opcode.perr = form (gpr rc) (gpr ra) (gpr rb)
operands Opcode.ctlz = form (gpr rc) (gpr rb) dna
operands Opcode.cttz = form (gpr rc) (gpr rb) dna
operands Opcode.unpkbw = form (gpr rc) (gpr rb) dna
operands Opcode.unpkbl = form (gpr rc) (gpr rb) dna
operands Opcode.pkwb = form (gpr rc) (gpr rb) dna
operands Opcode.pklb = form (gpr rc) (gpr rb) dna
operands Opcode.ftoit = form (gpr rc) (fpr ra) dna
operands Opcode.ftois = form (gpr rc) (fpr ra) dna
operands Opcode.minsb8 = form (gpr rc) (gpr ra) (gpr rb)
operands Opcode.minsb8i = form (gpr rc) (gpr ra) dna
operands Opcode.minsw4 = form (gpr rc) (gpr ra) (gpr rb)
operands Opcode.minsw4i = form (gpr rc) (gpr ra) dna
operands Opcode.minub8 = form (gpr rc) (gpr ra) (gpr rb)
operands Opcode.minub8i = form (gpr rc) (gpr ra) dna
operands Opcode.minuw4 = form (gpr rc) (gpr ra) (gpr rb)
operands Opcode.minuw4i = form (gpr rc) (gpr ra) dna
operands Opcode.maxub8 = form (gpr rc) (gpr ra) (gpr rb)
operands Opcode.maxub8i = form (gpr rc) (gpr ra) dna
operands Opcode.maxuw4 = form (gpr rc) (gpr ra) (gpr rb)
operands Opcode.maxuw4i = form (gpr rc) (gpr ra) dna
operands Opcode.maxsb8 = form (gpr rc) (gpr ra) (gpr rb)
operands Opcode.maxsb8i = form (gpr rc) (gpr ra) dna
operands Opcode.maxsw4 = form (gpr rc) (gpr ra) (gpr rb)
operands Opcode.maxsw4i = form (gpr rc) (gpr ra) dna
operands Opcode.sextb = form (gpr rc) (gpr rb) dna
operands Opcode.sextbi = form (gpr rc) dna dna
operands Opcode.sextw = form (gpr rc) (gpr rb) dna
operands Opcode.sextwi = form (gpr rc) dna dna
operands _ = form dna dna dna
