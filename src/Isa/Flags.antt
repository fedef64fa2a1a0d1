-- ===== src/Isa/Flags.antt =====
-- MD_OP_FLAGS: the flags of each DEFINST entry of machine.def. An opcode that is not listed has none.
use smt_register_capping.Isa.Opcode.{Opcode, Flag}
use smt_register_capping.Base.{Bool, true, false, ◌&&◌, ◌||◌, List, [], ◌∷◌}

unfoldable pub flags : Opcode → List Flag
flags Opcode.lda = Flag.icomp ∷ []
flags Opcode.ldah = Flag.icomp ∷ []
flags Opcode.ldbu = Flag.mem ∷ Flag.load ∷ Flag.disp ∷ []
flags Opcode.ldq_u = Flag.mem ∷ Flag.load ∷ Flag.disp ∷ []
flags Opcode.ldwu = Flag.mem ∷ Flag.load ∷ Flag.disp ∷ []
flags Opcode.stw = Flag.mem ∷ Flag.store ∷ Flag.disp ∷ []
flags Opcode.stb = Flag.mem ∷ Flag.store ∷ Flag.disp ∷ []
flags Opcode.stq_u = Flag.mem ∷ Flag.store ∷ Flag.disp ∷ []
flags Opcode.lds = Flag.mem ∷ Flag.load ∷ Flag.disp ∷ []
flags Opcode.ldt = Flag.mem ∷ Flag.load ∷ Flag.disp ∷ []
flags Opcode.sts = Flag.mem ∷ Flag.store ∷ Flag.disp ∷ []
flags Opcode.stt = Flag.mem ∷ Flag.store ∷ Flag.disp ∷ []
flags Opcode.ldl = Flag.mem ∷ Flag.load ∷ Flag.disp ∷ []
flags Opcode.ldq = Flag.mem ∷ Flag.load ∷ Flag.disp ∷ []
flags Opcode.ldl_l = Flag.mem ∷ Flag.load ∷ Flag.disp ∷ []
flags Opcode.ldq_l = Flag.mem ∷ Flag.load ∷ Flag.disp ∷ []
flags Opcode.stl = Flag.mem ∷ Flag.store ∷ Flag.disp ∷ []
flags Opcode.stq = Flag.mem ∷ Flag.store ∷ Flag.disp ∷ []
flags Opcode.stl_c = Flag.mem ∷ Flag.store ∷ Flag.disp ∷ []
flags Opcode.stq_c = Flag.mem ∷ Flag.store ∷ Flag.disp ∷ []
flags Opcode.br = Flag.ctrl ∷ Flag.uncond ∷ Flag.dirjmp ∷ []
flags Opcode.fbeq = Flag.ctrl ∷ Flag.cond ∷ Flag.dirjmp ∷ []
flags Opcode.fblt = Flag.ctrl ∷ Flag.cond ∷ Flag.dirjmp ∷ []
flags Opcode.fble = Flag.ctrl ∷ Flag.cond ∷ Flag.dirjmp ∷ []
flags Opcode.bsr = Flag.ctrl ∷ Flag.uncond ∷ Flag.dirjmp ∷ []
flags Opcode.fbne = Flag.ctrl ∷ Flag.cond ∷ Flag.dirjmp ∷ []
flags Opcode.fbge = Flag.ctrl ∷ Flag.cond ∷ Flag.dirjmp ∷ []
flags Opcode.fbgt = Flag.ctrl ∷ Flag.cond ∷ Flag.dirjmp ∷ []
flags Opcode.blbc = Flag.ctrl ∷ Flag.cond ∷ Flag.dirjmp ∷ []
flags Opcode.beq = Flag.ctrl ∷ Flag.cond ∷ Flag.dirjmp ∷ []
flags Opcode.blt = Flag.ctrl ∷ Flag.cond ∷ Flag.dirjmp ∷ []
flags Opcode.ble = Flag.ctrl ∷ Flag.cond ∷ Flag.dirjmp ∷ []
flags Opcode.blbs = Flag.ctrl ∷ Flag.cond ∷ Flag.dirjmp ∷ []
flags Opcode.bne = Flag.ctrl ∷ Flag.cond ∷ Flag.dirjmp ∷ []
flags Opcode.bge = Flag.ctrl ∷ Flag.cond ∷ Flag.dirjmp ∷ []
flags Opcode.bgt = Flag.ctrl ∷ Flag.cond ∷ Flag.dirjmp ∷ []
flags Opcode.pal_wrent = Flag.trap ∷ []
flags Opcode.pal_wrkgp = Flag.trap ∷ []
flags Opcode.pal_callsys = Flag.trap ∷ []
flags Opcode.pal_imb = Flag.trap ∷ []
flags Opcode.pal_rduniq = Flag.trap ∷ []
flags Opcode.pal_wruniq = Flag.trap ∷ []
flags Opcode.addl = Flag.icomp ∷ []
flags Opcode.addli = Flag.icomp ∷ Flag.imm ∷ []
flags Opcode.s4addl = Flag.icomp ∷ []
flags Opcode.s4addli = Flag.icomp ∷ Flag.imm ∷ []
flags Opcode.subl = Flag.icomp ∷ []
flags Opcode.subli = Flag.icomp ∷ Flag.imm ∷ []
flags Opcode.s4subl = Flag.icomp ∷ []
flags Opcode.s4subli = Flag.icomp ∷ Flag.imm ∷ []
flags Opcode.cmpbge = Flag.icomp ∷ []
flags Opcode.cmpbgei = Flag.icomp ∷ Flag.imm ∷ []
flags Opcode.s8addl = Flag.icomp ∷ []
flags Opcode.s8addli = Flag.icomp ∷ Flag.imm ∷ []
flags Opcode.s8subl = Flag.icomp ∷ []
flags Opcode.s8subli = Flag.icomp ∷ Flag.imm ∷ []
flags Opcode.cmpult = Flag.icomp ∷ []
flags Opcode.cmpulti = Flag.icomp ∷ Flag.imm ∷ []
flags Opcode.addq = Flag.icomp ∷ []
flags Opcode.addqi = Flag.icomp ∷ Flag.imm ∷ []
flags Opcode.s4addq = Flag.icomp ∷ []
flags Opcode.s4addqi = Flag.icomp ∷ Flag.imm ∷ []
flags Opcode.subq = Flag.icomp ∷ []
flags Opcode.subqi = Flag.icomp ∷ Flag.imm ∷ []
flags Opcode.s4subq = Flag.icomp ∷ []
flags Opcode.s4subqi = Flag.icomp ∷ Flag.imm ∷ []
flags Opcode.cmpeq = Flag.icomp ∷ []
flags Opcode.cmpeqi = Flag.icomp ∷ Flag.imm ∷ []
flags Opcode.s8addq = Flag.icomp ∷ []
flags Opcode.s8addqi = Flag.icomp ∷ Flag.imm ∷ []
flags Opcode.s8subq = Flag.icomp ∷ []
flags Opcode.s8subqi = Flag.icomp ∷ Flag.imm ∷ []
flags Opcode.cmpule = Flag.icomp ∷ []
flags Opcode.cmpulei = Flag.icomp ∷ Flag.imm ∷ []
flags Opcode.addlv = Flag.icomp ∷ []
flags Opcode.addlvi = Flag.icomp ∷ Flag.imm ∷ []
flags Opcode.sublv = Flag.icomp ∷ []
flags Opcode.sublvi = Flag.icomp ∷ Flag.imm ∷ []
flags Opcode.cmplt = Flag.icomp ∷ []
flags Opcode.cmplti = Flag.icomp ∷ Flag.imm ∷ []
flags Opcode.addqv = Flag.icomp ∷ []
flags Opcode.addqvi = Flag.icomp ∷ Flag.imm ∷ []
flags Opcode.subqv = Flag.icomp ∷ []
flags Opcode.subqvi = Flag.icomp ∷ Flag.imm ∷ []
flags Opcode.cmple = Flag.icomp ∷ []
flags Opcode.cmplei = Flag.icomp ∷ Flag.imm ∷ []
flags Opcode.and = Flag.icomp ∷ []
flags Opcode.andi = Flag.icomp ∷ Flag.imm ∷ []
flags Opcode.bic = Flag.icomp ∷ []
flags Opcode.bici = Flag.icomp ∷ Flag.imm ∷ []
flags Opcode.cmovlbs = Flag.icomp ∷ []
flags Opcode.cmovlbsi = Flag.icomp ∷ Flag.imm ∷ []
flags Opcode.cmovlbc = Flag.icomp ∷ []
flags Opcode.cmovlbci = Flag.icomp ∷ Flag.imm ∷ []
flags Opcode.bis = Flag.icomp ∷ []
flags Opcode.bisi = Flag.icomp ∷ Flag.imm ∷ []
flags Opcode.cmoveq = Flag.icomp ∷ []
flags Opcode.cmoveqi = Flag.icomp ∷ Flag.imm ∷ []
flags Opcode.cmovne = Flag.icomp ∷ []
flags Opcode.cmovnei = Flag.icomp ∷ Flag.imm ∷ []
flags Opcode.ornot = Flag.icomp ∷ []
flags Opcode.ornoti = Flag.icomp ∷ Flag.imm ∷ []
flags Opcode.xor = Flag.icomp ∷ []
flags Opcode.xori = Flag.icomp ∷ Flag.imm ∷ []
flags Opcode.cmovlt = Flag.icomp ∷ []
flags Opcode.cmovlti = Flag.icomp ∷ Flag.imm ∷ []
flags Opcode.cmovge = Flag.icomp ∷ []
flags Opcode.cmovgei = Flag.icomp ∷ Flag.imm ∷ []
flags Opcode.eqv = Flag.icomp ∷ []
flags Opcode.eqvi = Flag.icomp ∷ Flag.imm ∷ []
flags Opcode.amaski = Flag.imm ∷ []
flags Opcode.cmovle = Flag.icomp ∷ []
flags Opcode.cmovlei = Flag.icomp ∷ Flag.imm ∷ []
flags Opcode.cmovgt = Flag.icomp ∷ []
flags Opcode.cmovgti = Flag.icomp ∷ Flag.imm ∷ []
flags Opcode.mskbl = Flag.icomp ∷ []
flags Opcode.mskbli = Flag.icomp ∷ Flag.imm ∷ []
flags Opcode.extbl = Flag.icomp ∷ []
flags Opcode.extbli = Flag.icomp ∷ Flag.imm ∷ []
flags Opcode.insbl = Flag.icomp ∷ []
flags Opcode.insbli = Flag.icomp ∷ Flag.imm ∷ []
flags Opcode.mskwl = Flag.icomp ∷ []
flags Opcode.mskwli = Flag.icomp ∷ Flag.imm ∷ []
flags Opcode.extwl = Flag.icomp ∷ []
flags Opcode.extwli = Flag.icomp ∷ Flag.imm ∷ []
flags Opcode.inswl = Flag.icomp ∷ []
flags Opcode.inswli = Flag.icomp ∷ Flag.imm ∷ []
flags Opcode.mskll = Flag.icomp ∷ []
flags Opcode.msklli = Flag.icomp ∷ Flag.imm ∷ []
flags Opcode.extll = Flag.icomp ∷ []
flags Opcode.extlli = Flag.icomp ∷ Flag.imm ∷ []
flags Opcode.insll = Flag.icomp ∷ []
flags Opcode.inslli = Flag.icomp ∷ Flag.imm ∷ []
flags Opcode.zap = Flag.icomp ∷ []
flags Opcode.zapi = Flag.icomp ∷ Flag.imm ∷ []
flags Opcode.zapnot = Flag.icomp ∷ []
flags Opcode.zapnoti = Flag.icomp ∷ Flag.imm ∷ []
flags Opcode.mskql = Flag.icomp ∷ []
flags Opcode.mskqli = Flag.icomp ∷ Flag.imm ∷ []
flags Opcode.srl = Flag.icomp ∷ []
flags Opcode.srli = Flag.icomp ∷ Flag.imm ∷ []
flags Opcode.extql = Flag.icomp ∷ []
flags Opcode.extqli = Flag.icomp ∷ Flag.imm ∷ []
flags Opcode.sll = Flag.icomp ∷ []
flags Opcode.slli = Flag.icomp ∷ Flag.imm ∷ []
flags Opcode.insql = Flag.icomp ∷ []
flags Opcode.insqli = Flag.icomp ∷ Flag.imm ∷ []
flags Opcode.sra = Flag.icomp ∷ []
flags Opcode.srai = Flag.icomp ∷ Flag.imm ∷ []
flags Opcode.mskwh = Flag.icomp ∷ []
flags Opcode.mskwhi = Flag.icomp ∷ Flag.imm ∷ []
flags Opcode.inswh = Flag.icomp ∷ []
flags Opcode.inswhi = Flag.icomp ∷ Flag.imm ∷ []
flags Opcode.extwh = Flag.icomp ∷ []
flags Opcode.extwhi = Flag.icomp ∷ Flag.imm ∷ []
flags Opcode.msklh = Flag.icomp ∷ []
flags Opcode.msklhi = Flag.icomp ∷ Flag.imm ∷ []
flags Opcode.inslh = Flag.icomp ∷ []
flags Opcode.inslhi = Flag.icomp ∷ Flag.imm ∷ []
flags Opcode.extlh = Flag.icomp ∷ []
flags Opcode.extlhi = Flag.icomp ∷ Flag.imm ∷ []
flags Opcode.mskqh = Flag.icomp ∷ []
flags Opcode.mskqhi = Flag.icomp ∷ Flag.imm ∷ []
flags Opcode.insqh = Flag.icomp ∷ []
flags Opcode.insqhi = Flag.icomp ∷ Flag.imm ∷ []
flags Opcode.extqh = Flag.icomp ∷ []
flags Opcode.extqhi = Flag.icomp ∷ Flag.imm ∷ []
flags Opcode.mull = Flag.icomp ∷ []
flags Opcode.mulli = Flag.icomp ∷ Flag.imm ∷ []
flags Opcode.mulq = Flag.icomp ∷ []
flags Opcode.mulqi = Flag.icomp ∷ Flag.imm ∷ []
flags Opcode.umulh = Flag.icomp ∷ []
flags Opcode.umulhi = Flag.icomp ∷ Flag.imm ∷ []
flags Opcode.itofs = Flag.fcomp ∷ []
flags Opcode.sqrts = Flag.fcomp ∷ []
flags Opcode.itoft = Flag.fcomp ∷ []
flags Opcode.adds = Flag.fcomp ∷ []
flags Opcode.subs = Flag.fcomp ∷ []
flags Opcode.muls = Flag.fcomp ∷ []
flags Opcode.divs = Flag.fcomp ∷ []
flags Opcode.addt = Flag.fcomp ∷ []
flags Opcode.subt = Flag.fcomp ∷ []
flags Opcode.mult = Flag.fcomp ∷ []
flags Opcode.divt = Flag.fcomp ∷ []
flags Opcode.cmptun = Flag.fcomp ∷ []
flags Opcode.cmpteq = Flag.fcomp ∷ []
flags Opcode.cmptlt = Flag.fcomp ∷ []
flags Opcode.cmptle = Flag.fcomp ∷ []
flags Opcode.cvtts = Flag.fcomp ∷ []
flags Opcode.cvttq = Flag.fcomp ∷ []
flags Opcode.cvtqs = Flag.fcomp ∷ []
flags Opcode.cvtqt = Flag.fcomp ∷ []
flags Opcode.cvtlq = Flag.fcomp ∷ []
flags Opcode.cpys = Flag.fcomp ∷ []
flags Opcode.cpysn = Flag.fcomp ∷ []
flags Opcode.cpyse = Flag.fcomp ∷ []
flags Opcode.mt_fpcr = Flag.fcomp ∷ []
flags Opcode.mf_fpcr = Flag.fcomp ∷ []
flags Opcode.fcmoveq = Flag.fcomp ∷ []
flags Opcode.fcmovne = Flag.fcomp ∷ []
flags Opcode.fcmovlt = Flag.fcomp ∷ []
flags Opcode.fcmovge = Flag.fcomp ∷ []
flags Opcode.fcmovle = Flag.fcomp ∷ []
flags Opcode.fcmovgt = Flag.fcomp ∷ []
flags Opcode.cvtql = Flag.fcomp ∷ []
flags Opcode.trapb = Flag.trap ∷ []
flags Opcode.excb = Flag.trap ∷ []
flags Opcode.mb = Flag.trap ∷ []
flags Opcode.wmb = Flag.trap ∷ []
flags Opcode.jmp = Flag.ctrl ∷ Flag.uncond ∷ Flag.indirjmp ∷ []
flags Opcode.jsr = Flag.ctrl ∷ Flag.uncond ∷ Flag.indirjmp ∷ []
flags Opcode.retn = Flag.ctrl ∷ Flag.uncond ∷ Flag.indirjmp ∷ []
flags Opcode.jsr_coroutine = Flag.ctrl ∷ Flag.uncond ∷ Flag.indirjmp ∷ []
flags Opcode.ctpop = Flag.icomp ∷ []
flags Opcode.perr = Flag.icomp ∷ []
flags Opcode.ctlz = Flag.icomp ∷ []
flags Opcode.cttz = Flag.icomp ∷ []
flags Opcode.unpkbw = Flag.icomp ∷ []
flags Opcode.unpkbl = Flag.icomp ∷ []
flags Opcode.pkwb = Flag.icomp ∷ []
flags Opcode.pklb = Flag.icomp ∷ []
flags Opcode.ftoit = Flag.fcomp ∷ []
flags Opcode.ftois = Flag.fcomp ∷ []
flags Opcode.minsb8 = Flag.icomp ∷ []
flags Opcode.minsb8i = Flag.icomp ∷ Flag.imm ∷ []
flags Opcode.minsw4 = Flag.icomp ∷ []
flags Opcode.minsw4i = Flag.icomp ∷ Flag.imm ∷ []
flags Opcode.minub8 = Flag.icomp ∷ []
flags Opcode.minub8i = Flag.icomp ∷ Flag.imm ∷ []
flags Opcode.minuw4 = Flag.icomp ∷ []
flags Opcode.minuw4i = Flag.icomp ∷ Flag.imm ∷ []
flags Opcode.maxub8 = Flag.icomp ∷ []
flags Opcode.maxub8i = Flag.icomp ∷ Flag.imm ∷ []
flags Opcode.maxuw4 = Flag.icomp ∷ []
flags Opcode.maxuw4i = Flag.icomp ∷ Flag.imm ∷ []
flags Opcode.maxsb8 = Flag.icomp ∷ []
flags Opcode.maxsb8i = Flag.icomp ∷ Flag.imm ∷ []
flags Opcode.maxsw4 = Flag.icomp ∷ []
flags Opcode.maxsw4i = Flag.icomp ∷ Flag.imm ∷ []
flags Opcode.sextb = Flag.icomp ∷ []
flags Opcode.sextbi = Flag.icomp ∷ Flag.imm ∷ []
flags Opcode.sextw = Flag.icomp ∷ []
flags Opcode.sextwi = Flag.icomp ∷ Flag.imm ∷ []
flags _ = []

abbrev is_ctrl_flag : Flag → Bool
is_ctrl_flag Flag.ctrl = true
is_ctrl_flag _ = false

abbrev is_uncond_flag : Flag → Bool
is_uncond_flag Flag.uncond = true
is_uncond_flag _ = false

abbrev is_mem_flag : Flag → Bool
is_mem_flag Flag.mem = true
is_mem_flag _ = false

abbrev pub is_load_flag : Flag → Bool
is_load_flag Flag.load = true
is_load_flag _ = false

abbrev pub is_store_flag : Flag → Bool
is_store_flag Flag.store = true
is_store_flag _ = false

abbrev is_trap_flag : Flag → Bool
is_trap_flag Flag.trap = true
is_trap_flag _ = false

abbrev pub any_flag : (Flag → Bool) → List Flag → Bool
any_flag p [] = false
any_flag p (f ∷ fs) = p f || any_flag p fs

-- MD_OP_FLAGS(op) & F_MEM
unfoldable pub is_mem : Opcode → Bool
unfolding flags
is_mem op = any_flag is_mem_flag (flags op)

-- (MD_OP_FLAGS(op) & (F_MEM|F_STORE)) == (F_MEM|F_STORE)
unfoldable pub is_store : Opcode → Bool
unfolding flags
is_store op = any_flag is_mem_flag (flags op) && any_flag is_store_flag (flags op)

-- (MD_OP_FLAGS(op) & (F_MEM|F_LOAD)) == (F_MEM|F_LOAD)
unfoldable pub is_load : Opcode → Bool
unfolding flags
is_load op = any_flag is_mem_flag (flags op) && any_flag is_load_flag (flags op)

-- MD_OP_FLAGS(op) & F_STORE
unfoldable pub has_store_flag : Opcode → Bool
unfolding flags
has_store_flag op = any_flag is_store_flag (flags op)

-- MD_OP_FLAGS(op) & F_TRAP
unfoldable pub is_trap : Opcode → Bool
unfolding flags
is_trap op = any_flag is_trap_flag (flags op)

-- MD_OP_FLAGS(op) & F_CTRL
unfoldable pub is_ctrl : Opcode → Bool
unfolding flags
is_ctrl op = any_flag is_ctrl_flag (flags op)

-- (MD_OP_FLAGS(op) & (F_CTRL|F_UNCOND)) == (F_CTRL|F_UNCOND)
unfoldable pub is_jump : Opcode → Bool
unfolding flags
is_jump op = any_flag is_ctrl_flag (flags op) && any_flag is_uncond_flag (flags op)

-- MD_IS_INDIR(op)
unfoldable pub is_indir : Opcode → Bool
is_indir Opcode.jmp = true
is_indir Opcode.jsr = true
is_indir Opcode.retn = true
is_indir Opcode.jsr_coroutine = true
is_indir _ = false
