-- ===== src/Isa/Opcode.antt =====
-- The Alpha opcodes: enum md_opcode of machine.h, which lists the DEFINST entries of machine.def.
-- `link` stands for the DEFLINK opcodes other than CALL_PAL: they name tables of the decoder.
pub data Opcode : Type 0 where
  op_na call_pal link lda ldah ldbu ldq_u ldwu stw stb stq_u fltv ldf ldg lds ldt stf stg sts stt
        ldl ldq ldl_l ldq_l stl stq stl_c stq_c br fbeq fblt fble bsr fbne fbge fbgt blbc beq blt
        ble blbs bne bge bgt pal_wrent pal_wrkgp pal_callsys pal_imb pal_rduniq pal_wruniq addl
        addli s4addl s4addli subl subli s4subl s4subli cmpbge cmpbgei s8addl s8addli s8subl s8subli
        cmpult cmpulti addq addqi s4addq s4addqi subq subqi s4subq s4subqi cmpeq cmpeqi s8addq
        s8addqi s8subq s8subqi cmpule cmpulei addlv addlvi sublv sublvi cmplt cmplti addqv addqvi
        subqv subqvi cmple cmplei implver and andi bic bici cmovlbs cmovlbsi cmovlbc cmovlbci bis
        bisi cmoveq cmoveqi cmovne cmovnei ornot ornoti xor xori cmovlt cmovlti cmovge cmovgei eqv
        eqvi amask amaski cmovle cmovlei cmovgt cmovgti mskbl mskbli extbl extbli insbl insbli mskwl
        mskwli extwl extwli inswl inswli mskll msklli extll extlli insll inslli zap zapi zapnot
        zapnoti mskql mskqli srl srli extql extqli sll slli insql insqli sra srai mskwh mskwhi inswh
        inswhi extwh extwhi msklh msklhi inslh inslhi extlh extlhi mskqh mskqhi insqh insqhi extqh
        extqhi mull mulli mulq mulqi umulh umulhi itofs sqrtf sqrts itoff itoft sqrtg sqrtt adds
        subs muls divs addt subt mult divt cmptun cmpteq cmptlt cmptle cvtts cvttq cvtqs cvtqt cvtlq
        cpys cpysn cpyse mt_fpcr mf_fpcr fcmoveq fcmovne fcmovlt fcmovge fcmovle fcmovgt cvtql trapb
        excb mb wmb fetch fetch_m rpcc rc_ ecb rs_ wh64 jmp jsr retn jsr_coroutine ctpop perr ctlz
        cttz unpkbw unpkbl pkwb pklb ftoit ftois minsb8 minsb8i minsw4 minsw4i minub8 minub8i minuw4
        minuw4i maxub8 maxub8i maxuw4 maxuw4i maxsb8 maxsb8i maxsw4 maxsw4i sextb sextbi sextw
        sextwi :
      Opcode

-- The instruction flags F_* of machine.h.
pub data Flag : Type 0 where
  icomp fcomp ctrl uncond cond mem load store disp rr direct trap longlat dirjmp indirjmp : Flag
  is_call fpcond imm : Flag

-- enum reg_type of machine.h
pub data RegType : Type 0 where
  reg_none reg_int reg_fp : RegType
