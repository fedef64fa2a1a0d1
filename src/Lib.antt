-- ===== src/Lib.antt =====
-- A verification library for M-Sim with a cap on renamed registers: the rename, issue, writeback and
-- commit stages of sim-outorder.c, the data structures that they share, the predictors and caches that
-- they ask, the simulated memory, and the tables of processes and of open files.
--
-- Each thread (a context of smt.h) keeps its instructions in flight in a circular reorder buffer, and
-- its loads and stores also in a load/store queue. Rename takes a physical register for the destination
-- of an instruction, commit gives the previous one back; reg_counter counts the registers that a thread
-- has taken, and rename stalls a thread at RENAME_REG_LIMIT.
--
-- Files and the code they model:
--   Base                helpers: lists and tests over the native numbers, results that can abort
--   Isa                 machine.h, machine.def, regs.h: opcodes, operands, flags, functional units
--   RegFile             regrename.h, regrename.c: get_reg_set (RegSet), the register files (Physical)
--   Iq                  iq.h, iq.c: issue_queue_t
--   Inflight            inflightq.h, and RS_link and seq_sort of rob.h and rob.c
--   Bimodal             bpred_bimodal.c: the table of two-bit counters; the whole predictor (Predictor)
--   Btb                 btb.h, btb.c: btb_t, whose sets are chained in the order of their last use
--   Cache               cache.h, cache.c: cache_t, without the data of blocks (balloc)
--   Chain               the chains of two pointers that Btb and Cache keep, as orders
--   FileTable           file_table.h, file_table.c: file_table_t; closing, dup and flags are in Handles
--   Resource            resource.h, resource.c: res_pool and res_get; the reservation of a unit by selection
--   Retstack            retstack.h, retstack.c: retstack_t
--   Memory              memory.h, memory.c: the page table; the accesses (Access), mappings (Mapping)
--   Pid                 pid.h, pid.c: pid_handler_t; get_retval and is_retval_avail are in Pid/Wait
--   TwoLevel            bpred_two_level.h, bpred_two_level.c: the two-level predictor
--   Smt/State           ROB_entry of rob.h, context of smt.h, the globals of sim-outorder.c
--   Smt/Cap             reg_counter and RENAME_REG_LIMIT
--   Smt/Rename          register_rename, for one instruction
--   Smt/Operands        operand_ready, operand_spec_ready and the two all_operands tests
--   Smt/Issue           readyq_enqueue, selection and the replay in execute, for one entry
--   Smt/Refresh         lsq_refresh
--   Smt/Commit          writeback and commit, for one entry
--   Smt/Run             runs of these steps in any order
--   Smt/Owners          who holds a physical register: rename tables and instructions in flight
-- The files below a component hold its lemmas; Tests.antt holds concrete inputs.
--
-- State is passed explicitly. A failed assert, a call of panic or fatal, and an access outside an array
-- are the result `fault`; the number -1 of the code is `none`. Unsigned subtraction and addition keep
-- their wrap-around written out. A vector's index that the code takes modulo the vector's size is
-- modelled with the size of the model's list.
--
-- Most loops run over a list. The search of a way list has fuel for as many blocks as the cache has
-- ways, which is enough for a set whose blocks are chained in an order; handle_cloexec has fuel for as
-- many rounds as the table has entries, and insert for one more. The search of acquire_address and the
-- reading of a string take fuel: a page with room that is k pages away is found with any fuel above
-- k + 1, and a string is read with any fuel above its length. The loop of bounds_verify has one round
-- for each page up to its bound, which is enough, and that of log_base2 one for each bit of an int.
-- The copies mem_bcopy and mem_bzero make as many rounds as their int count has, none if it is negative.
--
-- Bounds: one core; a thread number is below num_contexts, and num_contexts is at most MAX_CONTEXTS
-- where the length of reg_counter matters. Fields that only power estimates, statistics, traces, the
-- predictor update and the rollback of values read are left out.
--
-- Not modelled: fetch, dispatch and the choice of the threads; the execution of the instructions (its
-- results are arguments of rename); the latencies of caches and predictors (arguments of issue); the
-- source registers' ready times that execute adjusts in a replay; branch recovery, since
-- core_t::rollbackTo is in cmp.c, which is not in the repository; loader, mem_map and
-- exec_flush of the memory, which call the host; system calls, options, statistics and the power
-- models. Of the predictors the bimodal and the two-level one, the branch target buffer and the return
-- address stack are modelled.
pub mod Base
pub mod Bimodal
pub mod Btb
pub mod Cache
pub mod Chain
pub mod FileTable
pub mod Inflight
pub mod Iq
pub mod Isa
pub mod Memory
pub mod Pid
pub mod RegFile
pub mod Resource
pub mod Retstack
pub mod Smt
pub mod TwoLevel
