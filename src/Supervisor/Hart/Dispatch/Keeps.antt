-- ===== src/Supervisor/Hart/Dispatch/Keeps.antt =====
-- The decode cache through one instruction.
use tab_linux.Base.{
  ℕ, zero, suc, ◌≡◌, refl, sym, ◌∙◌, subst, Bool, true, ◌&&◌, ◌||◌, Option, none, some, List, arith,
  ◌==◌, if◌then◌else◌,
}
use tab_linux.Supervisor.Hart.LoadStore.Keeps.{
  KeepsCache, delivered-KeepsCache, either-KeepsCache, execute_translated-KeepsCache,
  load_reserved-KeepsCache, store_conditional-KeepsCache, Cache,
}
use tab_linux.Supervisor.Sbi.Console.{handle_dbcn-writes}
use tab_linux.Supervisor.Sbi.{
  SbiRetExt, dispatch_ecall, handle_ecall, SbiRet, handle_dbcn, read_chunk, va_to_pa,
}
use tab_linux.Supervisor.Hart.Dispatch.{
  ecall_cause, illegal, is_atomic, is_fp, is_simple_load_store, count_ecall, execute_ecall,
  execute_plain, execute_supervisor, execute_wfi, keep_hart, marked, queue_flush, sbi_call,
  sfence_vma, unless_trapped, console_write,
}
use tab_linux.Cpu.{Cpu, FpResult, Outcome, read_reg, write_reg, Bus}
use tab_linux.Supervisor.Hart.{Hart}
use tab_linux.Supervisor.Hart.Dispatch.Total.{console_write-joins}
use tab_linux.Supervisor.Hart.LoadStore.{execute_translated, HartOutcome, deliver}
use tab_linux.Supervisor.Hart.Spaces.{fresh_gens, invalidate_all_spaces}
use tab_linux.Supervisor.Hart.Privileged.{do_mret, do_sret, return_to}
use tab_linux.Cpu.Execute.{execute_width}
use tab_linux.Isa.{Instr, Status, Trap}
use tab_linux.Supervisor.Hart.Interrupts.{check_interrupts, sync_device_interrupts}
use tab_linux.Cpu.Arms.{advance}
use tab_linux.Supervisor.Hart.Csr.{bump_gen, record_phys_transition}
use tab_linux.Supervisor.Hart.LoadStore.Atomic.{lrd, lrw, mark_fs, scd, scw}
use tab_linux.Supervisor.Hart.Privileged.Keeps.{csr_op-KeepsCache}
use tab_linux.Supervisor.Mmu.{is_supervisor}

module _ {M : Type 0} (bus : Bus M) where
  AnswerKeeps : Cache → Option (SbiRet × Hart) → Type 0
  AnswerKeeps c none = Unit
  AnswerKeeps c (some (r, h)) = h.dcache ≡ c

  handle_dbcn-dcache :
      (len a : ℕ) (m : M) (h : Hart)
      → AnswerKeeps h.dcache (handle_dbcn bus console_write len a m h)
  unfolding AnswerKeeps handle_dbcn console_write
  handle_dbcn-dcache zero a m h = ground arith
  handle_dbcn-dcache (suc n) a m h =
      subst (AnswerKeeps h.dcache) (sym written) (kept (read_chunk bus m (va_to_pa a) 0 (suc n)))
    where
      written :
          handle_dbcn bus console_write (suc n) a m h
          ≡ some (
            record { error = 0; value = suc n },
            console_write h (read_chunk bus m (va_to_pa a) 0 (suc n)),
          )
      written = handle_dbcn-writes bus console_write console_write-joins (suc n) a m h (omega arith)

      kept : (bytes : List ℕ) → (console_write h bytes).dcache ≡ h.dcache
      kept bytes = refl

  CalledKeeps : Cache → Option (SbiRetExt × M × Hart) → Type 0
  CalledKeeps c none = Unit
  CalledKeeps c (some (r, m, h)) = h.dcache ≡ c

  handle_ecall-dcache :
      (a0 a1 a6 a7 : ℕ) (m : M) (h : Hart)
      → CalledKeeps h.dcache (handle_ecall bus console_write a0 a1 a6 a7 m h)
  unfolding AnswerKeeps CalledKeeps handle_ecall dispatch_ecall console_write
  handle_ecall-dcache a0 a1 a6 a7 m h = let written = handle_dbcn-dcache a0 a1 m h in ground arith

  sbi_call-KeepsCache :
      (width : ℕ) (h : Hart) (m : M) → KeepsCache h.dcache (sbi_call bus width h m)
  unfolding sbi_call CalledKeeps count_ecall write_reg
  sbi_call-KeepsCache width h m =
      let called =
        handle_ecall-dcache (read_reg h.cpu 10) (read_reg h.cpu 11) (read_reg h.cpu 16)
          (read_reg h.cpu 17) m (count_ecall h) in
      ground arith

  execute_ecall-KeepsCache :
      (width : ℕ) (h : Hart) (m : M) → KeepsCache h.dcache (execute_ecall bus width h m)
  unfolding execute_ecall
  execute_ecall-KeepsCache width h m =
      let t : Trap = Trap.exception (ecall_cause h.priv_level) in
      either-KeepsCache h.dcache (h.sbi_enabled && is_supervisor h.priv_level)
        (sbi_call bus width h m) (deliver t h m) (sbi_call-KeepsCache width h m)
        (delivered-KeepsCache h.dcache t none h m refl)

  execute_wfi-KeepsCache :
      (width : ℕ) (h : Hart) (m : M) → KeepsCache h.dcache (execute_wfi bus width h m)
  unfolding execute_wfi sync_device_interrupts
  execute_wfi-KeepsCache width h m = after (check_interrupts synced)
    where
      synced : Hart
      synced = record (sync_device_interrupts bus m h) { int_sync_countdown = 64 }

      after :
          (o : Option Trap)
          → KeepsCache h.dcache (elim o [
            | some t ↦ deliver t synced m
            | none ↦ some (Status.wfi, record synced { wfi = true; cpu = advance width h.cpu }, m)
          ])
      after none = refl
      after (some t) = delivered-KeepsCache h.dcache t none synced m refl

sfence_vma-dcache : (rs1 : ℕ) (h : Hart) → (sfence_vma rs1 h).dcache ≡ h.dcache
unfolding sfence_vma bump_gen queue_flush invalidate_all_spaces fresh_gens
sfence_vma-dcache rs1 h = ground arith

do_mret-dcache : (h : Hart) → (do_mret h).1.dcache ≡ h.dcache
unfolding do_mret return_to record_phys_transition
do_mret-dcache h = ground arith

do_sret-dcache : (h : Hart) → (do_sret h).1.dcache ≡ h.dcache
unfolding do_sret return_to record_phys_transition
do_sret-dcache h = ground arith

mark_fs-dcache : (h : Hart) → (mark_fs h).dcache ≡ h.dcache
unfolding mark_fs
mark_fs-dcache h = ground arith

module _ {M : Type 0} (bus : Bus M) (fpu : Cpu → ℕ → FpResult × Cpu) where
  marked-KeepsCache : (c : Cache) (o : HartOutcome M) → KeepsCache c o → KeepsCache c (marked o)
  marked-KeepsCache c none e = e
  marked-KeepsCache c (some (s, h, m)) e = mark_fs-dcache h ∙ e

  kept-KeepsCache : (h : Hart) (o : Outcome M) → KeepsCache h.dcache (keep_hart h o)
  kept-KeepsCache h none = tt
  kept-KeepsCache h (some (s, c, m)) = refl

  unless_trapped-KeepsCache :
      (bit : Bool) (h : Hart) (m : M) (o : HartOutcome M)
      → KeepsCache h.dcache o
      → KeepsCache h.dcache (unless_trapped bit h m o)
  unless_trapped-KeepsCache bit h m o keeps =
      either-KeepsCache h.dcache (is_supervisor h.priv_level && bit) (deliver illegal h m) o
        (delivered-KeepsCache h.dcache illegal none h m refl) keeps

  execute_plain-KeepsCache :
      (i : Instr) (width : ℕ) (h : Hart) (m : M)
      → KeepsCache h.dcache (execute_plain bus fpu i width h m)
  unfolding execute_plain
  execute_plain-KeepsCache i width h m =
      let memory : HartOutcome M = marked (execute_translated bus i width h m) in
      let plain : HartOutcome M = marked (keep_hart h (execute_width bus fpu i width h.cpu m)) in
      let b : Bool = is_simple_load_store i || is_atomic i in
      either-KeepsCache h.dcache (h.mstatus.fs == 0 && is_fp i) (deliver illegal h m)
        (if b then memory else plain) (delivered-KeepsCache h.dcache illegal none h m refl)
        (either-KeepsCache h.dcache b memory plain
          (marked-KeepsCache h.dcache (execute_translated bus i width h m)
            (execute_translated-KeepsCache bus i width h m))
          (marked-KeepsCache h.dcache (keep_hart h (execute_width bus fpu i width h.cpu m))
            (kept-KeepsCache h (execute_width bus fpu i width h.cpu m))))

  -- Every instruction leaves the decode cache as it is.
  pub execute_supervisor-KeepsCache :
      (i : Instr) (width : ℕ) (h : Hart) (m : M)
      → KeepsCache h.dcache (execute_supervisor bus fpu i width h m)
  unfolding execute_supervisor lrw scw lrd scd
  execute_supervisor-KeepsCache (Instr.csrrw rd rs1 csr) width h m =
      csr_op-KeepsCache bus m csr rd _ _ _ _ width h
  execute_supervisor-KeepsCache (Instr.csrrs rd rs1 csr) width h m =
      csr_op-KeepsCache bus m csr rd _ _ _ _ width h
  execute_supervisor-KeepsCache (Instr.csrrc rd rs1 csr) width h m =
      csr_op-KeepsCache bus m csr rd _ _ _ _ width h
  execute_supervisor-KeepsCache (Instr.csrrwi rd zimm csr) width h m =
      csr_op-KeepsCache bus m csr rd _ _ _ _ width h
  execute_supervisor-KeepsCache (Instr.csrrsi rd zimm csr) width h m =
      csr_op-KeepsCache bus m csr rd _ _ _ _ width h
  execute_supervisor-KeepsCache (Instr.csrrci rd zimm csr) width h m =
      csr_op-KeepsCache bus m csr rd _ _ _ _ width h
  execute_supervisor-KeepsCache Instr.ecall width h m = execute_ecall-KeepsCache bus width h m
  execute_supervisor-KeepsCache Instr.ebreak width h m =
      delivered-KeepsCache h.dcache _ none h m refl
  execute_supervisor-KeepsCache Instr.mret width h m = do_mret-dcache h
  execute_supervisor-KeepsCache Instr.sret width h m =
      unless_trapped-KeepsCache _ h m _ (do_sret-dcache h)
  execute_supervisor-KeepsCache Instr.wfi width h m =
      unless_trapped-KeepsCache _ h m _ (execute_wfi-KeepsCache bus width h m)
  execute_supervisor-KeepsCache (Instr.sfence_vma rs1 rs2) width h m =
      unless_trapped-KeepsCache _ h m _ (sfence_vma-dcache rs1 h)
  execute_supervisor-KeepsCache (Instr.lrw rd rs1 aq rl) width h m =
      load_reserved-KeepsCache bus width _ rd rs1 _ h m
  execute_supervisor-KeepsCache (Instr.lrd rd rs1 aq rl) width h m =
      load_reserved-KeepsCache bus width _ rd rs1 _ h m
  execute_supervisor-KeepsCache (Instr.scw rd rs1 rs2 aq rl) width h m =
      store_conditional-KeepsCache bus width _ rd rs1 _ h m
  execute_supervisor-KeepsCache (Instr.scd rd rs1 rs2 aq rl) width h m =
      store_conditional-KeepsCache bus width _ rd rs1 _ h m
  execute_supervisor-KeepsCache i width h m = execute_plain-KeepsCache i width h m
