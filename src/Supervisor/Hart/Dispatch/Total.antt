-- ===== src/Supervisor/Hart/Dispatch/Total.antt =====
-- One instruction in the hart, and where it could panic.
use tab_linux.Snapshot.RoundTrip.{append_assoc}
use tab_linux.Base.{ℕ, ◌<◌, ◌≡◌, refl, ap, ◌≢◌, Bool, Option, none, some, List, ◌++◌, arith, length}
use tab_linux.Cpu.{Cpu, FpResult, Outcome, read_reg, Bus, write_reg}
use tab_linux.Supervisor.Hart.LoadStore.{deliver, next, HartOutcome}
use tab_linux.Supervisor.Hart.Privileged.{csr_op, csr_update}
use tab_linux.Supervisor.Hart.{Hart}
use tab_linux.Isa.{Trap, Status, Instr}
use tab_linux.Isa.Range.{InRange}
use tab_linux.Supervisor.Hart.Dispatch.{
  unless_trapped, with_memory, console_write, count_ecall, csr_outcome, execute_ecall,
  execute_plain, execute_supervisor, execute_wfi, keep_hart, marked, sbi_call,
}
use tab_linux.Supervisor.Sbi.Console.{handle_ecall-ne-none}
use tab_linux.Supervisor.Hart.LoadStore.Total.{
  either-ne-none, store_conditional-ne-none, load_reserved-ne-none, execute_translated-ne-none,
}
use tab_linux.Supervisor.Hart.LoadStore.Atomic.{lrd, lrw, scd, scw}
use tab_linux.Cpu.Safety.{execute_width-ne-none}

csr_op-ne-none :
    {M : Type 0} (bus : Bus M) (m : M) (csr rd rs1 val : ℕ) (read clear : Bool) (width : ℕ)
    (h : Hart)
    → rd < 32
    → csr_op bus m csr rd rs1 val read clear width h ≢ none
unfolding csr_op csr_update write_reg
csr_op-ne-none bus m csr rd rs1 val read clear width h fits = ground arith

-- The console buffer takes two runs of bytes as it takes one.
pub console_write-joins :
    (h : Hart) (a b : List ℕ) → console_write (console_write h a) b ≡ console_write h (a ++ b)
unfolding console_write
console_write-joins h a b =
    ap (λ (buf : List ℕ). record h { console_buf = buf; console_len = length buf })
      (append_assoc h.console_buf a b)

module _ {M : Type 0} (bus : Bus M) where
  deliver-ne-none : (t : Trap) (h : Hart) (m : M) → deliver t h m ≢ none
  deliver-ne-none t h m = ground arith

  unless_trapped-ne-none :
      (bit : Bool) (h : Hart) (m : M) (o : HartOutcome M)
      → o ≢ none
      → unless_trapped bit h m o ≢ none
  unless_trapped-ne-none bit h m o total = ground arith

  with_memory-ne-none : (o : Status × Hart) (m : M) → with_memory o m ≢ none
  with_memory-ne-none (status, h) m = ground arith

  next-ne-none : (width : ℕ) (h : Hart) (m : M) → next width h m ≢ none
  next-ne-none width h m = ground arith

  execute_ecall-ne-none : (width : ℕ) (h : Hart) (m : M) → execute_ecall bus width h m ≢ none
  unfolding execute_ecall sbi_call write_reg
  execute_ecall-ne-none width h m =
      let answered =
        handle_ecall-ne-none bus console_write console_write-joins (read_reg h.cpu 10)
          (read_reg h.cpu 11) (read_reg h.cpu 16) (read_reg h.cpu 17) m (count_ecall h) in
      ground arith

  execute_wfi-ne-none : (width : ℕ) (h : Hart) (m : M) → execute_wfi bus width h m ≢ none
  unfolding execute_wfi
  execute_wfi-ne-none width h m = ground arith

module _ {M : Type 0} (bus : Bus M) (fpu : Cpu → ℕ → FpResult × Cpu) where
  marked-ne-none : (o : HartOutcome M) → o ≢ none → marked o ≢ none
  marked-ne-none none p e = p refl
  marked-ne-none (some (status, h, m)) p e = ground arith

  kept-ne-none : (h : Hart) (o : Outcome M) → o ≢ none → keep_hart h o ≢ none
  kept-ne-none h none p e = p refl
  kept-ne-none h (some (status, c, m)) p e = ground arith

  csr_outcome-ne-none : (o : Option (Status × Hart)) (m : M) → o ≢ none → csr_outcome o m ≢ none
  csr_outcome-ne-none none m p e = p refl
  csr_outcome-ne-none (some (status, h)) m p e = ground arith

  execute_plain-ne-none :
      (i : Instr) (width : ℕ) (h : Hart) (m : M)
      → InRange i
      → execute_plain bus fpu i width h m ≢ none
  unfolding execute_plain
  execute_plain-ne-none i width h m r = either-ne-none bus _ _ _ (deliver-ne-none bus _ h m) (
      either-ne-none bus _ _ _ (marked-ne-none _ (execute_translated-ne-none bus i width h m r))
        (marked-ne-none _ (kept-ne-none h _ (execute_width-ne-none bus fpu i width h.cpu m r))))

  -- An instruction whose fields are in range executes in the hart without a panic, and the loops of
  -- the calls that it makes end.
  pub execute_supervisor-ne-none :
      (i : Instr) (width : ℕ) (h : Hart) (m : M)
      → InRange i
      → execute_supervisor bus fpu i width h m ≢ none
  unfolding execute_supervisor lrw scw lrd scd
  execute_supervisor-ne-none (Instr.csrrw rd rs1 csr) width h m r =
      csr_outcome-ne-none _ m (csr_op-ne-none bus m csr rd _ _ _ _ width h r.0)
  execute_supervisor-ne-none (Instr.csrrs rd rs1 csr) width h m r =
      csr_outcome-ne-none _ m (csr_op-ne-none bus m csr rd _ _ _ _ width h r.0)
  execute_supervisor-ne-none (Instr.csrrc rd rs1 csr) width h m r =
      csr_outcome-ne-none _ m (csr_op-ne-none bus m csr rd _ _ _ _ width h r.0)
  execute_supervisor-ne-none (Instr.csrrwi rd zimm csr) width h m r =
      csr_outcome-ne-none _ m (csr_op-ne-none bus m csr rd _ _ _ _ width h r.0)
  execute_supervisor-ne-none (Instr.csrrsi rd zimm csr) width h m r =
      csr_outcome-ne-none _ m (csr_op-ne-none bus m csr rd _ _ _ _ width h r.0)
  execute_supervisor-ne-none (Instr.csrrci rd zimm csr) width h m r =
      csr_outcome-ne-none _ m (csr_op-ne-none bus m csr rd _ _ _ _ width h r.0)
  execute_supervisor-ne-none Instr.ecall width h m r = execute_ecall-ne-none bus width h m
  execute_supervisor-ne-none Instr.ebreak width h m r = ground arith
  execute_supervisor-ne-none Instr.mret width h m r = ground arith
  execute_supervisor-ne-none Instr.sret width h m r =
      unless_trapped-ne-none bus _ h m _ (with_memory-ne-none bus _ m)
  execute_supervisor-ne-none Instr.wfi width h m r =
      unless_trapped-ne-none bus _ h m _ (execute_wfi-ne-none bus width h m)
  execute_supervisor-ne-none (Instr.sfence_vma rs1 rs2) width h m r =
      unless_trapped-ne-none bus _ h m _ (next-ne-none bus _ _ m)
  execute_supervisor-ne-none (Instr.lrw rd rs1 aq rl) width h m r =
      load_reserved-ne-none bus width _ rd rs1 _ h m r.0
  execute_supervisor-ne-none (Instr.lrd rd rs1 aq rl) width h m r =
      load_reserved-ne-none bus width _ rd rs1 _ h m r.0
  execute_supervisor-ne-none (Instr.scw rd rs1 rs2 aq rl) width h m r =
      store_conditional-ne-none bus width _ rd rs1 _ h m r.0
  execute_supervisor-ne-none (Instr.scd rd rs1 rs2 aq rl) width h m r =
      store_conditional-ne-none bus width _ rd rs1 _ h m r.0
  execute_supervisor-ne-none i width h m r = execute_plain-ne-none i width h m r
