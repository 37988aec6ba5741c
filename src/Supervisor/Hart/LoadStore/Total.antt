-- ===== src/Supervisor/Hart/LoadStore/Total.antt =====
-- The memory accesses of the hart, and where they could panic.
use tab_linux.Base.{ℕ, ◌<◌, ◌≢◌, Bool, true, false, none, arith, if◌then◌else◌}
use tab_linux.Supervisor.Hart.LoadStore.Atomic.{load_reserved, store_conditional}
use tab_linux.Supervisor.Hart.LoadStore.{
  HartOutcome, after_translation, at_address, execute_translated, next_with,
}
use tab_linux.Isa.{Instr}
use tab_linux.Supervisor.{AccessType, Result}
use tab_linux.Cpu.{Bus, write_reg}
use tab_linux.Supervisor.Hart.Memory.{Accessed, translate_access}
use tab_linux.Supervisor.Hart.{Hart}
use tab_linux.Isa.Range.{InRange}

pub next_with-ne-none :
    {M : Type 0} (width rd v : ℕ) (h : Hart) (m : M) → rd < 32 → next_with width rd v h m ≢ none
unfolding write_reg
next_with-ne-none width rd v h m fits = ground arith

module _ {M : Type 0} (bus : Bus M) where
  at_address-ne-none :
      (access : AccessType) (vaddr : ℕ) (h : Hart) (m : M)
      (use_address : ℕ → Hart → M → HartOutcome M)
      → ((paddr : ℕ) (h' : Hart) (m' : M) → use_address paddr h' m' ≢ none)
      → at_address bus access vaddr h m use_address ≢ none
  unfolding at_address
  at_address-ne-none access vaddr h m use_address total =
      after (translate_access bus access vaddr h m)
    where
      after : (a : Accessed M) → after_translation bus vaddr use_address a ≢ none
      after (Result.ok paddr, h', m') = total paddr h' m'
      after (Result.err t, h', m') = ground arith

  pub execute_translated-ne-none :
      (i : Instr) (width : ℕ) (h : Hart) (m : M)
      → InRange i
      → execute_translated bus i width h m ≢ none
  unfolding execute_translated
  execute_translated-ne-none (Instr.lb rd rs1 imm) width h m r =
      at_address-ne-none _ _ h m _ (λ a h' m'. next_with-ne-none width rd _ h' _ r.0)
  execute_translated-ne-none (Instr.lh rd rs1 imm) width h m r =
      at_address-ne-none _ _ h m _ (λ a h' m'. next_with-ne-none width rd _ h' _ r.0)
  execute_translated-ne-none (Instr.lw rd rs1 imm) width h m r =
      at_address-ne-none _ _ h m _ (λ a h' m'. next_with-ne-none width rd _ h' _ r.0)
  execute_translated-ne-none (Instr.ld rd rs1 imm) width h m r =
      at_address-ne-none _ _ h m _ (λ a h' m'. next_with-ne-none width rd _ h' _ r.0)
  execute_translated-ne-none (Instr.lbu rd rs1 imm) width h m r =
      at_address-ne-none _ _ h m _ (λ a h' m'. next_with-ne-none width rd _ h' _ r.0)
  execute_translated-ne-none (Instr.lhu rd rs1 imm) width h m r =
      at_address-ne-none _ _ h m _ (λ a h' m'. next_with-ne-none width rd _ h' _ r.0)
  execute_translated-ne-none (Instr.lwu rd rs1 imm) width h m r =
      at_address-ne-none _ _ h m _ (λ a h' m'. next_with-ne-none width rd _ h' _ r.0)
  execute_translated-ne-none (Instr.fld rd rs1 imm) width h m r =
      at_address-ne-none _ _ h m _ (λ a h' m'. ground arith)
  execute_translated-ne-none (Instr.flw rd rs1 imm) width h m r =
      at_address-ne-none _ _ h m _ (λ a h' m'. ground arith)
  execute_translated-ne-none (Instr.sb rs1 rs2 imm) width h m r =
      at_address-ne-none _ _ h m _ (λ a h' m'. ground arith)
  execute_translated-ne-none (Instr.sh rs1 rs2 imm) width h m r =
      at_address-ne-none _ _ h m _ (λ a h' m'. ground arith)
  execute_translated-ne-none (Instr.sw rs1 rs2 imm) width h m r =
      at_address-ne-none _ _ h m _ (λ a h' m'. ground arith)
  execute_translated-ne-none (Instr.sd rs1 rs2 imm) width h m r =
      at_address-ne-none _ _ h m _ (λ a h' m'. ground arith)
  execute_translated-ne-none (Instr.fsw rs1 rs2 imm) width h m r =
      at_address-ne-none _ _ h m _ (λ a h' m'. ground arith)
  execute_translated-ne-none (Instr.fsd rs1 rs2 imm) width h m r =
      at_address-ne-none _ _ h m _ (λ a h' m'. ground arith)
  execute_translated-ne-none (Instr.amoswapw rd rs1 rs2 aq rl) width h m r =
      at_address-ne-none _ _ h m _ (λ a h' m'. next_with-ne-none width rd _ h' _ r.0)
  execute_translated-ne-none (Instr.amoaddw rd rs1 rs2 aq rl) width h m r =
      at_address-ne-none _ _ h m _ (λ a h' m'. next_with-ne-none width rd _ h' _ r.0)
  execute_translated-ne-none (Instr.amoxorw rd rs1 rs2 aq rl) width h m r =
      at_address-ne-none _ _ h m _ (λ a h' m'. next_with-ne-none width rd _ h' _ r.0)
  execute_translated-ne-none (Instr.amoandw rd rs1 rs2 aq rl) width h m r =
      at_address-ne-none _ _ h m _ (λ a h' m'. next_with-ne-none width rd _ h' _ r.0)
  execute_translated-ne-none (Instr.amoorw rd rs1 rs2 aq rl) width h m r =
      at_address-ne-none _ _ h m _ (λ a h' m'. next_with-ne-none width rd _ h' _ r.0)
  execute_translated-ne-none (Instr.amominw rd rs1 rs2 aq rl) width h m r =
      at_address-ne-none _ _ h m _ (λ a h' m'. next_with-ne-none width rd _ h' _ r.0)
  execute_translated-ne-none (Instr.amomaxw rd rs1 rs2 aq rl) width h m r =
      at_address-ne-none _ _ h m _ (λ a h' m'. next_with-ne-none width rd _ h' _ r.0)
  execute_translated-ne-none (Instr.amominuw rd rs1 rs2 aq rl) width h m r =
      at_address-ne-none _ _ h m _ (λ a h' m'. next_with-ne-none width rd _ h' _ r.0)
  execute_translated-ne-none (Instr.amomaxuw rd rs1 rs2 aq rl) width h m r =
      at_address-ne-none _ _ h m _ (λ a h' m'. next_with-ne-none width rd _ h' _ r.0)
  execute_translated-ne-none (Instr.amoswapd rd rs1 rs2 aq rl) width h m r =
      at_address-ne-none _ _ h m _ (λ a h' m'. next_with-ne-none width rd _ h' _ r.0)
  execute_translated-ne-none (Instr.amoaddd rd rs1 rs2 aq rl) width h m r =
      at_address-ne-none _ _ h m _ (λ a h' m'. next_with-ne-none width rd _ h' _ r.0)
  execute_translated-ne-none (Instr.amoxord rd rs1 rs2 aq rl) width h m r =
      at_address-ne-none _ _ h m _ (λ a h' m'. next_with-ne-none width rd _ h' _ r.0)
  execute_translated-ne-none (Instr.amoandd rd rs1 rs2 aq rl) width h m r =
      at_address-ne-none _ _ h m _ (λ a h' m'. next_with-ne-none width rd _ h' _ r.0)
  execute_translated-ne-none (Instr.amoord rd rs1 rs2 aq rl) width h m r =
      at_address-ne-none _ _ h m _ (λ a h' m'. next_with-ne-none width rd _ h' _ r.0)
  execute_translated-ne-none (Instr.amomind rd rs1 rs2 aq rl) width h m r =
      at_address-ne-none _ _ h m _ (λ a h' m'. next_with-ne-none width rd _ h' _ r.0)
  execute_translated-ne-none (Instr.amomaxd rd rs1 rs2 aq rl) width h m r =
      at_address-ne-none _ _ h m _ (λ a h' m'. next_with-ne-none width rd _ h' _ r.0)
  execute_translated-ne-none (Instr.amominud rd rs1 rs2 aq rl) width h m r =
      at_address-ne-none _ _ h m _ (λ a h' m'. next_with-ne-none width rd _ h' _ r.0)
  execute_translated-ne-none (Instr.amomaxud rd rs1 rs2 aq rl) width h m r =
      at_address-ne-none _ _ h m _ (λ a h' m'. next_with-ne-none width rd _ h' _ r.0)
  execute_translated-ne-none _ width h m r = ground arith

  pub load_reserved-ne-none :
      (width size rd rs1 : ℕ) (value : M → ℕ → ℕ) (h : Hart) (m : M)
      → rd < 32
      → load_reserved bus width size rd rs1 value h m ≢ none
  unfolding load_reserved
  load_reserved-ne-none width size rd rs1 value h m fits =
      at_address-ne-none _ _ h m _ (λ a h' m'. next_with-ne-none width rd _ _ _ fits)

  pub either-ne-none :
      (b : Bool) (x y : HartOutcome M) → x ≢ none → y ≢ none → (if b then x else y) ≢ none
  either-ne-none true x y p q = p
  either-ne-none false x y p q = q

  pub store_conditional-ne-none :
      (width size rd rs1 : ℕ) (write : M → ℕ → M) (h : Hart) (m : M)
      → rd < 32
      → store_conditional bus width size rd rs1 write h m ≢ none
  unfolding store_conditional
  store_conditional-ne-none width size rd rs1 write h m fits =
      at_address-ne-none _ _ h m _ (λ a h' m'.
        either-ne-none _ _ _ (next_with-ne-none width rd 0 _ _ fits)
          (next_with-ne-none width rd 1 _ _ fits))
