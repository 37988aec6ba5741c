-- ===== src/Supervisor/Hart/LoadStore/Keeps.antt =====
-- The decode cache through a trap and a memory access.
use tab_linux.Base.{ℕ, ◌≡◌, refl, ◌∙◌, Bool, true, false, Option, none, some, arith, if◌then◌else◌}
use tab_linux.Supervisor.Hart.LoadStore.Atomic.{load_reserved, store_conditional}
use tab_linux.Supervisor.Hart.LoadStore.{
  HartOutcome, after_translation, at_address, deliver_with, execute_translated, next_with,
}
use tab_linux.Supervisor.Hart.Traps.{
  enter_trap, take_trap_with_vaddr, trap_to_machine, trap_to_supervisor, vector,
}
use tab_linux.Supervisor.Hart.Memory.{Accessed, translate_access}
use tab_linux.Supervisor.{AccessType, Result}
use tab_linux.Isa.{Instr, Trap}
use tab_linux.Cpu.{Bus, write_reg}
use tab_linux.Supervisor.Hart.{Decoded, Hart}
use tab_linux.Supervisor.Hart.Step.Cache.{translate_access-dcache}

abbrev pub Cache : Type 0
Cache = ℕ → Option Decoded

-- What the instruction leaves has the given decode cache.
abbrev pub KeepsCache : {M : Type 0} → Cache → HartOutcome M → Type 0
KeepsCache c none = Unit
KeepsCache c (some (s, h, m)) = h.dcache ≡ c

pub trapped-dcache :
    (t : Trap) (v : Option ℕ) (h : Hart) → (take_trap_with_vaddr t v h).1.dcache ≡ h.dcache
unfolding take_trap_with_vaddr vector enter_trap trap_to_supervisor trap_to_machine
trapped-dcache t v h = ground arith

module _ {M : Type 0} (c : Cache) where
  pub delivered-KeepsCache :
      (t : Trap) (v : Option ℕ) (h : Hart) (m : M)
      → h.dcache ≡ c
      → KeepsCache c (deliver_with t v h m)
  delivered-KeepsCache t v h m e = trapped-dcache t v h ∙ e

  pub next_with-KeepsCache :
      (width rd v : ℕ) (h : Hart) (m : M) → h.dcache ≡ c → KeepsCache c (next_with width rd v h m)
  unfolding write_reg
  next_with-KeepsCache width rd v h m e = ground arith

  pub either-KeepsCache :
      (b : Bool) (x y : HartOutcome M)
      → KeepsCache c x
      → KeepsCache c y
      → KeepsCache c (if b then x else y)
  either-KeepsCache true x y p q = p
  either-KeepsCache false x y p q = q

module _ {M : Type 0} (bus : Bus M) where
  at_address-KeepsCache :
      (access : AccessType) (vaddr : ℕ) (h : Hart) (m : M)
      (use_address : ℕ → Hart → M → HartOutcome M)
      → ((paddr : ℕ) (h' : Hart) (m' : M)
          → h'.dcache ≡ h.dcache
          → KeepsCache h.dcache (use_address paddr h' m'))
      → KeepsCache h.dcache (at_address bus access vaddr h m use_address)
  unfolding at_address
  at_address-KeepsCache access vaddr h m use_address keeps =
      after (translate_access bus access vaddr h m) (translate_access-dcache bus access vaddr h m)
    where
      after :
          (a : Accessed M)
          → a.1.dcache ≡ h.dcache
          → KeepsCache h.dcache (after_translation bus vaddr use_address a)
      after (Result.ok paddr, h', m') e = keeps paddr h' m' e
      after (Result.err t, h', m') e = delivered-KeepsCache h.dcache t _ h' m' e

  pub load_reserved-KeepsCache :
      (width size rd rs1 : ℕ) (value : M → ℕ → ℕ) (h : Hart) (m : M)
      → KeepsCache h.dcache (load_reserved bus width size rd rs1 value h m)
  unfolding load_reserved
  load_reserved-KeepsCache width size rd rs1 value h m =
      at_address-KeepsCache _ _ h m _ (λ a h' m' e. next_with-KeepsCache h.dcache width rd _ _ m' e)

  pub store_conditional-KeepsCache :
      (width size rd rs1 : ℕ) (write : M → ℕ → M) (h : Hart) (m : M)
      → KeepsCache h.dcache (store_conditional bus width size rd rs1 write h m)
  unfolding store_conditional
  store_conditional-KeepsCache width size rd rs1 write h m =
      at_address-KeepsCache _ _ h m _ (λ a h' m' e.
        either-KeepsCache h.dcache _ _ _ (next_with-KeepsCache h.dcache width rd 0 _ _ e)
          (next_with-KeepsCache h.dcache width rd 1 _ _ e))

  pub execute_translated-KeepsCache :
      (i : Instr) (width : ℕ) (h : Hart) (m : M)
      → KeepsCache h.dcache (execute_translated bus i width h m)
  unfolding execute_translated
  execute_translated-KeepsCache (Instr.lb rd rs1 imm) width h m =
      at_address-KeepsCache _ _ h m _ (λ a h' m' e. next_with-KeepsCache h.dcache width rd _ h' _ e)
  execute_translated-KeepsCache (Instr.lh rd rs1 imm) width h m =
      at_address-KeepsCache _ _ h m _ (λ a h' m' e. next_with-KeepsCache h.dcache width rd _ h' _ e)
  execute_translated-KeepsCache (Instr.lw rd rs1 imm) width h m =
      at_address-KeepsCache _ _ h m _ (λ a h' m' e. next_with-KeepsCache h.dcache width rd _ h' _ e)
  execute_translated-KeepsCache (Instr.ld rd rs1 imm) width h m =
      at_address-KeepsCache _ _ h m _ (λ a h' m' e. next_with-KeepsCache h.dcache width rd _ h' _ e)
  execute_translated-KeepsCache (Instr.lbu rd rs1 imm) width h m =
      at_address-KeepsCache _ _ h m _ (λ a h' m' e. next_with-KeepsCache h.dcache width rd _ h' _ e)
  execute_translated-KeepsCache (Instr.lhu rd rs1 imm) width h m =
      at_address-KeepsCache _ _ h m _ (λ a h' m' e. next_with-KeepsCache h.dcache width rd _ h' _ e)
  execute_translated-KeepsCache (Instr.lwu rd rs1 imm) width h m =
      at_address-KeepsCache _ _ h m _ (λ a h' m' e. next_with-KeepsCache h.dcache width rd _ h' _ e)
  execute_translated-KeepsCache (Instr.fld rd rs1 imm) width h m =
      at_address-KeepsCache _ _ h m _ (λ a h' m' e. e)
  execute_translated-KeepsCache (Instr.flw rd rs1 imm) width h m =
      at_address-KeepsCache _ _ h m _ (λ a h' m' e. e)
  execute_translated-KeepsCache (Instr.sb rs1 rs2 imm) width h m =
      at_address-KeepsCache _ _ h m _ (λ a h' m' e. e)
  execute_translated-KeepsCache (Instr.sh rs1 rs2 imm) width h m =
      at_address-KeepsCache _ _ h m _ (λ a h' m' e. e)
  execute_translated-KeepsCache (Instr.sw rs1 rs2 imm) width h m =
      at_address-KeepsCache _ _ h m _ (λ a h' m' e. e)
  execute_translated-KeepsCache (Instr.sd rs1 rs2 imm) width h m =
      at_address-KeepsCache _ _ h m _ (λ a h' m' e. e)
  execute_translated-KeepsCache (Instr.fsw rs1 rs2 imm) width h m =
      at_address-KeepsCache _ _ h m _ (λ a h' m' e. e)
  execute_translated-KeepsCache (Instr.fsd rs1 rs2 imm) width h m =
      at_address-KeepsCache _ _ h m _ (λ a h' m' e. e)
  execute_translated-KeepsCache (Instr.amoswapw rd rs1 rs2 aq rl) width h m =
      at_address-KeepsCache _ _ h m _ (λ a h' m' e. next_with-KeepsCache h.dcache width rd _ h' _ e)
  execute_translated-KeepsCache (Instr.amoaddw rd rs1 rs2 aq rl) width h m =
      at_address-KeepsCache _ _ h m _ (λ a h' m' e. next_with-KeepsCache h.dcache width rd _ h' _ e)
  execute_translated-KeepsCache (Instr.amoxorw rd rs1 rs2 aq rl) width h m =
      at_address-KeepsCache _ _ h m _ (λ a h' m' e. next_with-KeepsCache h.dcache width rd _ h' _ e)
  execute_translated-KeepsCache (Instr.amoandw rd rs1 rs2 aq rl) width h m =
      at_address-KeepsCache _ _ h m _ (λ a h' m' e. next_with-KeepsCache h.dcache width rd _ h' _ e)
  execute_translated-KeepsCache (Instr.amoorw rd rs1 rs2 aq rl) width h m =
      at_address-KeepsCache _ _ h m _ (λ a h' m' e. next_with-KeepsCache h.dcache width rd _ h' _ e)
  execute_translated-KeepsCache (Instr.amominw rd rs1 rs2 aq rl) width h m =
      at_address-KeepsCache _ _ h m _ (λ a h' m' e. next_with-KeepsCache h.dcache width rd _ h' _ e)
  execute_translated-KeepsCache (Instr.amomaxw rd rs1 rs2 aq rl) width h m =
      at_address-KeepsCache _ _ h m _ (λ a h' m' e. next_with-KeepsCache h.dcache width rd _ h' _ e)
  execute_translated-KeepsCache (Instr.amominuw rd rs1 rs2 aq rl) width h m =
      at_address-KeepsCache _ _ h m _ (λ a h' m' e. next_with-KeepsCache h.dcache width rd _ h' _ e)
  execute_translated-KeepsCache (Instr.amomaxuw rd rs1 rs2 aq rl) width h m =
      at_address-KeepsCache _ _ h m _ (λ a h' m' e. next_with-KeepsCache h.dcache width rd _ h' _ e)
  execute_translated-KeepsCache (Instr.amoswapd rd rs1 rs2 aq rl) width h m =
      at_address-KeepsCache _ _ h m _ (λ a h' m' e. next_with-KeepsCache h.dcache width rd _ h' _ e)
  execute_translated-KeepsCache (Instr.amoaddd rd rs1 rs2 aq rl) width h m =
      at_address-KeepsCache _ _ h m _ (λ a h' m' e. next_with-KeepsCache h.dcache width rd _ h' _ e)
  execute_translated-KeepsCache (Instr.amoxord rd rs1 rs2 aq rl) width h m =
      at_address-KeepsCache _ _ h m _ (λ a h' m' e. next_with-KeepsCache h.dcache width rd _ h' _ e)
  execute_translated-KeepsCache (Instr.amoandd rd rs1 rs2 aq rl) width h m =
      at_address-KeepsCache _ _ h m _ (λ a h' m' e. next_with-KeepsCache h.dcache width rd _ h' _ e)
  execute_translated-KeepsCache (Instr.amoord rd rs1 rs2 aq rl) width h m =
      at_address-KeepsCache _ _ h m _ (λ a h' m' e. next_with-KeepsCache h.dcache width rd _ h' _ e)
  execute_translated-KeepsCache (Instr.amomind rd rs1 rs2 aq rl) width h m =
      at_address-KeepsCache _ _ h m _ (λ a h' m' e. next_with-KeepsCache h.dcache width rd _ h' _ e)
  execute_translated-KeepsCache (Instr.amomaxd rd rs1 rs2 aq rl) width h m =
      at_address-KeepsCache _ _ h m _ (λ a h' m' e. next_with-KeepsCache h.dcache width rd _ h' _ e)
  execute_translated-KeepsCache (Instr.amominud rd rs1 rs2 aq rl) width h m =
      at_address-KeepsCache _ _ h m _ (λ a h' m' e. next_with-KeepsCache h.dcache width rd _ h' _ e)
  execute_translated-KeepsCache (Instr.amomaxud rd rs1 rs2 aq rl) width h m =
      at_address-KeepsCache _ _ h m _ (λ a h' m' e. next_with-KeepsCache h.dcache width rd _ h' _ e)
  execute_translated-KeepsCache _ width h m = delivered-KeepsCache h.dcache _ _ h m refl
