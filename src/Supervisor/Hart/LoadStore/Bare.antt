-- ===== src/Supervisor/Hart/LoadStore/Bare.antt =====
-- The memory accesses of the hart and those of the CPU.
use tab_linux.Base.{
  ℕ, ◌+◌, ◌<◌, bit_and, bit_or, bit_xor, ◌≡◌, refl, sym, ap, ◌∙◌, Bool, true, ◌||◌, Option, none,
  some, arith, ltb, if◌then◌else◌, ◌>>=◌, u32, low_bits,
}
use tab_linux.Cpu.{read_f, read_freg, read_reg, write_f, write_freg, Cpu, FpResult, write_reg, Bus}
use tab_linux.Supervisor.Hart.Memory.{translate_access, translate_as}
use tab_linux.Supervisor.Hart.LoadStore.{
  amo_double, amo_word, execute_translated, load_f, next_with_f, store, after_translation, load,
  next_with, HartOutcome, at_address,
}
use tab_linux.Supervisor.{AccessType, Result}
use tab_linux.Supervisor.Translate.{translate}
use tab_linux.Supervisor.Hart.{Hart}
use tab_linux.Cpu.Arms.{amo_d, amo_w, retire_f, address, finish, retire}
use tab_linux.Supervisor.Hart.Dispatch.{is_atomic, is_simple_load_store, keep_hart}
use tab_linux.Isa.Range.{InRange}
use tab_linux.Cpu.Execute.{execute_width}
use tab_linux.Isa.{Instr}
use tab_linux.Cpu.Values.{amo_max, amo_maxu, amo_min, amo_minu, wrapping_add}

module _ {M : Type 0} (bus : Bus M) where
  translate_access-bare :
      (access : AccessType) (vaddr : ℕ) (h : Hart) (m : M)
      → h.satp.mode ≡ 0
      → translate_access bus access vaddr h m ≡ (Result.ok vaddr, h, m)
  unfolding translate_access translate_as translate
  translate_access-bare access vaddr h m bare = ground arith

  pub at_address-bare :
      (access : AccessType) (vaddr : ℕ) (h : Hart) (m : M)
      (use_address : ℕ → Hart → M → HartOutcome M)
      → h.satp.mode ≡ 0
      → at_address bus access vaddr h m use_address ≡ use_address vaddr h m
  unfolding at_address
  at_address-bare access vaddr h m use_address bare =
      ap (after_translation bus vaddr use_address) (translate_access-bare access vaddr h m bare)

  next_with-retire :
      (width rd v : ℕ) (h : Hart) (m : M)
      → next_with width rd v h m ≡ keep_hart h (retire width h.cpu m rd v)
  unfolding retire finish write_reg
  next_with-retire width rd v h m = ground arith

  next_with_f-retire_f :
      (width rd v : ℕ) (h : Hart) (m : M)
      → rd < 32
      → next_with_f width rd v h m ≡ keep_hart h (retire_f width h.cpu m rd v)
  unfolding retire_f finish write_f write_freg
  next_with_f-retire_f width rd v h m fits =
      let e : low_bits rd 5 ≡ rd = omega arith in
      let p : ltb rd 32 ≡ true = ground arith in rw (p, e) refl

  load-bare :
      (width rd rs1 imm : ℕ) (value : M → ℕ → ℕ) (h : Hart) (m : M)
      → h.satp.mode ≡ 0
      → load bus width rd rs1 imm value h m
        ≡ keep_hart h (retire width h.cpu m rd (value m (address h.cpu rs1 imm)))
  load-bare width rd rs1 imm value h m bare =
      at_address-bare _ _ h m _ bare ∙ next_with-retire width rd _ h m

  load_f-bare :
      (width rd rs1 imm : ℕ) (value : M → ℕ → ℕ) (h : Hart) (m : M)
      → rd < 32
      → h.satp.mode ≡ 0
      → load_f bus width rd rs1 imm value h m
        ≡ keep_hart h (retire_f width h.cpu m rd (value m (address h.cpu rs1 imm)))
  load_f-bare width rd rs1 imm value h m fits bare =
      at_address-bare _ _ h m _ bare ∙ next_with_f-retire_f width rd _ h m fits

  store-bare :
      (width rs1 imm : ℕ) (write : M → ℕ → M) (h : Hart) (m : M)
      → h.satp.mode ≡ 0
      → store bus width rs1 imm write h m
        ≡ keep_hart h (finish width h.cpu (write m (address h.cpu rs1 imm)))
  unfolding finish
  store-bare width rs1 imm write h m bare = at_address-bare _ _ h m _ bare

  amo_word-bare :
      (width rd rs1 rs2 : ℕ) (new : ℕ → ℕ → ℕ) (h : Hart) (m : M)
      → h.satp.mode ≡ 0
      → amo_word bus width rd rs1 rs2 new h m
        ≡ keep_hart h (amo_w bus width h.cpu m rd rs1 (λ old. new old (u32 (read_reg h.cpu rs2))))
  unfolding amo_w
  amo_word-bare width rd rs1 rs2 new h m bare =
      at_address-bare _ _ h m _ bare ∙ next_with-retire width rd _ h _

  amo_double-bare :
      (width rd rs1 rs2 : ℕ) (new : ℕ → ℕ → ℕ) (h : Hart) (m : M)
      → h.satp.mode ≡ 0
      → amo_double bus width rd rs1 rs2 new h m
        ≡ keep_hart h (amo_d bus width h.cpu m rd rs1 (λ old. new old (read_reg h.cpu rs2)))
  unfolding amo_d
  amo_double-bare width rd rs1 rs2 new h m bare =
      at_address-bare _ _ h m _ bare ∙ next_with-retire width rd _ h _

  -- A register in range is read without a panic.
  read_f-read_freg : (cpu : Cpu) (rs : ℕ) → rs < 32 → read_f cpu rs ≡ some (read_freg cpu rs)
  unfolding read_f read_freg
  read_f-read_freg cpu rs fits =
      let e : low_bits rs 5 ≡ rs = omega arith in
      let p : ltb rs 32 ≡ true = ground arith in
      ap (λ (b : Bool). if b then some (cpu.f rs) else none) p
      ∙ ap (λ (i : ℕ). some (cpu.f i)) (sym e)

  store_f-bare :
      (width rs1 rs2 imm : ℕ) (write : M → ℕ → ℕ → M) (h : Hart) (m : M)
      → rs2 < 32
      → h.satp.mode ≡ 0
      → store bus width rs1 imm (λ m' a. write m' a (read_freg h.cpu rs2)) h m
        ≡ keep_hart h
            (read_f h.cpu rs2 >>= λ v. finish width h.cpu (write m (address h.cpu rs1 imm) v))
  store_f-bare width rs1 rs2 imm write h m fits bare =
      store-bare width rs1 imm _ h m bare
      ∙ ap
          (λ (o : Option ℕ).
            keep_hart h (o >>= λ v. finish width h.cpu (write m (address h.cpu rs1 imm) v)))
          (sym (read_f-read_freg h.cpu rs2 fits))

  -- Where satp is bare, a load, a store or an atomic operation whose fields are in range does through
  -- the hart what it does on the CPU alone: the same status, the same CPU and the same memory, with
  -- the rest of the hart unchanged.
  pub execute_translated-bare :
      (fpu : Cpu → ℕ → FpResult × Cpu) (i : Instr) (width : ℕ) (h : Hart) (m : M)
      → InRange i
      → is_simple_load_store i || is_atomic i ≡ true
      → h.satp.mode ≡ 0
      → execute_translated bus i width h m ≡ keep_hart h (execute_width bus fpu i width h.cpu m)
  unfolding execute_translated execute_width
  execute_translated-bare fpu (Instr.lb rd rs1 imm) width h m r memory bare =
      load-bare width rd rs1 imm _ h m bare
  execute_translated-bare fpu (Instr.lh rd rs1 imm) width h m r memory bare =
      load-bare width rd rs1 imm _ h m bare
  execute_translated-bare fpu (Instr.lw rd rs1 imm) width h m r memory bare =
      load-bare width rd rs1 imm _ h m bare
  execute_translated-bare fpu (Instr.ld rd rs1 imm) width h m r memory bare =
      load-bare width rd rs1 imm _ h m bare
  execute_translated-bare fpu (Instr.lbu rd rs1 imm) width h m r memory bare =
      load-bare width rd rs1 imm _ h m bare
  execute_translated-bare fpu (Instr.lhu rd rs1 imm) width h m r memory bare =
      load-bare width rd rs1 imm _ h m bare
  execute_translated-bare fpu (Instr.lwu rd rs1 imm) width h m r memory bare =
      load-bare width rd rs1 imm _ h m bare
  execute_translated-bare fpu (Instr.sb rs1 rs2 imm) width h m r memory bare =
      store-bare width rs1 imm _ h m bare
  execute_translated-bare fpu (Instr.sh rs1 rs2 imm) width h m r memory bare =
      store-bare width rs1 imm _ h m bare
  execute_translated-bare fpu (Instr.sw rs1 rs2 imm) width h m r memory bare =
      store-bare width rs1 imm _ h m bare
  execute_translated-bare fpu (Instr.sd rs1 rs2 imm) width h m r memory bare =
      store-bare width rs1 imm _ h m bare
  execute_translated-bare fpu (Instr.fld rd rs1 imm) width h m r memory bare =
      load_f-bare width rd rs1 imm _ h m r.0 bare
  execute_translated-bare fpu (Instr.flw rd rs1 imm) width h m r memory bare =
      load_f-bare width rd rs1 imm _ h m r.0 bare
  execute_translated-bare fpu (Instr.fsw rs1 rs2 imm) width h m r memory bare =
      store_f-bare width rs1 rs2 imm (λ m' a v. bus.write_u32 m' a (u32 v)) h m r.1 bare
  execute_translated-bare fpu (Instr.fsd rs1 rs2 imm) width h m r memory bare =
      store_f-bare width rs1 rs2 imm (λ m' a v. bus.write_u64 m' a v) h m r.1 bare
  execute_translated-bare fpu (Instr.amoswapw rd rs1 rs2 aq rl) width h m r memory bare =
      amo_word-bare width rd rs1 rs2 (λ old reg. reg) h m bare
  execute_translated-bare fpu (Instr.amoswapd rd rs1 rs2 aq rl) width h m r memory bare =
      amo_double-bare width rd rs1 rs2 (λ old reg. reg) h m bare
  execute_translated-bare fpu (Instr.amoaddw rd rs1 rs2 aq rl) width h m r memory bare =
      amo_word-bare width rd rs1 rs2 (λ old reg. u32 (old + reg)) h m bare
  execute_translated-bare fpu (Instr.amoaddd rd rs1 rs2 aq rl) width h m r memory bare =
      amo_double-bare width rd rs1 rs2 (λ old reg. wrapping_add old reg) h m bare
  execute_translated-bare fpu (Instr.amoxorw rd rs1 rs2 aq rl) width h m r memory bare =
      amo_word-bare width rd rs1 rs2 (λ old reg. bit_xor old reg) h m bare
  execute_translated-bare fpu (Instr.amoxord rd rs1 rs2 aq rl) width h m r memory bare =
      amo_double-bare width rd rs1 rs2 (λ old reg. bit_xor old reg) h m bare
  execute_translated-bare fpu (Instr.amoandw rd rs1 rs2 aq rl) width h m r memory bare =
      amo_word-bare width rd rs1 rs2 (λ old reg. bit_and old reg) h m bare
  execute_translated-bare fpu (Instr.amoandd rd rs1 rs2 aq rl) width h m r memory bare =
      amo_double-bare width rd rs1 rs2 (λ old reg. bit_and old reg) h m bare
  execute_translated-bare fpu (Instr.amoorw rd rs1 rs2 aq rl) width h m r memory bare =
      amo_word-bare width rd rs1 rs2 (λ old reg. bit_or old reg) h m bare
  execute_translated-bare fpu (Instr.amoord rd rs1 rs2 aq rl) width h m r memory bare =
      amo_double-bare width rd rs1 rs2 (λ old reg. bit_or old reg) h m bare
  execute_translated-bare fpu (Instr.amominw rd rs1 rs2 aq rl) width h m r memory bare =
      amo_word-bare width rd rs1 rs2 (λ old reg. amo_min 32 old reg) h m bare
  execute_translated-bare fpu (Instr.amomind rd rs1 rs2 aq rl) width h m r memory bare =
      amo_double-bare width rd rs1 rs2 (λ old reg. amo_min 64 old reg) h m bare
  execute_translated-bare fpu (Instr.amomaxw rd rs1 rs2 aq rl) width h m r memory bare =
      amo_word-bare width rd rs1 rs2 (λ old reg. amo_max 32 old reg) h m bare
  execute_translated-bare fpu (Instr.amomaxd rd rs1 rs2 aq rl) width h m r memory bare =
      amo_double-bare width rd rs1 rs2 (λ old reg. amo_max 64 old reg) h m bare
  execute_translated-bare fpu (Instr.amominuw rd rs1 rs2 aq rl) width h m r memory bare =
      amo_word-bare width rd rs1 rs2 (λ old reg. amo_minu old reg) h m bare
  execute_translated-bare fpu (Instr.amominud rd rs1 rs2 aq rl) width h m r memory bare =
      amo_double-bare width rd rs1 rs2 (λ old reg. amo_minu old reg) h m bare
  execute_translated-bare fpu (Instr.amomaxuw rd rs1 rs2 aq rl) width h m r memory bare =
      amo_word-bare width rd rs1 rs2 (λ old reg. amo_maxu old reg) h m bare
  execute_translated-bare fpu (Instr.amomaxud rd rs1 rs2 aq rl) width h m r memory bare =
      amo_double-bare width rd rs1 rs2 (λ old reg. amo_maxu old reg) h m bare
  execute_translated-bare fpu _ width h m r memory bare = ground arith
