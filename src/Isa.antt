-- ===== src/Isa.antt =====
-- crates/riscv-core/src/types.rs: the decoded instructions, the traps and the status of a step.
-- A register index, an immediate and a shift amount are numbers; an `i64` or `u64` is its 64-bit
-- pattern.
pub mod Range
pub mod Imm
pub mod Arms
pub mod Decode
pub mod Encode
pub mod RoundTrip
pub mod Assemble
pub mod CompressedImm
pub mod Compressed
use tab_linux.Base.{ℕ, Bool}

pub data Instr : Type 0 where
  lui : (rd imm : ℕ) → Instr
  auipc : (rd imm : ℕ) → Instr
  jal : (rd imm : ℕ) → Instr
  jalr : (rd rs1 imm : ℕ) → Instr
  beq : (rs1 rs2 imm : ℕ) → Instr
  bne : (rs1 rs2 imm : ℕ) → Instr
  blt : (rs1 rs2 imm : ℕ) → Instr
  bge : (rs1 rs2 imm : ℕ) → Instr
  bltu : (rs1 rs2 imm : ℕ) → Instr
  bgeu : (rs1 rs2 imm : ℕ) → Instr
  lb : (rd rs1 imm : ℕ) → Instr
  lh : (rd rs1 imm : ℕ) → Instr
  lw : (rd rs1 imm : ℕ) → Instr
  ld : (rd rs1 imm : ℕ) → Instr
  lbu : (rd rs1 imm : ℕ) → Instr
  lhu : (rd rs1 imm : ℕ) → Instr
  lwu : (rd rs1 imm : ℕ) → Instr
  sb : (rs1 rs2 imm : ℕ) → Instr
  sh : (rs1 rs2 imm : ℕ) → Instr
  sw : (rs1 rs2 imm : ℕ) → Instr
  sd : (rs1 rs2 imm : ℕ) → Instr
  flw : (rd rs1 imm : ℕ) → Instr
  fld : (rd rs1 imm : ℕ) → Instr
  fsw : (rs1 rs2 imm : ℕ) → Instr
  fsd : (rs1 rs2 imm : ℕ) → Instr
  addi : (rd rs1 imm : ℕ) → Instr
  slti : (rd rs1 imm : ℕ) → Instr
  sltiu : (rd rs1 imm : ℕ) → Instr
  xori : (rd rs1 imm : ℕ) → Instr
  ori : (rd rs1 imm : ℕ) → Instr
  andi : (rd rs1 imm : ℕ) → Instr
  slli : (rd rs1 shamt : ℕ) → Instr
  srli : (rd rs1 shamt : ℕ) → Instr
  srai : (rd rs1 shamt : ℕ) → Instr
  add : (rd rs1 rs2 : ℕ) → Instr
  sub : (rd rs1 rs2 : ℕ) → Instr
  sll : (rd rs1 rs2 : ℕ) → Instr
  slt : (rd rs1 rs2 : ℕ) → Instr
  sltu : (rd rs1 rs2 : ℕ) → Instr
  xor : (rd rs1 rs2 : ℕ) → Instr
  srl : (rd rs1 rs2 : ℕ) → Instr
  sra : (rd rs1 rs2 : ℕ) → Instr
  or : (rd rs1 rs2 : ℕ) → Instr
  and : (rd rs1 rs2 : ℕ) → Instr
  addiw : (rd rs1 imm : ℕ) → Instr
  slliw : (rd rs1 shamt : ℕ) → Instr
  srliw : (rd rs1 shamt : ℕ) → Instr
  sraiw : (rd rs1 shamt : ℕ) → Instr
  addw : (rd rs1 rs2 : ℕ) → Instr
  subw : (rd rs1 rs2 : ℕ) → Instr
  sllw : (rd rs1 rs2 : ℕ) → Instr
  srlw : (rd rs1 rs2 : ℕ) → Instr
  sraw : (rd rs1 rs2 : ℕ) → Instr
  mul : (rd rs1 rs2 : ℕ) → Instr
  mulh : (rd rs1 rs2 : ℕ) → Instr
  mulhsu : (rd rs1 rs2 : ℕ) → Instr
  mulhu : (rd rs1 rs2 : ℕ) → Instr
  div : (rd rs1 rs2 : ℕ) → Instr
  divu : (rd rs1 rs2 : ℕ) → Instr
  rem : (rd rs1 rs2 : ℕ) → Instr
  remu : (rd rs1 rs2 : ℕ) → Instr
  mulw : (rd rs1 rs2 : ℕ) → Instr
  divw : (rd rs1 rs2 : ℕ) → Instr
  divuw : (rd rs1 rs2 : ℕ) → Instr
  remw : (rd rs1 rs2 : ℕ) → Instr
  remuw : (rd rs1 rs2 : ℕ) → Instr
  lrw : (rd rs1 : ℕ) → (aq rl : Bool) → Instr
  scw : (rd rs1 rs2 : ℕ) → (aq rl : Bool) → Instr
  amoswapw : (rd rs1 rs2 : ℕ) → (aq rl : Bool) → Instr
  amoaddw : (rd rs1 rs2 : ℕ) → (aq rl : Bool) → Instr
  amoxorw : (rd rs1 rs2 : ℕ) → (aq rl : Bool) → Instr
  amoandw : (rd rs1 rs2 : ℕ) → (aq rl : Bool) → Instr
  amoorw : (rd rs1 rs2 : ℕ) → (aq rl : Bool) → Instr
  amominw : (rd rs1 rs2 : ℕ) → (aq rl : Bool) → Instr
  amomaxw : (rd rs1 rs2 : ℕ) → (aq rl : Bool) → Instr
  amominuw : (rd rs1 rs2 : ℕ) → (aq rl : Bool) → Instr
  amomaxuw : (rd rs1 rs2 : ℕ) → (aq rl : Bool) → Instr
  lrd : (rd rs1 : ℕ) → (aq rl : Bool) → Instr
  scd : (rd rs1 rs2 : ℕ) → (aq rl : Bool) → Instr
  amoswapd : (rd rs1 rs2 : ℕ) → (aq rl : Bool) → Instr
  amoaddd : (rd rs1 rs2 : ℕ) → (aq rl : Bool) → Instr
  amoxord : (rd rs1 rs2 : ℕ) → (aq rl : Bool) → Instr
  amoandd : (rd rs1 rs2 : ℕ) → (aq rl : Bool) → Instr
  amoord : (rd rs1 rs2 : ℕ) → (aq rl : Bool) → Instr
  amomind : (rd rs1 rs2 : ℕ) → (aq rl : Bool) → Instr
  amomaxd : (rd rs1 rs2 : ℕ) → (aq rl : Bool) → Instr
  amominud : (rd rs1 rs2 : ℕ) → (aq rl : Bool) → Instr
  amomaxud : (rd rs1 rs2 : ℕ) → (aq rl : Bool) → Instr
  fp : (raw : ℕ) → Instr
  ecall : Instr
  ebreak : Instr
  fence : (pred succ : ℕ) → Instr
  fence_i : Instr
  csrrw : (rd rs1 csr : ℕ) → Instr
  csrrs : (rd rs1 csr : ℕ) → Instr
  csrrc : (rd rs1 csr : ℕ) → Instr
  csrrwi : (rd zimm csr : ℕ) → Instr
  csrrsi : (rd zimm csr : ℕ) → Instr
  csrrci : (rd zimm csr : ℕ) → Instr
  mret : Instr
  sret : Instr
  uret : Instr
  wfi : Instr
  sfence_vma : (rs1 rs2 : ℕ) → Instr
  unimp : Instr

pub data Exception : Type 0 where
  instruction_address_misaligned instruction_access_fault illegal_instruction breakpoint : Exception
  load_address_misaligned load_access_fault store_address_misaligned : Exception
  store_access_fault environment_call_from_u environment_call_from_s : Exception
  environment_call_from_m instruction_page_fault load_page_fault store_page_fault : Exception

pub data Interrupt : Type 0 where
  supervisor_software machine_software supervisor_timer machine_timer : Interrupt
  supervisor_external machine_external : Interrupt

pub data Trap : Type 0 where
  exception : Exception → Trap
  interrupt : Interrupt → Trap

pub data Status : Type 0 where
  running : Status
  trap : Trap → Status
  wfi : Status
