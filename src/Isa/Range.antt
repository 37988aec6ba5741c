-- ===== src/Isa/Range.antt =====
-- Which field values an instruction word can carry: the range of each field of `Instr`.
use tab_linux.Base.{ℕ, ◌-◌, ◌^◌, ◌≤◌, ◌<◌, ◌%◌, ◌≡◌, ◌⊎◌}
use tab_linux.Isa.{Instr}

-- A signed number of n bits, as a 64-bit pattern.
abbrev pub IsSigned : ℕ → ℕ → Type 0
IsSigned n x = (x < 2 ^ (n - 1)) ⊎ ((2 ^ 64 - 2 ^ (n - 1) ≤ x) × (x < 2 ^ 64))

abbrev pub IsReg : ℕ → Type 0
IsReg r = r < 32

-- The immediate of `lui` and `auipc`: a signed 32-bit number with 12 zeros at the end.
abbrev pub IsUpper : ℕ → Type 0
IsUpper x = IsSigned 32 x × (x % 2 ^ 12 ≡ 0)

-- A branch or jump offset: signed and even.
abbrev pub IsOffset : ℕ → ℕ → Type 0
IsOffset n x = IsSigned n x × (x % 2 ≡ 0)

abbrev pub InRange : Instr → Type 0
InRange (Instr.lui rd imm) = IsReg rd × IsUpper imm
InRange (Instr.auipc rd imm) = IsReg rd × IsUpper imm
InRange (Instr.jal rd imm) = IsReg rd × IsOffset 21 imm
InRange (Instr.jalr rd rs1 imm) = IsReg rd × IsReg rs1 × IsSigned 12 imm
InRange (Instr.beq rs1 rs2 imm) = IsReg rs1 × IsReg rs2 × IsOffset 13 imm
InRange (Instr.bne rs1 rs2 imm) = IsReg rs1 × IsReg rs2 × IsOffset 13 imm
InRange (Instr.blt rs1 rs2 imm) = IsReg rs1 × IsReg rs2 × IsOffset 13 imm
InRange (Instr.bge rs1 rs2 imm) = IsReg rs1 × IsReg rs2 × IsOffset 13 imm
InRange (Instr.bltu rs1 rs2 imm) = IsReg rs1 × IsReg rs2 × IsOffset 13 imm
InRange (Instr.bgeu rs1 rs2 imm) = IsReg rs1 × IsReg rs2 × IsOffset 13 imm
InRange (Instr.lb rd rs1 imm) = IsReg rd × IsReg rs1 × IsSigned 12 imm
InRange (Instr.lh rd rs1 imm) = IsReg rd × IsReg rs1 × IsSigned 12 imm
InRange (Instr.lw rd rs1 imm) = IsReg rd × IsReg rs1 × IsSigned 12 imm
InRange (Instr.ld rd rs1 imm) = IsReg rd × IsReg rs1 × IsSigned 12 imm
InRange (Instr.lbu rd rs1 imm) = IsReg rd × IsReg rs1 × IsSigned 12 imm
InRange (Instr.lhu rd rs1 imm) = IsReg rd × IsReg rs1 × IsSigned 12 imm
InRange (Instr.lwu rd rs1 imm) = IsReg rd × IsReg rs1 × IsSigned 12 imm
InRange (Instr.sb rs1 rs2 imm) = IsReg rs1 × IsReg rs2 × IsSigned 12 imm
InRange (Instr.sh rs1 rs2 imm) = IsReg rs1 × IsReg rs2 × IsSigned 12 imm
InRange (Instr.sw rs1 rs2 imm) = IsReg rs1 × IsReg rs2 × IsSigned 12 imm
InRange (Instr.sd rs1 rs2 imm) = IsReg rs1 × IsReg rs2 × IsSigned 12 imm
InRange (Instr.flw rd rs1 imm) = IsReg rd × IsReg rs1 × IsSigned 12 imm
InRange (Instr.fld rd rs1 imm) = IsReg rd × IsReg rs1 × IsSigned 12 imm
InRange (Instr.fsw rs1 rs2 imm) = IsReg rs1 × IsReg rs2 × IsSigned 12 imm
InRange (Instr.fsd rs1 rs2 imm) = IsReg rs1 × IsReg rs2 × IsSigned 12 imm
InRange (Instr.addi rd rs1 imm) = IsReg rd × IsReg rs1 × IsSigned 12 imm
InRange (Instr.slti rd rs1 imm) = IsReg rd × IsReg rs1 × IsSigned 12 imm
InRange (Instr.sltiu rd rs1 imm) = IsReg rd × IsReg rs1 × IsSigned 12 imm
InRange (Instr.xori rd rs1 imm) = IsReg rd × IsReg rs1 × IsSigned 12 imm
InRange (Instr.ori rd rs1 imm) = IsReg rd × IsReg rs1 × IsSigned 12 imm
InRange (Instr.andi rd rs1 imm) = IsReg rd × IsReg rs1 × IsSigned 12 imm
InRange (Instr.slli rd rs1 shamt) = IsReg rd × IsReg rs1 × (shamt < 64)
InRange (Instr.srli rd rs1 shamt) = IsReg rd × IsReg rs1 × (shamt < 64)
InRange (Instr.srai rd rs1 shamt) = IsReg rd × IsReg rs1 × (shamt < 64)
InRange (Instr.add rd rs1 rs2) = IsReg rd × IsReg rs1 × IsReg rs2
InRange (Instr.sub rd rs1 rs2) = IsReg rd × IsReg rs1 × IsReg rs2
InRange (Instr.sll rd rs1 rs2) = IsReg rd × IsReg rs1 × IsReg rs2
InRange (Instr.slt rd rs1 rs2) = IsReg rd × IsReg rs1 × IsReg rs2
InRange (Instr.sltu rd rs1 rs2) = IsReg rd × IsReg rs1 × IsReg rs2
InRange (Instr.xor rd rs1 rs2) = IsReg rd × IsReg rs1 × IsReg rs2
InRange (Instr.srl rd rs1 rs2) = IsReg rd × IsReg rs1 × IsReg rs2
InRange (Instr.sra rd rs1 rs2) = IsReg rd × IsReg rs1 × IsReg rs2
InRange (Instr.or rd rs1 rs2) = IsReg rd × IsReg rs1 × IsReg rs2
InRange (Instr.and rd rs1 rs2) = IsReg rd × IsReg rs1 × IsReg rs2
InRange (Instr.addiw rd rs1 imm) = IsReg rd × IsReg rs1 × IsSigned 12 imm
InRange (Instr.slliw rd rs1 shamt) = IsReg rd × IsReg rs1 × (shamt < 32)
InRange (Instr.srliw rd rs1 shamt) = IsReg rd × IsReg rs1 × (shamt < 32)
InRange (Instr.sraiw rd rs1 shamt) = IsReg rd × IsReg rs1 × (shamt < 32)
InRange (Instr.addw rd rs1 rs2) = IsReg rd × IsReg rs1 × IsReg rs2
InRange (Instr.subw rd rs1 rs2) = IsReg rd × IsReg rs1 × IsReg rs2
InRange (Instr.sllw rd rs1 rs2) = IsReg rd × IsReg rs1 × IsReg rs2
InRange (Instr.srlw rd rs1 rs2) = IsReg rd × IsReg rs1 × IsReg rs2
InRange (Instr.sraw rd rs1 rs2) = IsReg rd × IsReg rs1 × IsReg rs2
InRange (Instr.mul rd rs1 rs2) = IsReg rd × IsReg rs1 × IsReg rs2
InRange (Instr.mulh rd rs1 rs2) = IsReg rd × IsReg rs1 × IsReg rs2
InRange (Instr.mulhsu rd rs1 rs2) = IsReg rd × IsReg rs1 × IsReg rs2
InRange (Instr.mulhu rd rs1 rs2) = IsReg rd × IsReg rs1 × IsReg rs2
InRange (Instr.div rd rs1 rs2) = IsReg rd × IsReg rs1 × IsReg rs2
InRange (Instr.divu rd rs1 rs2) = IsReg rd × IsReg rs1 × IsReg rs2
InRange (Instr.rem rd rs1 rs2) = IsReg rd × IsReg rs1 × IsReg rs2
InRange (Instr.remu rd rs1 rs2) = IsReg rd × IsReg rs1 × IsReg rs2
InRange (Instr.mulw rd rs1 rs2) = IsReg rd × IsReg rs1 × IsReg rs2
InRange (Instr.divw rd rs1 rs2) = IsReg rd × IsReg rs1 × IsReg rs2
InRange (Instr.divuw rd rs1 rs2) = IsReg rd × IsReg rs1 × IsReg rs2
InRange (Instr.remw rd rs1 rs2) = IsReg rd × IsReg rs1 × IsReg rs2
InRange (Instr.remuw rd rs1 rs2) = IsReg rd × IsReg rs1 × IsReg rs2
InRange (Instr.lrw rd rs1 aq rl) = IsReg rd × IsReg rs1
InRange (Instr.scw rd rs1 rs2 aq rl) = IsReg rd × IsReg rs1 × IsReg rs2
InRange (Instr.amoswapw rd rs1 rs2 aq rl) = IsReg rd × IsReg rs1 × IsReg rs2
InRange (Instr.amoaddw rd rs1 rs2 aq rl) = IsReg rd × IsReg rs1 × IsReg rs2
InRange (Instr.amoxorw rd rs1 rs2 aq rl) = IsReg rd × IsReg rs1 × IsReg rs2
InRange (Instr.amoandw rd rs1 rs2 aq rl) = IsReg rd × IsReg rs1 × IsReg rs2
InRange (Instr.amoorw rd rs1 rs2 aq rl) = IsReg rd × IsReg rs1 × IsReg rs2
InRange (Instr.amominw rd rs1 rs2 aq rl) = IsReg rd × IsReg rs1 × IsReg rs2
InRange (Instr.amomaxw rd rs1 rs2 aq rl) = IsReg rd × IsReg rs1 × IsReg rs2
InRange (Instr.amominuw rd rs1 rs2 aq rl) = IsReg rd × IsReg rs1 × IsReg rs2
InRange (Instr.amomaxuw rd rs1 rs2 aq rl) = IsReg rd × IsReg rs1 × IsReg rs2
InRange (Instr.lrd rd rs1 aq rl) = IsReg rd × IsReg rs1
InRange (Instr.scd rd rs1 rs2 aq rl) = IsReg rd × IsReg rs1 × IsReg rs2
InRange (Instr.amoswapd rd rs1 rs2 aq rl) = IsReg rd × IsReg rs1 × IsReg rs2
InRange (Instr.amoaddd rd rs1 rs2 aq rl) = IsReg rd × IsReg rs1 × IsReg rs2
InRange (Instr.amoxord rd rs1 rs2 aq rl) = IsReg rd × IsReg rs1 × IsReg rs2
InRange (Instr.amoandd rd rs1 rs2 aq rl) = IsReg rd × IsReg rs1 × IsReg rs2
InRange (Instr.amoord rd rs1 rs2 aq rl) = IsReg rd × IsReg rs1 × IsReg rs2
InRange (Instr.amomind rd rs1 rs2 aq rl) = IsReg rd × IsReg rs1 × IsReg rs2
InRange (Instr.amomaxd rd rs1 rs2 aq rl) = IsReg rd × IsReg rs1 × IsReg rs2
InRange (Instr.amominud rd rs1 rs2 aq rl) = IsReg rd × IsReg rs1 × IsReg rs2
InRange (Instr.amomaxud rd rs1 rs2 aq rl) = IsReg rd × IsReg rs1 × IsReg rs2
InRange (Instr.fp raw) = (raw < 2 ^ 32)
InRange Instr.ecall = Unit {0}
InRange Instr.ebreak = Unit {0}
InRange (Instr.fence pred succ) = (pred < 16) × (succ < 16)
InRange Instr.fence_i = Unit {0}
InRange (Instr.csrrw rd rs1 csr) = IsReg rd × IsReg rs1 × (csr < 2 ^ 12)
InRange (Instr.csrrs rd rs1 csr) = IsReg rd × IsReg rs1 × (csr < 2 ^ 12)
InRange (Instr.csrrc rd rs1 csr) = IsReg rd × IsReg rs1 × (csr < 2 ^ 12)
InRange (Instr.csrrwi rd zimm csr) = IsReg rd × IsReg zimm × (csr < 2 ^ 12)
InRange (Instr.csrrsi rd zimm csr) = IsReg rd × IsReg zimm × (csr < 2 ^ 12)
InRange (Instr.csrrci rd zimm csr) = IsReg rd × IsReg zimm × (csr < 2 ^ 12)
InRange Instr.mret = Unit {0}
InRange Instr.sret = Unit {0}
InRange Instr.uret = Unit {0}
InRange Instr.wfi = Unit {0}
InRange (Instr.sfence_vma rs1 rs2) = IsReg rs1 × IsReg rs2
InRange Instr.unimp = Unit {0}
