-- ===== src/Isa/Encode.antt =====
-- crates/riscv-core/src/encode.rs: the format helpers, `encode`, and the constructors of common
-- instructions. `none` is the answer for what has no encoding yet.
pub mod Words
pub mod InPlace
pub mod Bounds
use tab_linux.Base.{ℕ, bit_or, Option, none, some, u32, low_bits, field, sar, shl}
use tab_linux.Isa.{Instr}

-- `(x as u32) << k`.
abbrev at : ℕ → ℕ → ℕ
at x k = shl 32 x k

unfoldable pub i_type : (imm rs1 funct3 rd opcode : ℕ) → ℕ
i_type imm rs1 funct3 rd opcode =
    let imm_11_0 = low_bits (u32 imm) 12 in
    bit_or (bit_or (bit_or (bit_or (at imm_11_0 20) (at rs1 15)) (at funct3 12)) (at rd 7)) opcode

unfoldable pub s_type : (imm rs2 rs1 funct3 : ℕ) → ℕ
s_type imm rs2 rs1 funct3 =
    let imm_11_0 = low_bits (u32 imm) 12 in
    let imm_hi = field imm_11_0 5 7 in
    let imm_lo = low_bits imm_11_0 5 in
    bit_or
      (bit_or (bit_or (bit_or (bit_or (at imm_hi 25) (at rs2 20)) (at rs1 15)) (at funct3 12))
        (at imm_lo 7))
      0b0100011

unfoldable pub b_type : (imm rs2 rs1 funct3 : ℕ) → ℕ
b_type imm rs2 rs1 funct3 =
    let bit12 = low_bits (sar 64 imm 12) 1 in
    let bits10_5 = low_bits (sar 64 imm 5) 6 in
    let bits4_1 = low_bits (sar 64 imm 1) 4 in
    let bit11 = low_bits (sar 64 imm 11) 1 in
    bit_or
      (bit_or
        (bit_or
          (bit_or
            (bit_or (bit_or (bit_or (at bit12 31) (at bits10_5 25)) (at bit11 7)) (at bits4_1 8))
            (at rs2 20))
          (at rs1 15))
        (at funct3 12))
      0b1100011

unfoldable pub r_type : (funct7 rs2 rs1 funct3 rd opcode : ℕ) → ℕ
r_type funct7 rs2 rs1 funct3 rd opcode =
    bit_or
      (bit_or (bit_or (bit_or (bit_or (at funct7 25) (at rs2 20)) (at rs1 15)) (at funct3 12))
        (at rd 7))
      opcode

unfoldable pub csr_type : (csr rs1 funct3 rd : ℕ) → ℕ
csr_type csr rs1 funct3 rd =
    bit_or (bit_or (bit_or (bit_or (at csr 20) (at rs1 15)) (at funct3 12)) (at rd 7)) 0b1110011

-- The words that `encode` writes in place for `lui` and `auipc`, for `jal`, and for the shifts by
-- a constant, with the bits above the shift amount given.
unfoldable pub u_word : (imm rd opcode : ℕ) → ℕ
u_word imm rd opcode =
    let imm_31_12 = low_bits (u32 (sar 64 imm 12)) 20 in
    bit_or (bit_or (at imm_31_12 12) (at rd 7)) opcode

unfoldable pub j_word : (imm rd : ℕ) → ℕ
j_word imm rd =
    let bit20 = low_bits (sar 64 imm 20) 1 in
    let bits10_1 = low_bits (sar 64 imm 1) 10 in
    let bit11 = low_bits (sar 64 imm 11) 1 in
    let bits19_12 = low_bits (sar 64 imm 12) 8 in
    let j_imm =
      bit_or (bit_or (bit_or (at bit20 31) (at bits19_12 12)) (at bit11 20)) (at bits10_1 21) in
    bit_or (bit_or j_imm (at rd 7)) 0b1101111

unfoldable pub shift_word : (top width shamt rs1 funct3 rd opcode : ℕ) → ℕ
shift_word top width shamt rs1 funct3 rd opcode =
    bit_or
      (bit_or (bit_or (bit_or (bit_or (at top width) (at shamt 20)) (at rs1 15)) (at funct3 12))
        (at rd 7))
      opcode

unfoldable pub fence_word : (pred succ : ℕ) → ℕ
fence_word pred succ = bit_or (bit_or (at pred 20) (at succ 24)) 0b0001111

unfoldable pub sfence_word : (rs1 rs2 : ℕ) → ℕ
sfence_word rs1 rs2 =
    bit_or (bit_or (bit_or (bit_or (at rs2 20) (at rs1 15)) (at 0b000 12)) (at 0b0001001 25))
      0b1110011

-- The raw word of each instruction that has one.
unfoldable pub raw_word : Instr → Option ℕ
raw_word (Instr.lui rd imm) = some (u_word imm rd 0b0110111)
raw_word (Instr.auipc rd imm) = some (u_word imm rd 0b0010111)
raw_word (Instr.jal rd imm) = some (j_word imm rd)
raw_word (Instr.jalr rd rs1 imm) = some (i_type imm rs1 0b000 rd 0b1100111)
raw_word (Instr.lb rd rs1 imm) = some (i_type imm rs1 0b000 rd 0b0000011)
raw_word (Instr.lh rd rs1 imm) = some (i_type imm rs1 0b001 rd 0b0000011)
raw_word (Instr.lw rd rs1 imm) = some (i_type imm rs1 0b010 rd 0b0000011)
raw_word (Instr.ld rd rs1 imm) = some (i_type imm rs1 0b011 rd 0b0000011)
raw_word (Instr.lbu rd rs1 imm) = some (i_type imm rs1 0b100 rd 0b0000011)
raw_word (Instr.lhu rd rs1 imm) = some (i_type imm rs1 0b101 rd 0b0000011)
raw_word (Instr.lwu rd rs1 imm) = some (i_type imm rs1 0b110 rd 0b0000011)
raw_word (Instr.fld rd rs1 imm) = some (i_type imm rs1 0b011 rd 0b0000111)
raw_word (Instr.addi rd rs1 imm) = some (i_type imm rs1 0b000 rd 0b0010011)
raw_word (Instr.slti rd rs1 imm) = some (i_type imm rs1 0b010 rd 0b0010011)
raw_word (Instr.sltiu rd rs1 imm) = some (i_type imm rs1 0b011 rd 0b0010011)
raw_word (Instr.xori rd rs1 imm) = some (i_type imm rs1 0b100 rd 0b0010011)
raw_word (Instr.ori rd rs1 imm) = some (i_type imm rs1 0b110 rd 0b0010011)
raw_word (Instr.andi rd rs1 imm) = some (i_type imm rs1 0b111 rd 0b0010011)
raw_word (Instr.slli rd rs1 shamt) = some (shift_word 0b000000 26 shamt rs1 0b001 rd 0b0010011)
raw_word (Instr.srli rd rs1 shamt) = some (shift_word 0b000000 26 shamt rs1 0b101 rd 0b0010011)
raw_word (Instr.srai rd rs1 shamt) = some (shift_word 0b010000 26 shamt rs1 0b101 rd 0b0010011)
raw_word (Instr.addiw rd rs1 imm) = some (i_type imm rs1 0b000 rd 0b0011011)
raw_word (Instr.slliw rd rs1 shamt) = some (shift_word 0b0000000 25 shamt rs1 0b001 rd 0b0011011)
raw_word (Instr.srliw rd rs1 shamt) = some (shift_word 0b0000000 25 shamt rs1 0b101 rd 0b0011011)
raw_word (Instr.sraiw rd rs1 shamt) = some (shift_word 0b0100000 25 shamt rs1 0b101 rd 0b0011011)
raw_word (Instr.beq rs1 rs2 imm) = some (b_type imm rs2 rs1 0b000)
raw_word (Instr.bne rs1 rs2 imm) = some (b_type imm rs2 rs1 0b001)
raw_word (Instr.blt rs1 rs2 imm) = some (b_type imm rs2 rs1 0b100)
raw_word (Instr.bge rs1 rs2 imm) = some (b_type imm rs2 rs1 0b101)
raw_word (Instr.bltu rs1 rs2 imm) = some (b_type imm rs2 rs1 0b110)
raw_word (Instr.bgeu rs1 rs2 imm) = some (b_type imm rs2 rs1 0b111)
raw_word (Instr.sb rs1 rs2 imm) = some (s_type imm rs2 rs1 0b000)
raw_word (Instr.sh rs1 rs2 imm) = some (s_type imm rs2 rs1 0b001)
raw_word (Instr.sw rs1 rs2 imm) = some (s_type imm rs2 rs1 0b010)
raw_word (Instr.sd rs1 rs2 imm) = some (s_type imm rs2 rs1 0b011)
raw_word (Instr.fsd rs1 rs2 imm) = some (s_type imm rs2 rs1 0b011)
raw_word (Instr.add rd rs1 rs2) = some (r_type 0b0000000 rs2 rs1 0b000 rd 0b0110011)
raw_word (Instr.sub rd rs1 rs2) = some (r_type 0b0100000 rs2 rs1 0b000 rd 0b0110011)
raw_word (Instr.sll rd rs1 rs2) = some (r_type 0b0000000 rs2 rs1 0b001 rd 0b0110011)
raw_word (Instr.slt rd rs1 rs2) = some (r_type 0b0000000 rs2 rs1 0b010 rd 0b0110011)
raw_word (Instr.sltu rd rs1 rs2) = some (r_type 0b0000000 rs2 rs1 0b011 rd 0b0110011)
raw_word (Instr.xor rd rs1 rs2) = some (r_type 0b0000000 rs2 rs1 0b100 rd 0b0110011)
raw_word (Instr.srl rd rs1 rs2) = some (r_type 0b0000000 rs2 rs1 0b101 rd 0b0110011)
raw_word (Instr.sra rd rs1 rs2) = some (r_type 0b0100000 rs2 rs1 0b101 rd 0b0110011)
raw_word (Instr.or rd rs1 rs2) = some (r_type 0b0000000 rs2 rs1 0b110 rd 0b0110011)
raw_word (Instr.and rd rs1 rs2) = some (r_type 0b0000000 rs2 rs1 0b111 rd 0b0110011)
raw_word (Instr.mul rd rs1 rs2) = some (r_type 0b0000001 rs2 rs1 0b000 rd 0b0110011)
raw_word (Instr.mulh rd rs1 rs2) = some (r_type 0b0000001 rs2 rs1 0b001 rd 0b0110011)
raw_word (Instr.mulhsu rd rs1 rs2) = some (r_type 0b0000001 rs2 rs1 0b010 rd 0b0110011)
raw_word (Instr.mulhu rd rs1 rs2) = some (r_type 0b0000001 rs2 rs1 0b011 rd 0b0110011)
raw_word (Instr.div rd rs1 rs2) = some (r_type 0b0000001 rs2 rs1 0b100 rd 0b0110011)
raw_word (Instr.divu rd rs1 rs2) = some (r_type 0b0000001 rs2 rs1 0b101 rd 0b0110011)
raw_word (Instr.rem rd rs1 rs2) = some (r_type 0b0000001 rs2 rs1 0b110 rd 0b0110011)
raw_word (Instr.remu rd rs1 rs2) = some (r_type 0b0000001 rs2 rs1 0b111 rd 0b0110011)
raw_word (Instr.addw rd rs1 rs2) = some (r_type 0b0000000 rs2 rs1 0b000 rd 0b0111011)
raw_word (Instr.subw rd rs1 rs2) = some (r_type 0b0100000 rs2 rs1 0b000 rd 0b0111011)
raw_word (Instr.sllw rd rs1 rs2) = some (r_type 0b0000000 rs2 rs1 0b001 rd 0b0111011)
raw_word (Instr.srlw rd rs1 rs2) = some (r_type 0b0000000 rs2 rs1 0b101 rd 0b0111011)
raw_word (Instr.sraw rd rs1 rs2) = some (r_type 0b0100000 rs2 rs1 0b101 rd 0b0111011)
raw_word (Instr.mulw rd rs1 rs2) = some (r_type 0b0000001 rs2 rs1 0b000 rd 0b0111011)
raw_word (Instr.divw rd rs1 rs2) = some (r_type 0b0000001 rs2 rs1 0b100 rd 0b0111011)
raw_word (Instr.divuw rd rs1 rs2) = some (r_type 0b0000001 rs2 rs1 0b101 rd 0b0111011)
raw_word (Instr.remw rd rs1 rs2) = some (r_type 0b0000001 rs2 rs1 0b110 rd 0b0111011)
raw_word (Instr.remuw rd rs1 rs2) = some (r_type 0b0000001 rs2 rs1 0b111 rd 0b0111011)
raw_word Instr.ecall = some 0x00000073
raw_word Instr.ebreak = some 0x00100073
raw_word Instr.mret = some 0x30200073
raw_word Instr.sret = some 0x10200073
raw_word Instr.uret = some 0x00200073
raw_word Instr.wfi = some 0x10500073
raw_word (Instr.fence pred succ) = some (fence_word pred succ)
raw_word Instr.fence_i = some 0x0000100F
raw_word (Instr.csrrw rd rs1 csr) = some (csr_type csr rs1 0b001 rd)
raw_word (Instr.csrrs rd rs1 csr) = some (csr_type csr rs1 0b010 rd)
raw_word (Instr.csrrc rd rs1 csr) = some (csr_type csr rs1 0b011 rd)
raw_word (Instr.csrrwi rd zimm csr) = some (csr_type csr zimm 0b101 rd)
raw_word (Instr.csrrsi rd zimm csr) = some (csr_type csr zimm 0b110 rd)
raw_word (Instr.csrrci rd zimm csr) = some (csr_type csr zimm 0b111 rd)
raw_word (Instr.sfence_vma rs1 rs2) = some (sfence_word rs1 rs2)
raw_word other = none

-- The word and its width in bytes.
unfoldable pub encode : Instr → Option (ℕ × ℕ)
encode instr = elim (raw_word instr) [ none ↦ none | some raw ↦ some (raw, 4) ]
