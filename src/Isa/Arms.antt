-- ===== src/Isa/Arms.antt =====
-- crates/riscv-core/src/decode.rs: `decode`, the arms of the major opcodes up to AMO.
use tab_linux.Base.{ℕ, Bool, [], ◌∷◌, ◌==◌, if◌then◌else◌, select, shr}
use tab_linux.Isa.{Instr}

unfoldable pub decode_branch : (funct3 rs1 rs2 imm : ℕ) → Instr
decode_branch funct3 rs1 rs2 imm =
    select funct3
      ((0b000, Instr.beq rs1 rs2 imm)
        ∷ (0b001, Instr.bne rs1 rs2 imm)
        ∷ (0b100, Instr.blt rs1 rs2 imm)
        ∷ (0b101, Instr.bge rs1 rs2 imm)
        ∷ (0b110, Instr.bltu rs1 rs2 imm)
        ∷ (0b111, Instr.bgeu rs1 rs2 imm)
        ∷ [])
      Instr.unimp

unfoldable pub decode_load : (funct3 rd rs1 imm : ℕ) → Instr
decode_load funct3 rd rs1 imm =
    select funct3
      ((0b000, Instr.lb rd rs1 imm)
        ∷ (0b001, Instr.lh rd rs1 imm)
        ∷ (0b010, Instr.lw rd rs1 imm)
        ∷ (0b011, Instr.ld rd rs1 imm)
        ∷ (0b100, Instr.lbu rd rs1 imm)
        ∷ (0b101, Instr.lhu rd rs1 imm)
        ∷ (0b110, Instr.lwu rd rs1 imm)
        ∷ [])
      Instr.unimp

unfoldable pub decode_load_fp : (funct3 rd rs1 imm : ℕ) → Instr
decode_load_fp funct3 rd rs1 imm =
    select funct3 ((0b010, Instr.flw rd rs1 imm) ∷ (0b011, Instr.fld rd rs1 imm) ∷ []) Instr.unimp

unfoldable pub decode_store : (funct3 rs1 rs2 imm : ℕ) → Instr
decode_store funct3 rs1 rs2 imm =
    select funct3
      ((0b000, Instr.sb rs1 rs2 imm)
        ∷ (0b001, Instr.sh rs1 rs2 imm)
        ∷ (0b010, Instr.sw rs1 rs2 imm)
        ∷ (0b011, Instr.sd rs1 rs2 imm)
        ∷ [])
      Instr.unimp

unfoldable pub decode_store_fp : (funct3 rs1 rs2 imm : ℕ) → Instr
decode_store_fp funct3 rs1 rs2 imm =
    select funct3 ((0b010, Instr.fsw rs1 rs2 imm) ∷ (0b011, Instr.fsd rs1 rs2 imm) ∷ []) Instr.unimp

-- The shift amount of `slli`, `srli` and `srai` has six bits, so funct7 is matched without its last.
unfoldable pub decode_shift_right : (funct7 rd rs1 shamt : ℕ) → Instr
decode_shift_right funct7 rd rs1 shamt =
    select (shr funct7 1)
      ((0b000000, Instr.srli rd rs1 shamt) ∷ (0b010000, Instr.srai rd rs1 shamt) ∷ []) Instr.unimp

unfoldable pub decode_op_imm : (funct3 funct7 rd rs1 imm shamt : ℕ) → Instr
unfolding decode_shift_right
decode_op_imm funct3 funct7 rd rs1 imm shamt =
    select funct3
      ((0b000, Instr.addi rd rs1 imm)
        ∷ (0b010, Instr.slti rd rs1 imm)
        ∷ (0b011, Instr.sltiu rd rs1 imm)
        ∷ (0b100, Instr.xori rd rs1 imm)
        ∷ (0b110, Instr.ori rd rs1 imm)
        ∷ (0b111, Instr.andi rd rs1 imm)
        ∷ (0b001, Instr.slli rd rs1 shamt)
        ∷ (0b101, decode_shift_right funct7 rd rs1 shamt)
        ∷ [])
      Instr.unimp

unfoldable pub decode_muldiv : (funct3 rd rs1 rs2 : ℕ) → Instr
decode_muldiv funct3 rd rs1 rs2 =
    select funct3
      ((0b000, Instr.mul rd rs1 rs2)
        ∷ (0b001, Instr.mulh rd rs1 rs2)
        ∷ (0b010, Instr.mulhsu rd rs1 rs2)
        ∷ (0b011, Instr.mulhu rd rs1 rs2)
        ∷ (0b100, Instr.div rd rs1 rs2)
        ∷ (0b101, Instr.divu rd rs1 rs2)
        ∷ (0b110, Instr.rem rd rs1 rs2)
        ∷ (0b111, Instr.remu rd rs1 rs2)
        ∷ [])
      Instr.unimp

unfoldable pub decode_alu : (funct3 rd rs1 rs2 : ℕ) → Instr
decode_alu funct3 rd rs1 rs2 =
    select funct3
      ((0b000, Instr.add rd rs1 rs2)
        ∷ (0b001, Instr.sll rd rs1 rs2)
        ∷ (0b010, Instr.slt rd rs1 rs2)
        ∷ (0b011, Instr.sltu rd rs1 rs2)
        ∷ (0b100, Instr.xor rd rs1 rs2)
        ∷ (0b101, Instr.srl rd rs1 rs2)
        ∷ (0b110, Instr.or rd rs1 rs2)
        ∷ (0b111, Instr.and rd rs1 rs2)
        ∷ [])
      Instr.unimp

unfoldable pub decode_alu_alt : (funct3 rd rs1 rs2 : ℕ) → Instr
decode_alu_alt funct3 rd rs1 rs2 =
    select funct3 ((0b000, Instr.sub rd rs1 rs2) ∷ (0b101, Instr.sra rd rs1 rs2) ∷ []) Instr.unimp

unfoldable pub decode_op : (funct7 funct3 rd rs1 rs2 : ℕ) → Instr
unfolding decode_muldiv decode_alu decode_alu_alt
decode_op funct7 funct3 rd rs1 rs2 =
    if funct7 == 0b0000001
    then decode_muldiv funct3 rd rs1 rs2
    else if funct7 == 0b0000000
    then decode_alu funct3 rd rs1 rs2
    else if funct7 == 0b0100000
    then decode_alu_alt funct3 rd rs1 rs2
    else Instr.unimp

unfoldable pub decode_amo_w : (funct5 rd rs1 rs2 : ℕ) (aq rl : Bool) → Instr
decode_amo_w funct5 rd rs1 rs2 aq rl =
    select funct5
      ((0b00010, Instr.lrw rd rs1 aq rl)
        ∷ (0b00011, Instr.scw rd rs1 rs2 aq rl)
        ∷ (0b00001, Instr.amoswapw rd rs1 rs2 aq rl)
        ∷ (0b00000, Instr.amoaddw rd rs1 rs2 aq rl)
        ∷ (0b00100, Instr.amoxorw rd rs1 rs2 aq rl)
        ∷ (0b01100, Instr.amoandw rd rs1 rs2 aq rl)
        ∷ (0b01000, Instr.amoorw rd rs1 rs2 aq rl)
        ∷ (0b10000, Instr.amominw rd rs1 rs2 aq rl)
        ∷ (0b10100, Instr.amomaxw rd rs1 rs2 aq rl)
        ∷ (0b11000, Instr.amominuw rd rs1 rs2 aq rl)
        ∷ (0b11100, Instr.amomaxuw rd rs1 rs2 aq rl)
        ∷ [])
      Instr.unimp

unfoldable pub decode_amo_d : (funct5 rd rs1 rs2 : ℕ) (aq rl : Bool) → Instr
decode_amo_d funct5 rd rs1 rs2 aq rl =
    select funct5
      ((0b00010, Instr.lrd rd rs1 aq rl)
        ∷ (0b00011, Instr.scd rd rs1 rs2 aq rl)
        ∷ (0b00001, Instr.amoswapd rd rs1 rs2 aq rl)
        ∷ (0b00000, Instr.amoaddd rd rs1 rs2 aq rl)
        ∷ (0b00100, Instr.amoxord rd rs1 rs2 aq rl)
        ∷ (0b01100, Instr.amoandd rd rs1 rs2 aq rl)
        ∷ (0b01000, Instr.amoord rd rs1 rs2 aq rl)
        ∷ (0b10000, Instr.amomind rd rs1 rs2 aq rl)
        ∷ (0b10100, Instr.amomaxd rd rs1 rs2 aq rl)
        ∷ (0b11000, Instr.amominud rd rs1 rs2 aq rl)
        ∷ (0b11100, Instr.amomaxud rd rs1 rs2 aq rl)
        ∷ [])
      Instr.unimp

unfoldable pub decode_amo : (funct3 funct5 rd rs1 rs2 : ℕ) (aq rl : Bool) → Instr
unfolding decode_amo_w decode_amo_d
decode_amo funct3 funct5 rd rs1 rs2 aq rl =
    select funct3
      ((0b010, decode_amo_w funct5 rd rs1 rs2 aq rl)
        ∷ (0b011, decode_amo_d funct5 rd rs1 rs2 aq rl)
        ∷ [])
      Instr.unimp
