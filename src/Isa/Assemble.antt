-- ===== src/Isa/Assemble.antt =====
-- crates/riscv-core/src/encode.rs: `encode_bytes`, `assemble`, and the constructors of common
-- instructions.
pub mod Disassemble
use tab_linux.Base.{
  ℕ, ◌-◌, ◌^◌, Bool, ◌||◌, Option, none, some, List, [], ◌∷◌, ◌++◌, ltb, leb, ◌==◌, if◌then◌else◌,
  ◌>>=◌, u16, u32, field, sar, sext, shl,
}
use tab_linux.Isa.Encode.{encode}
use tab_linux.Isa.{Instr}

-- `to_le_bytes` of a u32 and of a u16.
abbrev pub le_bytes_4 : ℕ → List ℕ
le_bytes_4 raw = field raw 0 8 ∷ field raw 8 8 ∷ field raw 16 8 ∷ field raw 24 8 ∷ []

abbrev pub le_bytes_2 : ℕ → List ℕ
le_bytes_2 raw = field raw 0 8 ∷ field raw 8 8 ∷ []

unfoldable pub encode_bytes : Instr → Option (List ℕ × ℕ)
encode_bytes instr = do (raw, width) ← encode instr; some (le_bytes_4 raw, width)

-- An instruction without an encoding adds no bytes.
unfoldable pub assemble_one : Instr → List ℕ
assemble_one instr = elim (encode instr) [
  | none ↦ []
  | some (raw, width) ↦ if width == 2 then le_bytes_2 (u16 raw) else le_bytes_4 raw
]

unfoldable pub assemble : List Instr → List ℕ
assemble [] = []
assemble (instr ∷ instrs) = assemble_one instr ++ assemble instrs

unfoldable pub addi : (rd rs1 imm : ℕ) → Instr
addi rd rs1 imm = Instr.addi rd rs1 imm

-- `-2048 <= imm && imm < 2048` on an i64.
abbrev is_short : ℕ → Bool
is_short imm = leb (2 ^ 64 - 2048) imm || ltb imm 2048

-- The two halves of a 32-bit constant: `imm as i32 >> 12` and `(imm as i32) << 20 >> 20`.
unfoldable pub li_hi : ℕ → ℕ
li_hi imm = sext 32 (sar 32 (u32 imm) 12)

unfoldable pub li_lo : ℕ → ℕ
li_lo imm = sext 32 (sar 32 (shl 32 (u32 imm) 20) 20)

unfoldable pub li : (rd imm : ℕ) → List Instr
li rd imm =
    if is_short imm
    then Instr.addi rd 0 imm ∷ []
    else if li_lo imm == 0
    then Instr.lui rd (shl 64 (li_hi imm) 12) ∷ []
    else Instr.lui rd (shl 64 (li_hi imm) 12) ∷ Instr.addi rd rd (li_lo imm) ∷ []

unfoldable pub mv : (rd rs : ℕ) → Instr
mv rd rs = Instr.addi rd rs 0

unfoldable pub nop : Instr
nop = Instr.addi 0 0 0

unfoldable pub j : ℕ → Instr
j imm = Instr.jal 0 imm

unfoldable pub jr : ℕ → Instr
jr rs1 = Instr.jalr 0 rs1 0

unfoldable pub ret : Instr
ret = Instr.jalr 0 1 0

unfoldable pub csrr : (rd csr : ℕ) → Instr
csrr rd csr = Instr.csrrs rd 0 csr

unfoldable pub csrw : (csr rs1 : ℕ) → Instr
csrw csr rs1 = Instr.csrrw 0 rs1 csr
