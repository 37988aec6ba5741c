-- ===== src/Isa/RoundTrip/Encodable.antt =====
-- What `encode` of encode.rs turns into a word of its own. `fsd` is left out: its word is the one
-- of `sd`.
use tab_linux.Base.{Bool, true, false}
use tab_linux.Isa.{Instr}

unfoldable pub is_encodable : Instr → Bool
is_encodable (Instr.flw rd rs1 imm) = false
is_encodable (Instr.fsw rs1 rs2 imm) = false
is_encodable (Instr.fsd rs1 rs2 imm) = false
is_encodable (Instr.lrw rd rs1 aq rl) = false
is_encodable (Instr.scw rd rs1 rs2 aq rl) = false
is_encodable (Instr.amoswapw rd rs1 rs2 aq rl) = false
is_encodable (Instr.amoaddw rd rs1 rs2 aq rl) = false
is_encodable (Instr.amoxorw rd rs1 rs2 aq rl) = false
is_encodable (Instr.amoandw rd rs1 rs2 aq rl) = false
is_encodable (Instr.amoorw rd rs1 rs2 aq rl) = false
is_encodable (Instr.amominw rd rs1 rs2 aq rl) = false
is_encodable (Instr.amomaxw rd rs1 rs2 aq rl) = false
is_encodable (Instr.amominuw rd rs1 rs2 aq rl) = false
is_encodable (Instr.amomaxuw rd rs1 rs2 aq rl) = false
is_encodable (Instr.lrd rd rs1 aq rl) = false
is_encodable (Instr.scd rd rs1 rs2 aq rl) = false
is_encodable (Instr.amoswapd rd rs1 rs2 aq rl) = false
is_encodable (Instr.amoaddd rd rs1 rs2 aq rl) = false
is_encodable (Instr.amoxord rd rs1 rs2 aq rl) = false
is_encodable (Instr.amoandd rd rs1 rs2 aq rl) = false
is_encodable (Instr.amoord rd rs1 rs2 aq rl) = false
is_encodable (Instr.amomind rd rs1 rs2 aq rl) = false
is_encodable (Instr.amomaxd rd rs1 rs2 aq rl) = false
is_encodable (Instr.amominud rd rs1 rs2 aq rl) = false
is_encodable (Instr.amomaxud rd rs1 rs2 aq rl) = false
is_encodable (Instr.fp raw) = false
is_encodable Instr.unimp = false
is_encodable other = true
