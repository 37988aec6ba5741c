-- ===== src/Tests/Codec.antt =====
-- The theorems on the codec at concrete instructions.
use tab_linux.Base.{ℕ, ◌≡◌, refl, inl, true, some, arith}
use tab_linux.Isa.{Instr}
use tab_linux.Isa.RoundTrip.Encodable.{is_encodable}
use tab_linux.Isa.RoundTrip.{RoundTrips, decode-encode, decode-encode_fsd}
use tab_linux.Isa.CompressedImm.{sext_imm, six_bits}
use tab_linux.Isa.Encode.{encode, i_type, raw_word}
use tab_linux.Isa.Compressed.{decompress, quadrant1}
use tab_linux.Isa.Compressed.Ranges.{decompress-InRange}
use tab_linux.Isa.Range.{InRange}
use tab_linux.Isa.Decode.Ranges.{decode-InRange}
use tab_linux.Isa.Decode.{decode}

addi-encodable : is_encodable (Instr.addi 1 2 5) ≡ true
unfolding is_encodable
addi-encodable = refl

decode-encode_example : RoundTrips (Instr.addi 1 2 5)
decode-encode_example =
    decode-encode (Instr.addi 1 2 5) (omega arith, omega arith, inl (omega arith)) addi-encodable

decode-encode_fsd_example :
    (raw : ℕ) × (encode (Instr.fsd 2 8 16) ≡ some (raw, 4)) × (decode raw ≡ Instr.sd 2 8 16)
decode-encode_fsd_example = decode-encode_fsd 2 8 16 (omega arith, omega arith, inl (omega arith))

decode-InRange_example : InRange (decode 0x0051_0093)
decode-InRange_example = decode-InRange 0x0051_0093 (omega arith)

-- c.li a0, 5
pub decompresses : decompress 0x4515 ≡ some (Instr.addi 10 0 5)
unfolding decompress quadrant1 sext_imm six_bits
decompresses = refl

decompress-InRange_example : InRange (Instr.addi 10 0 5)
decompress-InRange_example = decompress-InRange 0x4515 decompresses

encodes : encode (Instr.addi 1 2 5) ≡ some (0x0051_0093, 4)
unfolding encode raw_word i_type
encodes = refl
