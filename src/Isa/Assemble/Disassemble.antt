-- ===== src/Isa/Assemble/Disassemble.antt =====
-- The words that the bytes of `assemble` in encode.rs spell, decoded.
use tab_linux.Base.{
  ℕ, ◌+◌, ◌*◌, ◌^◌, ◌<◌, ◌≡◌, refl, ap, ap₂, ◌∙◌, true, List, [], ◌∷◌, map, arith, All, field,
}
use tab_linux.Isa.Assemble.{assemble, assemble_one}
use tab_linux.Isa.RoundTrip.Encodable.{is_encodable}
use tab_linux.Isa.RoundTrip.{decode-encode}
use tab_linux.Isa.Decode.{decode}
use tab_linux.Isa.Range.{InRange}
use tab_linux.Isa.{Instr}
use tab_linux.Isa.Encode.Bounds.{encode-lt}

-- The 32-bit little-endian words of a byte sequence; what is left over at the end spells none.
words : List ℕ → List ℕ
words (a ∷ b ∷ c ∷ d ∷ rest) = (a + b * 2 ^ 8 + c * 2 ^ 16 + d * 2 ^ 24) ∷ words rest
words _ = []

abbrev IsAssemblable : Instr → Type 0
IsAssemblable i = InRange i × (is_encodable i ≡ true)

-- Decoding the words of an assembled program gives the program, if each of its instructions is in
-- range and has a word of its own.
decode-words-assemble :
    (instrs : List Instr) → All IsAssemblable instrs → map decode (words (assemble instrs)) ≡ instrs
unfolding words assemble assemble_one
decode-words-assemble [] h = refl
decode-words-assemble (i ∷ instrs) ((range, has_word), rest) =
    let (raw, e, d) = decode-encode i range has_word in
    rw (e, assemble_one)
      (ap₂ ◌∷◌ (ap decode (word_of raw (encode-lt i e)) ∙ d) (decode-words-assemble instrs rest))
  where
    word_of :
        (raw : ℕ)
        → raw < 2 ^ 32
        → field raw 0 8 + field raw 8 8 * 2 ^ 8 + field raw 16 8 * 2 ^ 16 + field raw 24 8 * 2 ^ 24
          ≡ raw
    word_of raw h = omega arith
