-- ===== src/Supervisor/SatpWord.antt =====
-- The word of satp: what is read back of what is written.
use tab_linux.Base.{
  ℕ, ◌+◌, ◌*◌, ◌/◌, ◌%◌, ◌^◌, ◌<◌, ◌≡◌, refl, ◌||◌, arith, ◌==◌, if◌then◌else◌, low_bits, or_next,
}
use tab_linux.Supervisor.{satp_from_bits, satp_to_bits, Satp}

-- The fields of satp are summed up in its word.
satp_to_bits-sum :
    (s : Satp)
    → satp_to_bits s ≡ low_bits s.mode 4 * 2 ^ 60 + low_bits s.asid 16 * 2 ^ 44 + low_bits s.ppn 44
unfolding satp_to_bits
satp_to_bits-sum s =
    or_next 0 44 (or_next 44 16 refl refl (omega arith) (omega arith) (omega arith)) refl
      (omega arith) (omega arith) (omega arith)

-- A 64-bit word written to satp reads back as it is where its mode is 0 or 8, and with mode 0 where it
-- is not.
satp_to_bits-satp_from_bits :
    (w : ℕ)
    → w < 2 ^ 64
    → satp_to_bits (satp_from_bits w)
      ≡ (if w / 2 ^ 60 == 0 || w / 2 ^ 60 == 8 then w else w % 2 ^ 60)
unfolding satp_from_bits
satp_to_bits-satp_from_bits w h = ground (arith, satp_to_bits-sum (satp_from_bits w))

-- Writing to satp what is read back from it changes nothing more.
pub satp_from_bits-satp_to_bits :
    (w : ℕ) → satp_from_bits (satp_to_bits (satp_from_bits w)) ≡ satp_from_bits w
unfolding satp_from_bits
satp_from_bits-satp_to_bits w =
    λ i. record { mode = mode_again i; asid = asid_again i; ppn = ppn_again i }
  where
    mode_again : (satp_from_bits (satp_to_bits (satp_from_bits w))).mode ≡ (satp_from_bits w).mode
    mode_again = ground (arith, satp_to_bits-sum (satp_from_bits w))

    asid_again : (satp_from_bits (satp_to_bits (satp_from_bits w))).asid ≡ (satp_from_bits w).asid
    asid_again = ground (arith, satp_to_bits-sum (satp_from_bits w))

    ppn_again : (satp_from_bits (satp_to_bits (satp_from_bits w))).ppn ≡ (satp_from_bits w).ppn
    ppn_again = ground (arith, satp_to_bits-sum (satp_from_bits w))
