-- ===== src/Supervisor/Hart/LoadStore/Reservation.antt =====
-- A store-conditional after a load-reserved.
use tab_linux.Base.{
  ℕ, ◌≡◌, refl, sym, ap, ap₂, ◌∙◌, true, Option, none, some, some-injective, arith, ◌>>=◌, u32,
}
use tab_linux.Supervisor.Hart.LoadStore.Atomic.{
  lrw, scw, load_reserved, store_conditional, holds, aligned,
}
use tab_linux.Supervisor.Hart.LoadStore.{next, next_with}
use tab_linux.Cpu.{Bus, Cpu, read_reg}
use tab_linux.Isa.{Status}
use tab_linux.Supervisor.{Satp}
use tab_linux.Supervisor.Hart.{Hart}
use tab_linux.Supervisor.Hart.LoadStore.Bare.{at_address-bare}

-- An instruction that goes on changes the CPU only.
continued :
    {M : Type 0} (width : ℕ) (g h' : Hart) (m m' : M) (s : Status) (o : Option Cpu)
    → (o >>= λ c. next width (record g { cpu = c }) m) ≡ some (s, h', m')
    → (h'.reservation_addr ≡ g.reservation_addr) × (h'.satp ≡ g.satp) × (m' ≡ m)
continued width g h' m m' s none e = ground arith
continued width g h' m m' s (some c) e =
    let p = some-injective _ _ e in
    (
      ap (λ left. left.1.reservation_addr) (sym p),
      ap (λ left. left.1.satp) (sym p),
      ap (λ left. left.2) (sym p),
    )

holds_self : (a : ℕ) → holds (some a) a ≡ true
holds_self a = ground arith

module _ {M : Type 0} (bus : Bus M) where
  scw-reserved :
      (width rd rs1 rs2 : ℕ) (h : Hart) (m : M)
      → h.satp.mode ≡ 0
      → h.reservation_addr ≡ some (aligned 4 (read_reg h.cpu rs1))
      → scw bus width rd rs1 rs2 h m
        ≡ next_with width rd 0
            (record h { reservation_addr = none })
            (bus.write_u32 m (read_reg h.cpu rs1) (u32 (read_reg h.cpu rs2)))
  unfolding scw store_conditional
  scw-reserved width rd rs1 rs2 h m bare reserved =
      at_address-bare bus _ _ h m _ bare
      ∙ rw (reserved, holds_self (aligned 4 (read_reg h.cpu rs1))) refl

  lrw-continued :
      (width rd rs1 : ℕ) (h h' : Hart) (m m' : M) (s : Status)
      → h.satp.mode ≡ 0
      → lrw bus width rd rs1 h m ≡ some (s, h', m')
      → (h'.reservation_addr ≡ some (aligned 4 (read_reg h.cpu rs1)))
        × (h'.satp ≡ h.satp)
        × (m' ≡ m)
  unfolding lrw load_reserved
  lrw-continued width rd rs1 h h' m m' s bare e =
      continued width (record h { reservation_addr = some (aligned 4 (read_reg h.cpu rs1)) }) h' m
        m' s _ (sym (at_address-bare bus _ _ h m _ bare) ∙ e)

  -- Without translation, an sc.w that follows an lr.w of the same address, which the lr.w has not
  -- overwritten, stores the low word of its register there in the memory of before the lr.w, answers 0
  -- and drops the reservation.
  pub scw-lrw :
      (width rd rs1 rd' rs2 : ℕ) (h h' : Hart) (m m' : M) (s : Status)
      → h.satp.mode ≡ 0
      → lrw bus width rd rs1 h m ≡ some (s, h', m')
      → read_reg h'.cpu rs1 ≡ read_reg h.cpu rs1
      → scw bus width rd' rs1 rs2 h' m'
        ≡ next_with width rd' 0
            (record h' { reservation_addr = none })
            (bus.write_u32 m (read_reg h.cpu rs1) (u32 (read_reg h'.cpu rs2)))
  scw-lrw width rd rs1 rd' rs2 h h' m m' s bare e same =
      let (reserved, satp, memory) = lrw-continued width rd rs1 h h' m m' s bare e in
      scw-reserved width rd' rs1 rs2 h' m' (ap (λ (t : Satp). t.mode) satp ∙ bare)
        (reserved ∙ ap (λ (a : ℕ). some (aligned 4 a)) (sym same))
      ∙ ap₂
          (λ (n : M) (a : ℕ).
            next_with width rd' 0 (record h' { reservation_addr = none })
              (bus.write_u32 n a (u32 (read_reg h'.cpu rs2))))
          memory same
