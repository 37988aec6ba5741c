-- ===== src/Supervisor/Hart/Privileged/Keeps.antt =====
-- The decode cache through an instruction on a control and status register.
use tab_linux.Base.{
  ℕ, ◌≡◌, refl, ◌∙◌, Bool, true, false, Option, none, some, List, [], ◌∷◌, arith, ◌==◌,
  if◌then◌else◌, select, ◌>>=◌, All,
}
use tab_linux.Supervisor.Hart.LoadStore.Keeps.{trapped-dcache, KeepsCache, Cache}
use tab_linux.Supervisor.Hart.Dispatch.{csr_outcome}
use tab_linux.Supervisor.Hart.Csr.{
  between, bump_gen, csr_read, csr_write, csr_writes, note_phys, record_phys_transition, write_fcsr,
  write_satp,
}
use tab_linux.Isa.{Exception, Trap}
use tab_linux.Supervisor.Hart.Spaces.{fresh_gens, select_space, stash, switch_address_space}
use tab_linux.Cpu.{Bus, Cpu}
use tab_linux.Supervisor.Hart.Privileged.{csr_op, csr_update, new_value, will_write}
use tab_linux.Supervisor.Hart.Traps.{take_trap}
use tab_linux.Supervisor.Hart.{Hart}

select-dcache :
    (c : Cache) (key : ℕ) (table : List (ℕ × Hart)) (h : Hart)
    → All (λ (entry : ℕ × Hart). entry.1.dcache ≡ c) table
    → h.dcache ≡ c
    → (select key table h).dcache ≡ c
select-dcache c key [] h keeps e = e
select-dcache c key ((code, h') ∷ rest) h (keep, keeps) e =
    either (key == code) (select-dcache c key rest h keeps e)
  where
    either :
        (b : Bool)
        → (select key rest h).dcache ≡ c
        → (if b then h' else select key rest h).dcache ≡ c
    either true later = keep
    either false later = later

note_phys-dcache : (val : ℕ) (h : Hart) → (note_phys val h).dcache ≡ h.dcache
unfolding record_phys_transition
note_phys-dcache val h = ground arith

write_satp-dcache : (val : ℕ) (h : Hart) → (write_satp val h).dcache ≡ h.dcache
unfolding write_satp bump_gen switch_address_space select_space stash fresh_gens
write_satp-dcache val h = ground arith

either-dcache :
    (c : Cache) (b : Bool) (x y : Hart)
    → x.dcache ≡ c
    → y.dcache ≡ c
    → (if b then x else y).dcache ≡ c
either-dcache c true x y p q = p
either-dcache c false x y p q = q

csr_writes-dcache :
    (val : ℕ) (h : Hart) → All (λ (entry : ℕ × Hart). entry.1.dcache ≡ h.dcache) (csr_writes val h)
unfolding write_fcsr
csr_writes-dcache val h = (
  refl,
  (
    refl,
    (
      refl,
      (
        refl,
        (
          refl,
          (
            refl,
            (
              refl,
              (
                refl,
                (
                  refl,
                  (
                    note_phys-dcache val _,
                    (
                      refl,
                      (
                        refl,
                        (
                          refl,
                          (
                            refl,
                            (
                              refl,
                              (
                                refl,
                                (
                                  refl,
                                  (
                                    refl,
                                    (
                                      refl,
                                      (
                                        note_phys-dcache val _,
                                        (
                                          refl,
                                          (refl, (refl, (refl, (write_satp-dcache val h, tt)))),
                                        ),
                                      ),
                                    ),
                                  ),
                                ),
                              ),
                            ),
                          ),
                        ),
                      ),
                    ),
                  ),
                ),
              ),
            ),
          ),
        ),
      ),
    ),
  ),
)

csr_write-dcache : (csr val : ℕ) (h : Hart) → (csr_write csr val h).dcache ≡ h.dcache
unfolding csr_write
csr_write-dcache csr val h =
    let selected = select-dcache h.dcache csr (csr_writes val h) h (csr_writes-dcache val h) refl in
    either-dcache h.dcache (between 0x3A0 0x3AF csr) _ _ refl
      (either-dcache h.dcache (between 0x3B0 0x3EF csr) _ _ refl selected)

csr_read-dcache :
    {M : Type 0} (bus : Bus M) (h : Hart) (m : M) (csr : ℕ)
    → (csr_read bus h m csr).1.dcache ≡ h.dcache
unfolding csr_read
csr_read-dcache bus h m csr = ground arith

OptionKeeps : Cache → Option Hart → Type 0
OptionKeeps c none = Unit
OptionKeeps c (some h) = h.dcache ≡ c

updated-OptionKeeps :
    (c : Cache) (w : Hart) (o : Option Cpu)
    → w.dcache ≡ c
    → OptionKeeps c (o >>= λ cpu. some (record w { cpu = cpu }))
unfolding OptionKeeps
updated-OptionKeeps c w none e = tt
updated-OptionKeeps c w (some cpu) e = e

csr_update-OptionKeeps :
    {M : Type 0} (bus : Bus M) (m : M) (csr rd src val : ℕ) (read clear : Bool) (h : Hart)
    → OptionKeeps h.dcache (csr_update bus m csr rd src val read clear h)
unfolding csr_update
csr_update-OptionKeeps bus m csr rd src val read clear h =
    let read_same = csr_read-dcache bus h m csr in
    let h' : Hart = (csr_read bus h m csr).1 in
    let written : Hart = csr_write csr (new_value (csr_read bus h m csr).0 val read clear) h' in
    let written_same =
      either-dcache h.dcache (will_write read src) written h'
        (csr_write-dcache csr _ h' ∙ read_same) read_same in
    updated-OptionKeeps h.dcache (if will_write read src then written else h') _ written_same

pub csr_op-KeepsCache :
    {M : Type 0} (bus : Bus M) (m : M) (csr rd rs1 val : ℕ) (read clear : Bool) (width : ℕ)
    (h : Hart)
    → KeepsCache h.dcache (csr_outcome (csr_op bus m csr rd rs1 val read clear width h) m)
unfolding csr_op take_trap OptionKeeps
csr_op-KeepsCache bus m csr rd rs1 val read clear width h =
    let trapped = trapped-dcache (Trap.exception Exception.illegal_instruction) none h in
    let updated = csr_update-OptionKeeps bus m csr rd rs1 val read clear h in ground arith
