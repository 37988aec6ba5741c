-- ===== src/Supervisor/Hart/Privileged/Access.antt =====
-- What an instruction on a control and status register can do, interpreted and in compiled code.
use tab_linux.Base.{
  ℕ, ◌≡◌, refl, sym, ap, ◌∙◌, Bool, true, false, not, ◌&&◌, ◌||◌, Option, none, some,
  some-injective, arith, ltb, ◌==◌, if◌then◌else◌, ◌>>=◌, field,
}
use tab_linux.Supervisor.Hart.Csr.{priv_code, csr_read, csr_write, write_fcsr}
use tab_linux.Cpu.Arms.{advance}
use tab_linux.Supervisor.Hart.{Hart}
use tab_linux.Supervisor.{MStatus, Privilege, Satp}
use tab_linux.Supervisor.Hart.Traps.{take_trap}
use tab_linux.Isa.{Exception, Status, Trap}
use tab_linux.Supervisor.Mmu.{is_supervisor, Mmu}
use tab_linux.Supervisor.Hart.Privileged.{
  new_value, will_write, csr_refused, csr_update, csr_jit, csr_op,
}
use tab_linux.Cpu.{Cpu, write_reg, Bus}

abbrev illegal : Hart → Status × Hart
illegal h = take_trap (Trap.exception Exception.illegal_instruction) h

-- What the interpreter makes of an answer of `csr_jit`.
abbrev pub resume_interpreter : ℕ → Option (Bool × Hart) → Option (Status × Hart)
resume_interpreter width none = none
resume_interpreter width (some (true, h)) = some (illegal h)
resume_interpreter width (some (false, h)) =
    some (Status.running, record h { cpu = advance width h.cpu })

resume_updated :
    (width : ℕ) (h : Hart) (refused : Bool) (updated : Option Hart)
    → (if refused
        then some (illegal h)
        else updated >>= λ h'. some (Status.running, record h' { cpu = advance width h'.cpu }))
      ≡ resume_interpreter width
          (if refused then some (true, h) else updated >>= λ h'. some (false, h'))
resume_updated width h true updated = refl
resume_updated width h false none = refl
resume_updated width h false (some h') = refl

abbrev jit_answer : Bool → Hart → Option Hart → Option (Bool × Hart)
jit_answer refused h updated =
    if refused then some (true, h) else updated >>= λ h'. some (false, h')

-- The tests one after the other, and the answer that is made at once.
answered_first :
    (a b c : Bool) (h w : Hart) (cpu : Option Cpu)
    → (if a
        then some (true, h)
        else if b
        then some (true, h)
        else if c
        then some (true, h)
        else cpu >>= λ c'. some (false, record w { cpu = c' }))
      ≡ jit_answer (a || b || c) h (cpu >>= λ c'. some (record w { cpu = c' }))
answered_first true b c h w cpu = refl
answered_first false true c h w cpu = refl
answered_first false false true h w cpu = refl
answered_first false false false h w none = refl
answered_first false false false h w (some c') = refl

bailed :
    (h h' : Hart) (refused : Bool) (updated : Option Hart)
    → jit_answer refused h updated ≡ some (true, h')
    → h' ≡ h
bailed h h' true updated e = cc
bailed h h' false none e = ground arith
bailed h h' false (some u) e = ground arith

module _ {M : Type 0} (bus : Bus M) where
  csr_jit-answer :
      (m : M) (csr rd src val kind : ℕ) (h : Hart)
      → csr_jit bus m csr rd src val kind h
        ≡ jit_answer
            (csr_refused csr src (not (kind == 0)) h)
            h
            (csr_update bus m csr rd src val (not (kind == 0)) (kind == 2) h)
  unfolding csr_jit csr_refused csr_update
  csr_jit-answer m csr rd src val kind h =
      let h₁ : Hart = (csr_read bus h m csr).1 in
      let written : Hart =
        if will_write (not (kind == 0)) src
        then csr_write csr (new_value (csr_read bus h m csr).0 val (not (kind == 0)) (kind == 2)) h₁
        else h₁ in
      answered_first (ltb (priv_code h.priv_level) (field csr 8 2))
        (csr == 0x180 && is_supervisor h.priv_level && h.mstatus.tvm)
        (will_write (not (kind == 0)) src && field csr 10 2 == 3) h written
        (write_reg written.cpu rd (csr_read bus h m csr).0)

  -- The interpreter does what compiled code does by csr_jit and then moves the PC over the instruction;
  -- where csr_jit answers true, the interpreter takes an illegal-instruction trap from the hart that
  -- csr_jit left, and where either panics, so does the other.
  pub csr_op-csr_jit :
      (m : M) (csr rd src val kind width : ℕ) (h : Hart)
      → csr_op bus m csr rd src val (not (kind == 0)) (kind == 2) width h
        ≡ resume_interpreter width (csr_jit bus m csr rd src val kind h)
  unfolding csr_op
  csr_op-csr_jit m csr rd src val kind width h =
      resume_updated width h (csr_refused csr src (not (kind == 0)) h)
        (csr_update bus m csr rd src val (not (kind == 0)) (kind == 2) h)
      ∙ ap (resume_interpreter width) (sym (csr_jit-answer m csr rd src val kind h))

  -- csr_jit that answers true has changed nothing.
  pub csr_jit-true :
      (m : M) (csr rd src val kind : ℕ) (h h' : Hart)
      → csr_jit bus m csr rd src val kind h ≡ some (true, h')
      → h' ≡ h
  csr_jit-true m csr rd src val kind h h' e =
      bailed h h' _ _ (sym (csr_jit-answer m csr rd src val kind h) ∙ e)

-- The registers of the supervisor and of the machine, but FS of mstatus.
abbrev pub System : Type 0
System =
    Privilege
    × ℕ
    × ℕ
    × ℕ
    × ℕ
    × ℕ
    × ℕ
    × ℕ
    × ℕ
    × ℕ
    × ℕ
    × ℕ
    × ℕ
    × Satp
    × Mmu
    × MStatus
    × ℕ
    × ℕ
    × ℕ
    × ℕ
    × ℕ
    × ℕ
    × ℕ
    × (ℕ → ℕ)
    × (ℕ → ℕ)

abbrev pub system : Hart → System
system h = (
  h.priv_level,
  h.mie,
  h.mip,
  h.mtvec,
  h.mepc,
  h.medeleg,
  h.mideleg,
  h.mscratch,
  h.stvec,
  h.sepc,
  h.sscratch,
  h.stimecmp,
  h.trans_gen,
  h.satp,
  h.mmu,
  record h.mstatus { fs = 0 },
  h.mcause,
  h.mtval,
  h.scause,
  h.stval,
  h.mhartid,
  h.mcycle,
  h.minstret,
  h.pmpcfg,
  h.pmpaddr,
)

csr_write-system :
    (csr val : ℕ) (h : Hart) → field csr 8 2 ≡ 0 → system (csr_write csr val h) ≡ system h
unfolding csr_write write_fcsr
csr_write-system csr val h unprivileged = ground arith

csr_read-system :
    {M : Type 0} (bus : Bus M) (h : Hart) (m : M) (csr : ℕ)
    → system (csr_read bus h m csr).1 ≡ system h
unfolding csr_read
csr_read-system bus h m csr = ground arith

with_cpu-system :
    (w h' : Hart) (c : Option Cpu)
    → (c >>= λ cpu. some (record w { cpu = cpu })) ≡ some h'
    → system h' ≡ system w
with_cpu-system w h' none e = ground arith
with_cpu-system w h' (some c) e = ap system (sym (some-injective _ _ e))

either-system :
    (b : Bool) (x y h : Hart)
    → system x ≡ system h
    → system y ≡ system h
    → system (if b then x else y) ≡ system h
either-system true x y h p q = p
either-system false x y h p q = q

csr_update-system :
    {M : Type 0} (bus : Bus M) (m : M) (csr rd src val : ℕ) (read clear : Bool) (h h' : Hart)
    → field csr 8 2 ≡ 0
    → csr_update bus m csr rd src val read clear h ≡ some h'
    → system h' ≡ system h
unfolding csr_update write_reg
csr_update-system bus m csr rd src val read clear h h' unprivileged e =
    with_cpu-system written h' _ e
    ∙ either-system (will_write read src) _ read_h h
        (csr_write-system csr _ read_h unprivileged ∙ csr_read-system bus h m csr)
        (csr_read-system bus h m csr)
  where
    read_h : Hart
    read_h = (csr_read bus h m csr).1

    written : Hart
    written =
        if will_write read src
        then csr_write csr (new_value (csr_read bus h m csr).0 val read clear) read_h
        else read_h

answered-system :
    (refused : Bool) (h h' : Hart) (updated : Option Hart) (bail : Bool)
    → ((u : Hart) → refused ≡ false → updated ≡ some u → system u ≡ system h)
    → jit_answer refused h updated ≡ some (bail, h')
    → system h' ≡ system h
answered-system true h h' updated bail keeps e = ap (λ a. system a.1) (sym (some-injective _ _ e))
answered-system false h h' none bail keeps e = ground arith
answered-system false h h' (some u) bail keeps e =
    ap (λ a. system a.1) (sym (some-injective _ _ e)) ∙ keeps u refl refl

user_csr :
    (csr src : ℕ) (read : Bool) (h : Hart)
    → h.priv_level ≡ Privilege.user
    → csr_refused csr src read h ≡ false
    → field csr 8 2 ≡ 0
unfolding csr_refused
user_csr csr src read h user allowed =
    let code : priv_code h.priv_level ≡ 0 = ap priv_code user in ground arith

pub csr_jit-user :
    {M : Type 0} (bus : Bus M) (m : M) (csr rd src val kind : ℕ) (bail : Bool) (h h' : Hart)
    → h.priv_level ≡ Privilege.user
    → csr_jit bus m csr rd src val kind h ≡ some (bail, h')
    → system h' ≡ system h
csr_jit-user bus m csr rd src val kind bail h h' user e =
    answered-system (csr_refused csr src (not (kind == 0)) h) h h' _ bail
      (λ u allowed updated.
        csr_update-system bus m csr rd src val _ _ h u
          (user_csr csr src (not (kind == 0)) h user allowed) updated)
      (sym (csr_jit-answer bus m csr rd src val kind h) ∙ e)
