-- ===== src/Devices/Uart.antt =====
-- crates/riscv-devices/src/device_bus.rs: the 16550A serial port of the bus.
use tab_linux.Base.{
  ℕ, ◌*◌, ◌^◌, bit_and, bit_or, Bool, true, false, not, ◌&&◌, ◌||◌, List, [], ◌∷◌, ◌++◌, ◌==◌,
  if◌then◌else◌, select,
}

pub record Uart : Type 0 where
  pub mcr : ℕ
  pub scr : ℕ
  pub ier : ℕ
  pub fcr : ℕ
  pub lcr : ℕ
  pub dll : ℕ
  pub dlm : ℕ
  pub rx : List ℕ
  pub console : List ℕ

abbrev pub new_uart : Uart
new_uart = record {
  mcr = 0;
  scr = 0;
  ier = 0;
  fcr = 0;
  lcr = 0;
  dll = 0;
  dlm = 0;
  rx = [];
  console = [];
}

abbrev pub is_empty {ℓ} : {A : Type ℓ} → List A → Bool
is_empty [] = true
is_empty (x ∷ xs) = false

-- Bit 7 of LCR selects the divisor latch.
abbrev pub dlab : Uart → Bool
dlab u = not (bit_and u.lcr 0x80 == 0)

-- The two causes of an interrupt that the port has.
abbrev pub rdi : Uart → Bool
rdi u = not (bit_and u.ier 0x01 == 0) && not (is_empty u.rx)

abbrev pub thri : Uart → Bool
thri u = not (bit_and u.ier 0x02 == 0)

unfoldable pub uart_irq_level : Uart → Bool
uart_irq_level u = thri u || rdi u

unfoldable pub pop_rx : Uart → ℕ × Uart
pop_rx u = elim u.rx [ [] ↦ (0, u) | c ∷ cs ↦ (c, record u { rx = cs }) ]

-- MSR: the outputs of MCR come back in loopback mode.
unfoldable pub modem_status : Uart → ℕ
modem_status u =
    let outputs : ℕ =
      bit_or (bit_or (bit_and u.mcr 1 * 2 ^ 5) (bit_and u.mcr 2 * 2 ^ 3))
        (bit_or (bit_and u.mcr 4 * 2 ^ 4) (bit_and u.mcr 8 * 2 ^ 4)) in
    if bit_and u.mcr 0x10 == 0 then 0 else outputs

unfoldable pub line_status : Uart → ℕ
line_status u = if is_empty u.rx then 0x60 else 0x61

unfoldable pub uart_read : Uart → (off : ℕ) → ℕ × Uart
uart_read u off =
    select off
      ((0x00, if dlab u then (u.dll, u) else pop_rx u)
        ∷ (0x01, (if dlab u then u.dlm else u.ier, u))
        ∷ (0x02, (if rdi u then 0xC4 else if thri u then 0xC2 else 0xC1, u))
        ∷ (0x03, (u.lcr, u))
        ∷ (0x04, (u.mcr, u))
        ∷ (0x05, (line_status u, u))
        ∷ (0x0A, (line_status u, u))
        ∷ (0x14, (line_status u, u))
        ∷ (0x1C, (line_status u, u))
        ∷ (0x06, (modem_status u, u))
        ∷ (0x07, (u.scr, u))
        ∷ [])
      (0, u)

unfoldable pub uart_write : Uart → (off val : ℕ) → Uart
uart_write u off val =
    select off
      ((
        0x00,
        if dlab u then record u { dll = val } else record u { console = u.console ++ val ∷ [] },
      )
        ∷ (0x01, if dlab u then record u { dlm = val } else record u { ier = val })
        ∷ (0x02, record u { fcr = val })
        ∷ (0x03, record u { lcr = val })
        ∷ (0x04, record u { mcr = val })
        ∷ (0x07, record u { scr = val })
        ∷ [])
      u
