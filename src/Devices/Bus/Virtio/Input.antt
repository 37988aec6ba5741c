-- ===== src/Devices/Bus/Virtio/Input.antt =====
-- From a byte of input to the external interrupt of the hart.
use tab_linux.Base.{
  ℕ, zero, suc, ◌<◌, bit_and, ◌≡◌, refl, sym, ap, ◌∙◌, ◌≢◌, Bool, true, false, Option, none, some,
  List, [], ◌∷◌, ◌++◌, arith,
}
use tab_linux.Devices.Bus.{uart_irq, DeviceBus}
use tab_linux.Devices.Bus.Virtio.{
  refresh_uart_irq, refresh_virtio_irqs, external_interrupt_pending, refresh_from, sync_line,
  uart_push_input,
}
use tab_linux.Devices.Plic.Service.{IsSound, PlicOp, plic_step, plic_step-IsSound}
use tab_linux.Devices.Plic.Lines.{
  IsReady-SameSetup, any_pending-set_level, IsReady, SameSetup, SameSetup-refl, SameSetup-trans,
  set_level-SameSetup,
}
use tab_linux.Devices.Plic.{plic_nctx, set_level}
use tab_linux.Supervisor.Hart.Privileged.Returns.{context}
use tab_linux.Devices.Virtio.{VirtioMmio, irq_level}
use tab_linux.Devices.Uart.{Uart, is_empty, uart_irq_level}

append_nonempty : (xs : List ℕ) (y : ℕ) (ys : List ℕ) → is_empty (xs ++ y ∷ ys) ≡ false
append_nonempty [] y ys = refl
append_nonempty (x ∷ xs) y ys = refl

-- With bytes to read and the interrupt enabled the line is asserted.
received_level :
    (first : ℕ) (rest : List ℕ) (u : Uart)
    → bit_and u.ier 1 ≢ 0
    → uart_irq_level (record u { rx = u.rx ++ first ∷ rest }) ≡ true
unfolding uart_irq_level
received_level first rest u armed = ground (arith, armed, append_nonempty u.rx first rest)

module _ {D : Type 0} where
  -- Refreshing the lines keeps the controller sound, what the guest has set up, and the serial port.
  pub record Refreshed (bus bus' : DeviceBus D) : Type 0 where
    pub sound : IsSound bus.plic → IsSound bus'.plic
    pub setup : SameSetup bus.plic bus'.plic
    pub port : bus.uart ≡ bus'.uart

  Refreshed-refl : (bus : DeviceBus D) → Refreshed bus bus
  Refreshed-refl bus = record { sound = λ h. h; setup = SameSetup-refl bus.plic; port = refl }

  Refreshed-trans : (a b c : DeviceBus D) → Refreshed a b → Refreshed b c → Refreshed a c
  Refreshed-trans a b c h k = record {
    sound = λ s. k.sound (h.sound s);
    setup = SameSetup-trans a.plic b.plic c.plic h.setup k.setup;
    port = h.port ∙ k.port;
  }

  -- One line.
  line-Refreshed :
      (irq : ℕ) (level : Bool) (bus : DeviceBus D)
      → Refreshed bus (record bus { plic = set_level bus.plic irq level })
  unfolding plic_step
  line-Refreshed irq level bus = record {
    sound = λ h. plic_step-IsSound (PlicOp.line irq level) bus.plic h;
    setup = set_level-SameSetup bus.plic irq level;
    port = refl;
  }

  refresh_slot-Refreshed :
      (slot : ℕ) (bus : DeviceBus D) (held : Option (VirtioMmio D))
      → Refreshed bus (elim held [ none ↦ bus | some dev ↦ sync_line dev bus ])
  unfolding sync_line
  refresh_slot-Refreshed slot bus none = Refreshed-refl bus
  refresh_slot-Refreshed slot bus (some dev) = line-Refreshed dev.irq (irq_level dev) bus

  refresh_from-Refreshed :
      (count i : ℕ) (bus : DeviceBus D) → Refreshed bus (refresh_from count i bus)
  unfolding refresh_from
  refresh_from-Refreshed zero i bus = Refreshed-refl bus
  refresh_from-Refreshed (suc count) i bus =
      let next_bus : DeviceBus D = elim (bus.virtio i) [
        | none ↦ bus
        | some dev ↦ sync_line dev bus
      ] in
      Refreshed-trans bus next_bus (refresh_from count (suc i) next_bus)
        (refresh_slot-Refreshed i bus (bus.virtio i))
        (refresh_from-Refreshed count (suc i) next_bus)

  -- Input to the serial port is pending as an external interrupt, whatever the virtio slots hold, if the
  -- port has its interrupt for received data enabled, the interrupt controller is sound, and the source of
  -- the port is not in service, is enabled for a context and has a priority above its threshold.
  pub external_interrupt_pending-uart_push_input :
      (first : ℕ) (rest : List ℕ) (bus : DeviceBus D) (ctx : ℕ)
      → IsSound bus.plic
      → ctx < plic_nctx
      → bit_and bus.uart.ier 1 ≢ 0
      → IsReady bus.plic ctx uart_irq
      → (external_interrupt_pending (uart_push_input (first ∷ rest) bus)).0 ≡ true
  unfolding external_interrupt_pending uart_push_input refresh_uart_irq refresh_virtio_irqs
  external_interrupt_pending-uart_push_input first rest bus ctx h context armed ready =
      let received : DeviceBus D = record bus {
        uart = record bus.uart { rx = bus.uart.rx ++ first ∷ rest };
      } in
      let noted : DeviceBus D = refresh_uart_irq received in
      let refreshed : DeviceBus D = refresh_virtio_irqs noted in
      let same_bus : Refreshed received refreshed =
        Refreshed-trans received noted refreshed
          (line-Refreshed uart_irq (uart_irq_level received.uart) received)
          (refresh_from-Refreshed noted.virtio_n 0 noted) in
      let level : uart_irq_level refreshed.uart ≡ true =
        ap uart_irq_level (sym same_bus.port) ∙ received_level first rest bus.uart armed in
      rw level (
        any_pending-set_level refreshed.plic ctx uart_irq (same_bus.sound h) (ground arith)
          (omega arith) context
          (IsReady-SameSetup bus.plic refreshed.plic ctx uart_irq same_bus.setup ready))
