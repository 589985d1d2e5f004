-- ===== src/Idt/Controller.antt =====
-- What the two interrupt controllers make of the writes to them.
use pros.Prelude.{
  ℕ, ◌+◌, ◌-◌, ◌*◌, ◌/◌, ◌%◌, ◌^◌, ◌<◌, ◌≡◌, arith, List, [], ◌∷◌, ◌==◌, leb, ltb, ◌&&◌,
  if◌then◌else◌, Option, none, some,
}
use pros.Port.{Output}
use pros.Idt.{remap, handle_interrupt, master_command, master_data, slave_command, slave_data}

-- An 8259 controller: the initialisation word that it expects next (0 when it is initialised), the
-- words of its initialisation (the number of its first interrupt, the lines between the two controllers,
-- and the mode), its mask, and how many interrupts it has been told are handled.
pub record Controller : Type 0 where
  pub expects : ℕ
  pub offset : ℕ
  pub wiring : ℕ
  pub mode : ℕ
  pub mask : ℕ
  pub handled : ℕ

-- A command of 0x11 starts the initialisation by four words, and 0x20 ends an interrupt.
abbrev pub command : Controller → ℕ → Controller
command c v =
    if v == 0x11
    then record c { expects = 2 }
    else if v == 0x20
    then record c { handled = c.handled + 1 }
    else c

-- The words that follow; a word at any other time is the mask.
abbrev pub accept : Controller → ℕ → Controller
accept c v =
    if c.expects == 2
    then record c { expects = 3; offset = v }
    else if c.expects == 3
    then record c { expects = 4; wiring = v }
    else if c.expects == 4
    then record c { expects = 0; mode = v }
    else record c { mask = v }

-- The interrupt number that a controller in the mode for this processor gives to one of its lines.
abbrev pub vector : Controller → (line : ℕ) → Option ℕ
vector c line =
    if (c.expects == 0) && (c.mode == 1) && (c.mask / 2 ^ line % 2 == 0)
    then some (c.offset / 8 * 8 + line)
    else none

-- What the processor gets for a request on one of the 16 lines of the pair: the slave's eight arrive at
-- the master's line that both have been told of, which takes no other request.
abbrev pub deliver : (master slave : Controller) (irq : ℕ) → Option ℕ
deliver master slave irq =
    if ltb irq 8
    then (if irq == slave.wiring then none else vector master irq)
    else if (master.wiring == 2 ^ slave.wiring) && (master.mask / 2 ^ slave.wiring % 2 == 0)
    then vector slave (irq - 8)
    else none

-- A run of writes, seen by the controller with these two ports.
unfoldable pub run : (command_port data_port : ℕ) → Controller → List Output → Controller
run command_port data_port c [] = c
run command_port data_port c (o ∷ os) =
    run command_port data_port
      (if o.port == command_port
        then command c o.value
        else if o.port == data_port
        then accept c o.value
        else c)
      os

zero_bits : (n : ℕ) → 0 / 2 ^ n % 2 ≡ 0
zero_bits n = omega arith

-- Whatever state the controllers are in, the constructor's writes initialise both, and wire and number
-- them so that the processor gets the interrupt 32 + n for a request on any of the 16 lines n, other
-- than line 2, which connects the controllers.
pub remap-vectors :
    (master slave : Controller) (irq : ℕ)
    → irq < 16
    → deliver
        (run master_command master_data master remap)
        (run slave_command slave_data slave remap)
        irq
      ≡ (if irq == 2 then none else some (32 + irq))
unfolding run remap
remap-vectors master slave irq h = ground (arith, zero_bits irq, zero_bits (irq - 8))

-- `handleInterrupt` tells the master that the interrupt is handled, and the slave exactly when the
-- interrupt's number is one of its own or higher.
pub handle_interrupt-handled :
    (master slave : Controller) (interrupt : ℕ)
    → ((run master_command master_data master (handle_interrupt interrupt)).handled
        ≡ master.handled + 1)
      × ((run slave_command slave_data slave (handle_interrupt interrupt)).handled
          ≡ slave.handled + (if leb 40 interrupt then 1 else 0))
unfolding run handle_interrupt
handle_interrupt-handled master slave interrupt = ground arith
