-- ===== src/Bootloader/Layouts.antt =====
-- The layouts that register_bitfields gives in bootloader/src/interfaces/pl011.rs and
-- bootloader/src/interfaces/rp1/rp1_gpio.rs: the fields of each, in the order of the source.
pub mod Apart
use rpi5_baremetal.Base.{ℕ, List, [], ◌∷◌}

pub record Field : Type 0 where
  pub offset : ℕ
  pub numbits : ℕ

abbrev pub field : ℕ → ℕ → Field
field o n = record { offset = o; numbits = n }

abbrev pub uartdr : List Field
uartdr = field 0 8 ∷ field 8 1 ∷ field 9 1 ∷ field 10 1 ∷ field 11 1 ∷ []

abbrev pub uartfr : List Field
uartfr =
    field 0 1
    ∷ field 1 1
    ∷ field 2 1
    ∷ field 3 1
    ∷ field 4 1
    ∷ field 5 1
    ∷ field 6 1
    ∷ field 7 1
    ∷ field 8 1
    ∷ []

abbrev pub uartlcr : List Field
uartlcr = field 0 1 ∷ field 1 1 ∷ field 2 1 ∷ field 3 1 ∷ field 4 1 ∷ field 5 2 ∷ field 7 1 ∷ []

abbrev pub uartcr : List Field
uartcr =
    field 0 1
    ∷ field 1 1
    ∷ field 2 1
    ∷ field 7 1
    ∷ field 8 1
    ∷ field 9 1
    ∷ field 10 1
    ∷ field 11 1
    ∷ field 12 1
    ∷ field 13 1
    ∷ field 14 1
    ∷ field 15 1
    ∷ []

-- `ALL`, which has the bits of the eleven others, is the last one.
abbrev pub uarticr : List Field
uarticr =
    field 0 1
    ∷ field 1 1
    ∷ field 2 1
    ∷ field 3 1
    ∷ field 4 1
    ∷ field 5 1
    ∷ field 6 1
    ∷ field 7 1
    ∷ field 8 1
    ∷ field 9 1
    ∷ field 10 1
    ∷ field 0 11
    ∷ []

abbrev pub gpio_status : List Field
gpio_status =
    field 8 1
    ∷ field 9 1
    ∷ field 12 1
    ∷ field 13 1
    ∷ field 16 1
    ∷ field 17 1
    ∷ field 18 1
    ∷ field 19 1
    ∷ field 20 1
    ∷ field 21 1
    ∷ field 22 1
    ∷ field 23 1
    ∷ field 24 1
    ∷ field 25 1
    ∷ field 26 1
    ∷ field 27 1
    ∷ field 28 1
    ∷ field 29 1
    ∷ []

abbrev pub gpio_ctrl : List Field
gpio_ctrl =
    field 0 5
    ∷ field 5 7
    ∷ field 12 2
    ∷ field 14 2
    ∷ field 16 2
    ∷ field 20 1
    ∷ field 21 1
    ∷ field 22 1
    ∷ field 23 1
    ∷ field 24 1
    ∷ field 25 1
    ∷ field 26 1
    ∷ field 27 1
    ∷ field 28 1
    ∷ field 30 2
    ∷ []

abbrev pub int : List Field
int =
    field 0 2
    ∷ field 1 1
    ∷ field 2 1
    ∷ field 3 1
    ∷ field 4 1
    ∷ field 5 1
    ∷ field 6 1
    ∷ field 7 1
    ∷ field 8 1
    ∷ field 9 1
    ∷ field 10 1
    ∷ field 11 1
    ∷ field 12 1
    ∷ field 13 1
    ∷ field 14 1
    ∷ field 15 1
    ∷ field 16 1
    ∷ field 17 1
    ∷ field 18 1
    ∷ field 19 1
    ∷ field 20 1
    ∷ field 21 1
    ∷ field 22 1
    ∷ field 23 1
    ∷ field 24 1
    ∷ field 25 1
    ∷ field 26 1
    ∷ field 27 1
    ∷ []

abbrev pub voltage_select : List Field
voltage_select = field 0 1 ∷ []

abbrev pub gpio : List Field
gpio = field 0 1 ∷ field 1 1 ∷ field 2 1 ∷ field 3 1 ∷ field 4 2 ∷ field 6 1 ∷ field 7 1 ∷ []

pub data Register : Type 0 where
  of_uartdr : Register
  of_uartfr : Register
  of_uartlcr : Register
  of_uartcr : Register
  of_uarticr : Register
  of_gpio_status : Register
  of_gpio_ctrl : Register
  of_int : Register
  of_voltage_select : Register
  of_gpio : Register

abbrev pub layout : Register → List Field
layout of_uartdr = uartdr
layout of_uartfr = uartfr
layout of_uartlcr = uartlcr
layout of_uartcr = uartcr
layout of_uarticr = uarticr
layout of_gpio_status = gpio_status
layout of_gpio_ctrl = gpio_ctrl
layout of_int = int
layout of_voltage_select = voltage_select
layout of_gpio = gpio
