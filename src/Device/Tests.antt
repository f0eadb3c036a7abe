-- ===== src/Device/Tests.antt =====
-- io_port/gpio_legacy_led.c: line 18 of the chip among 1024 lines.
use kernel_examples.Prelude.{◌<◌, ◌≤◌, ◌≡◌, refl, arith, true}
use kernel_examples.Prelude.Int.{pos}
use kernel_examples.Kernel.{nothing, fail}
use kernel_examples.Device.Gpio.{Board, my_init, enodev}
use kernel_examples.Device.Gpio.Laws.{GpioEnds, my_init-GpioEnds}

abbrev board : Board
board = record { gpio_no = pos 18; value = λ line. 0; held = nothing }

my_init-GpioEnds_example :
    (18 < 54 → GpioEnds true true true 988 board (my_init 1024 true true true board))
    × (54 ≤ 18
        → my_init 1024 true true true board ≡ (fail enodev, record board { gpio_no = pos 988 }))
my_init-GpioEnds_example =
    my_init-GpioEnds 1024 18 true true true board (omega arith) (omega arith) refl refl
