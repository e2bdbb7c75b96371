-- ===== src/Gpio/Tests.antt =====
-- The ports at concrete states.
use nano1g_unicorn_c.Base.{◌≡◌, true, refl}
use nano1g_unicorn_c.Sample.{idle}
use nano1g_unicorn_c.Gpio.{gpio_write, gpio_input_value, group_pending, port_pending}
use nano1g_unicorn_c.Gpio.Pending.{ShowsPins, gpio_write-ShowsPins}

idle-ShowsPins : ShowsPins idle
unfolding group_pending port_pending
idle-ShowsPins = (refl, refl)

gpio_write-ShowsPins_example : ShowsPins (gpio_write idle 0x50 4 0xff)
gpio_write-ShowsPins_example = gpio_write-ShowsPins idle 0x50 4 0xff idle-ShowsPins

hold_is_low : gpio_input_value (record idle.opts { hold_switch_engaged = true }) 0x030 ≡ 0xffffffdf
unfolding gpio_input_value
hold_is_low = refl
