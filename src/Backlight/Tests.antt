-- ===== src/Backlight/Tests.antt =====
-- The light on concrete states.
use nano1g_unicorn_c.Base.{◌≡◌, refl}
use nano1g_unicorn_c.Sample.{idle, dark}
use nano1g_unicorn_c.Backlight.{
  dimmer_start, backlight_intensity, backlight_powered, backlight_level, backlight_mode,
  mode_default,
}

default_is_full : backlight_intensity idle ≡ 255
unfolding backlight_intensity backlight_powered backlight_level
default_is_full = refl

default_mode : backlight_mode idle ≡ mode_default
unfolding backlight_mode
default_mode = refl

first_pulse : (dimmer_start dark 0x08).nano_level ≡ 16
unfolding dimmer_start
first_pulse = refl
