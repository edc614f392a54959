-- ===== src/Tests.antt =====
-- Tests: the theorems at concrete inputs.
mod Options
mod Keyboard
mod Screen
mod Vga
mod Opening
mod Driver
mod Front
mod OpenVanilla
mod SunPinyin
mod Fonts
