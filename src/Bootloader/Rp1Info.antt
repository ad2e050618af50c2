-- ===== src/Bootloader/Rp1Info.antt =====
-- bootloader/src/interfaces/rp1/rp1_info.rs: the peripheral blocks of the RP1, and where they are.
pub mod Windows
use rpi5_baremetal.Base.{ℕ, Bool, true, false, List, [], ◌∷◌}

pub data Rp1Block : Type 0 where
  sysinfo syscfg otp power resets clocks_main : Rp1Block
  clocks_video pll_sys pll_audio pll_video uart0 uart1 : Rp1Block
  uart2 uart3 uart4 uart5 spi8 spi0 : Rp1Block
  spi1 spi2 spi3 spi4 spi5 spi6 : Rp1Block
  spi7 i2c0 i2c1 i2c2 i2c3 i2c4 : Rp1Block
  i2c5 i2c6 audio_in audio_out pwm0 pwm1 : Rp1Block
  i2s0 i2s1 i2s2 timer sdio0_cfg sdio1_cfg : Rp1Block
  busfabric_monitor busfabric_axishim adc io_bank0 io_bank1 io_bank2 : Rp1Block
  sys_rio0 sys_rio1 sys_rio2 pads_bank0 pads_bank1 pads_bank2 : Rp1Block
  pads_eth eth eth_cfg pcie mipi0_csidma mipi0_csihost : Rp1Block
  mipi0_dsidma mipi0_dsihost mipi0_cfg mipi0_isp mipi1_csidma mipi1_csihost : Rp1Block
  mipi1_dsidma mipi1_dsihost mipi1_cfg mipi1_isp video_out_cfg video_out_vec : Rp1Block
  video_out_dpi xosc watchdog dma_tick usbhost0_cfg usbhost1_cfg : Rp1Block
  rosc0 rosc1 vbusctrl ticks pio sdio0 : Rp1Block
  sdio1 dma usbhost0 usbhost1 exac : Rp1Block

pub data BusType : Type 0 where
  apb : BusType  -- Advanced Peripheral Bus
  ahb : BusType  -- Advanced High-performance Bus
  axi3 : BusType  -- Advanced eXtensible Interface

pub record Rp1PeripheralInfo : Type 0 where
  pub bus_type : BusType
  pub atomic_access : Bool
  pub address : ℕ

abbrev info : BusType → Bool → ℕ → Rp1PeripheralInfo
info bus atomic address = record { bus_type = bus; atomic_access = atomic; address = address }

unfoldable pub get_block_address : Rp1Block → Rp1PeripheralInfo
get_block_address sysinfo = info apb true 0x4000_0000
get_block_address syscfg = info apb true 0x4000_8000
get_block_address otp = info apb true 0x4000_c000
get_block_address power = info apb true 0x4001_0000
get_block_address resets = info apb true 0x4001_4000
get_block_address clocks_main = info apb true 0x4001_8000
get_block_address clocks_video = info apb true 0x4001_c000
get_block_address pll_sys = info apb true 0x4002_0000
get_block_address pll_audio = info apb true 0x4002_4000
get_block_address pll_video = info apb true 0x4002_8000
get_block_address uart0 = info apb false 0x4003_0000
get_block_address uart1 = info apb false 0x4003_4000
get_block_address uart2 = info apb false 0x4003_8000
get_block_address uart3 = info apb false 0x4003_c000
get_block_address uart4 = info apb false 0x4004_0000
get_block_address uart5 = info apb false 0x4004_4000
get_block_address spi8 = info apb false 0x4004_c000
get_block_address spi0 = info apb false 0x4005_0000
get_block_address spi1 = info apb false 0x4005_4000
get_block_address spi2 = info apb false 0x4005_8000
get_block_address spi3 = info apb false 0x4005_c000
get_block_address spi4 = info apb false 0x4006_0000
get_block_address spi5 = info apb false 0x4006_4000
get_block_address spi6 = info apb false 0x4006_8000
get_block_address spi7 = info apb false 0x4006_c000
get_block_address i2c0 = info apb false 0x4007_0000
get_block_address i2c1 = info apb false 0x4007_4000
get_block_address i2c2 = info apb false 0x4007_8000
get_block_address i2c3 = info apb false 0x4007_c000
get_block_address i2c4 = info apb false 0x4008_0000
get_block_address i2c5 = info apb false 0x4008_4000
get_block_address i2c6 = info apb false 0x4008_8000
get_block_address audio_in = info apb true 0x4009_0000
get_block_address audio_out = info apb true 0x4009_4000
get_block_address pwm0 = info apb true 0x4009_8000
get_block_address pwm1 = info apb true 0x4009_c000
get_block_address i2s0 = info apb false 0x400a_0000
get_block_address i2s1 = info apb false 0x400a_4000
get_block_address i2s2 = info apb false 0x400a_8000
get_block_address timer = info apb true 0x400a_c000
get_block_address sdio0_cfg = info apb true 0x400b_0000
get_block_address sdio1_cfg = info apb true 0x400b_4000
get_block_address busfabric_monitor = info apb true 0x400c_0000
get_block_address busfabric_axishim = info apb true 0x400c_4000
get_block_address adc = info apb true 0x400c_8000
get_block_address io_bank0 = info apb true 0x400d_0000
get_block_address io_bank1 = info apb true 0x400d_4000
get_block_address io_bank2 = info apb true 0x400d_8000
get_block_address sys_rio0 = info apb true 0x400e_0000
get_block_address sys_rio1 = info apb true 0x400e_4000
get_block_address sys_rio2 = info apb true 0x400e_8000
get_block_address pads_bank0 = info apb true 0x400f_0000
get_block_address pads_bank1 = info apb true 0x400f_4000
get_block_address pads_bank2 = info apb true 0x400f_8000
get_block_address pads_eth = info apb true 0x400f_c000
get_block_address eth = info apb false 0x4010_0000
get_block_address eth_cfg = info apb true 0x4010_4000
get_block_address pcie = info apb true 0x4010_8000
get_block_address mipi0_csidma = info apb false 0x4011_0000
get_block_address mipi0_csihost = info apb false 0x4011_4000
get_block_address mipi0_dsidma = info apb false 0x4011_8000
get_block_address mipi0_dsihost = info apb false 0x4011_c000
get_block_address mipi0_cfg = info apb true 0x4012_0000
get_block_address mipi0_isp = info apb false 0x4012_4000
get_block_address mipi1_csidma = info apb false 0x4012_8000
get_block_address mipi1_csihost = info apb false 0x4012_c000
get_block_address mipi1_dsidma = info apb false 0x4013_0000
get_block_address mipi1_dsihost = info apb false 0x4013_4000
get_block_address mipi1_cfg = info apb true 0x4013_8000
get_block_address mipi1_isp = info apb false 0x4013_c000
get_block_address video_out_cfg = info apb true 0x4014_0000
get_block_address video_out_vec = info apb true 0x4014_4000
get_block_address video_out_dpi = info apb true 0x4014_8000
get_block_address xosc = info apb true 0x4015_0000
get_block_address watchdog = info apb true 0x4015_4000
get_block_address dma_tick = info apb true 0x4015_8000
get_block_address usbhost0_cfg = info apb true 0x4016_0000
get_block_address usbhost1_cfg = info apb true 0x4016_4000
get_block_address rosc0 = info apb true 0x4016_8000
get_block_address rosc1 = info apb true 0x4016_c000
get_block_address vbusctrl = info apb true 0x4017_0000
get_block_address ticks = info apb true 0x4017_4000
get_block_address pio = info apb true 0x4017_8000
get_block_address sdio0 = info ahb false 0x4018_0000
get_block_address sdio1 = info ahb false 0x4018_4000
get_block_address dma = info ahb false 0x4018_8000
get_block_address usbhost0 = info axi3 false 0x4020_0000
get_block_address usbhost1 = info axi3 false 0x4030_0000
get_block_address exac = info axi3 false 0x4040_0000

-- Every block, in the order of the `enum`.
abbrev pub all_blocks : List Rp1Block
all_blocks =
    sysinfo ∷ syscfg ∷ otp ∷ power ∷ resets ∷ clocks_main ∷ clocks_video ∷ pll_sys ∷ pll_audio
    ∷ pll_video ∷ uart0 ∷ uart1 ∷ uart2 ∷ uart3 ∷ uart4 ∷ uart5 ∷ spi8 ∷ spi0 ∷ spi1 ∷ spi2 ∷ spi3
    ∷ spi4 ∷ spi5 ∷ spi6 ∷ spi7 ∷ i2c0 ∷ i2c1 ∷ i2c2 ∷ i2c3 ∷ i2c4 ∷ i2c5 ∷ i2c6 ∷ audio_in
    ∷ audio_out ∷ pwm0 ∷ pwm1 ∷ i2s0 ∷ i2s1 ∷ i2s2 ∷ timer ∷ sdio0_cfg ∷ sdio1_cfg
    ∷ busfabric_monitor ∷ busfabric_axishim ∷ adc ∷ io_bank0 ∷ io_bank1 ∷ io_bank2 ∷ sys_rio0
    ∷ sys_rio1 ∷ sys_rio2 ∷ pads_bank0 ∷ pads_bank1 ∷ pads_bank2 ∷ pads_eth ∷ eth ∷ eth_cfg ∷ pcie
    ∷ mipi0_csidma ∷ mipi0_csihost ∷ mipi0_dsidma ∷ mipi0_dsihost ∷ mipi0_cfg ∷ mipi0_isp
    ∷ mipi1_csidma ∷ mipi1_csihost ∷ mipi1_dsidma ∷ mipi1_dsihost ∷ mipi1_cfg ∷ mipi1_isp
    ∷ video_out_cfg ∷ video_out_vec ∷ video_out_dpi ∷ xosc ∷ watchdog ∷ dma_tick ∷ usbhost0_cfg
    ∷ usbhost1_cfg ∷ rosc0 ∷ rosc1 ∷ vbusctrl ∷ ticks ∷ pio ∷ sdio0 ∷ sdio1 ∷ dma ∷ usbhost0
    ∷ usbhost1 ∷ exac ∷ []
