-- ===== src/Embedded/Mcu.antt =====
-- .../embeddedops/domain/mcu_catalog.py: the catalog of microcontrollers and the selection from it.
pub mod Least
use networkops_ai_agent.Base.Dict
use networkops_ai_agent.Base.{
  ℕ, ◌≡◌, arith, Eq, eq_by_rank, String, List, ◌∷◌, [], Bool, Option, contains, if◌then◌else◌, true,
  leb, ◌&&◌, ltb, ◌||◌, nat_beq, not, text_le, Result, err, ok, map, filter, some, or_raise, none,
  nat_eq, string_eq,
}
use networkops_ai_agent.Base.Dict.{Dict}

pub data PeripheralBus : Type 0 where
  bus_spi bus_i2c bus_uart bus_can bus_gpio bus_adc : PeripheralBus

abbrev pub bus_rank : PeripheralBus → ℕ
bus_rank bus_spi = 0
bus_rank bus_i2c = 1
bus_rank bus_uart = 2
bus_rank bus_can = 3
bus_rank bus_gpio = 4
bus_rank bus_adc = 5

pub bus_rank_injective : (a b : PeripheralBus) → bus_rank a ≡ bus_rank b → a ≡ b
bus_rank_injective a b h = ground arith

instance abbrev pub bus_eq : Eq PeripheralBus
bus_eq = eq_by_rank bus_rank bus_rank_injective

pub record McuSpec : Type 0 where
  pub family : String
  pub model : String
  pub core_clock_mhz : ℕ
  pub ram_kb : ℕ
  pub flash_kb : ℕ
  pub wireless : List String
  pub interfaces : List PeripheralBus

abbrev plain_buses : List PeripheralBus
plain_buses = bus_spi ∷ bus_i2c ∷ bus_uart ∷ bus_adc ∷ bus_gpio ∷ []

abbrev can_buses : List PeripheralBus
can_buses = bus_spi ∷ bus_i2c ∷ bus_uart ∷ bus_can ∷ bus_adc ∷ bus_gpio ∷ []

abbrev spec_of : String → String → ℕ → ℕ → ℕ → List String → List PeripheralBus → McuSpec
spec_of family model core_clock_mhz ram_kb flash_kb wireless interfaces = record {
  family = family;
  model = model;
  core_clock_mhz = core_clock_mhz;
  ram_kb = ram_kb;
  flash_kb = flash_kb;
  wireless = wireless;
  interfaces = interfaces;
}

-- `_MCU_CATALOG`
unfoldable pub mcu_catalog : List McuSpec
mcu_catalog =
    spec_of "ESP32" "ESP32-S3" 240 512 16384 ("Wi-Fi" ∷ "BLE" ∷ []) plain_buses
    ∷ spec_of "ESP32" "ESP32-WROOM-32" 240 520 4096 ("Wi-Fi" ∷ "BLE" ∷ []) plain_buses
    ∷ spec_of "STM32" "STM32F103C8T6" 72 20 64 [] can_buses
    ∷ spec_of "STM32" "STM32F407VGT6" 168 192 1024 [] can_buses
    ∷ spec_of "Nordic" "nRF52840" 64 256 1024 ("BLE" ∷ []) plain_buses
    ∷ spec_of "RaspberryPi" "RP2040" 133 264 2048 [] plain_buses
    ∷ []

pub record McuRequirements : Type 0 where
  pub needs_wifi : Bool
  pub needs_ble : Bool
  pub needs_can : Bool
  pub min_ram_kb : ℕ
  pub min_clock_mhz : ℕ
  pub preferred_model : Option String

pub data McuError : Type 0 where
  not_in_catalog nothing_suitable : McuError

-- The need that the candidates are chosen by: the first of Wi-Fi, CAN and BLE.
unfoldable pub is_candidate : McuRequirements → McuSpec → Bool
unfolding contains
is_candidate requirements spec =
    if requirements.needs_wifi
    then contains spec.wireless "Wi-Fi"
    else if requirements.needs_can
    then contains spec.interfaces bus_can
    else if requirements.needs_ble
    then contains spec.wireless "BLE"
    else true

unfoldable pub is_suitable : McuRequirements → McuSpec → Bool
is_suitable requirements spec =
    leb requirements.min_ram_kb spec.ram_kb && leb requirements.min_clock_mhz spec.core_clock_mhz

-- Python's order of the tuples of RAM, clock and model.
abbrev pub mcu_lt : McuSpec → McuSpec → Bool
mcu_lt a b =
    ltb a.ram_kb b.ram_kb
    || (nat_beq a.ram_kb b.ram_kb
        && (ltb a.core_clock_mhz b.core_clock_mhz
            || (nat_beq a.core_clock_mhz b.core_clock_mhz && not (text_le b.model a.model))))

-- `min(suitable, key=...)`: the first of the least.
unfoldable pub least : McuSpec → List McuSpec → McuSpec
least best [] = best
least best (spec ∷ specs) = least (if mcu_lt spec best then spec else best) specs

unfoldable pub least_of : List McuSpec → Result McuError McuSpec
unfolding least
least_of [] = err nothing_suitable
least_of (spec ∷ specs) = ok (least spec specs)

-- `MCU_CATALOG`
abbrev by_model : List McuSpec → Dict String McuSpec
by_model specs = map (λ spec. (spec.model, spec)) specs

-- `select_mcu`
unfoldable pub select_mcu : McuRequirements → Result McuError McuSpec
unfolding mcu_catalog is_candidate is_suitable filter least_of Dict.get
select_mcu requirements = elim requirements.preferred_model [
  | some model ↦ or_raise (Dict.get (by_model mcu_catalog) model) not_in_catalog
  | none ↦
      least_of (filter (is_suitable requirements) (filter (is_candidate requirements) mcu_catalog))
]
