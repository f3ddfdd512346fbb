-- ===== src/Bridge/Battery/Measured.antt =====
-- When a battery is reported from the status of the device.
use uniubi_ros.Prelude.{true, false, some, ◌≡◌, ◌↔◌, ◌⊎◌, refl, sym, arith, String}
use uniubi_ros.Json.{Json}
use uniubi_ros.Client.{returned}
use uniubi_ros.Bridge.Battery.{
  Floats, BatteryState, is_online, is_measured, is_plausible, optional_number, battery_of,
  read_battery, battery_from_system_status,
}

module _ {V N : Type 0} (json : Json V) (floats : Floats V N) where
  open json use {is_null, is_object, is_bool, is_numeric, is_member, member, as_bool}
  open floats use {as_float, nan, zero_value, hundred, is_finite, less, divide}

  -- An optional measurement: the number of the document where that is one and finite, else NaN.
  abbrev pub Optional : V → String → N → Type 0
  Optional battery name x =
      ((is_numeric (member battery name) ≡ true)
        × (is_finite (as_float (member battery name)) ≡ true)
        × (x ≡ as_float (member battery name)))
      ⊎ (((is_numeric (member battery name) ≡ false)
            ⊎ (is_finite (as_float (member battery name)) ≡ false))
          × (x ≡ nan))

  -- A battery that was measured: what the document has, and what the message says.
  pub record IsMeasured (battery : V) (b : BatteryState N) : Type 0 where
    pub object : is_object battery ≡ true
    pub online :
        (is_member battery "online" ≡ false)
        ⊎ ((is_bool (member battery "online") ≡ true)
            × (as_bool (member battery "online") ≡ some true))
    pub numbers :
        (is_numeric (member battery "voltage") ≡ true)
        × (is_numeric (member battery "power") ≡ true)
    pub volts :
        (b.voltage ≡ as_float (member battery "voltage"))
        × (is_finite b.voltage ≡ true)
        × (less zero_value b.voltage ≡ true)
    pub charged :
        (b.percentage ≡ divide (as_float (member battery "power")) hundred)
        × (is_finite (as_float (member battery "power")) ≡ true)
        × (less (as_float (member battery "power")) zero_value ≡ false)
        × (less hundred (as_float (member battery "power")) ≡ false)
    pub optional :
        Optional battery "current" b.current × Optional battery "temperature" b.temperature
    pub unknown : (b.charge ≡ nan) × (b.capacity ≡ nan) × (b.design_capacity ≡ nan)
    pub present : b.present ≡ true

  optional_number_iff :
      (battery : V) (name : String) (x : N)
      → (optional_number json floats battery name ≡ x) ↔ Optional battery name x
  unfolding optional_number
  optional_number_iff battery name x = (λ e. ground arith, λ e. ground arith)

  volts_of : V → N
  volts_of battery = as_float (member battery "voltage")

  power_of : V → N
  power_of battery = as_float (member battery "power")

  read_battery-some :
      (battery : V) (b : BatteryState N)
      → (read_battery json floats battery ≡ some b) ↔ (
          (is_measured json floats battery ≡ true)
          × (is_plausible json floats (volts_of battery) (power_of battery) ≡ true)
          × (battery_of json floats battery (volts_of battery) (power_of battery) ≡ b))
  unfolding read_battery volts_of power_of
  read_battery-some battery b = (λ e. ground arith, λ e. ground arith)

  is_measured_iff :
      (battery : V)
      → (is_measured json floats battery ≡ true) ↔ (
          (is_object battery ≡ true)
          × ((is_member battery "online" ≡ false)
              ⊎ ((is_bool (member battery "online") ≡ true)
                  × (as_bool (member battery "online") ≡ some true)))
          × (is_numeric (member battery "voltage") ≡ true)
          × (is_numeric (member battery "power") ≡ true))
  unfolding is_measured is_online
  is_measured_iff battery = (λ e. ground arith, λ e. ground arith)

  is_plausible_iff :
      (volts power : N)
      → (is_plausible json floats volts power ≡ true) ↔ (
          (is_finite volts ≡ true)
          × (less zero_value volts ≡ true)
          × (is_finite power ≡ true)
          × (less power zero_value ≡ false)
          × (less hundred power ≡ false))
  unfolding is_plausible
  is_plausible_iff volts power = (λ e. ground arith, λ e. ground arith)

  battery_of_iff :
      (battery : V) (b : BatteryState N)
      → (battery_of json floats battery (volts_of battery) (power_of battery) ≡ b) ↔ (
          (b.voltage ≡ volts_of battery)
          × (b.percentage ≡ divide (power_of battery) hundred)
          × (Optional battery "current" b.current)
          × (Optional battery "temperature" b.temperature)
          × (b.charge ≡ nan)
          × (b.capacity ≡ nan)
          × (b.design_capacity ≡ nan)
          × (b.present ≡ true))
  unfolding battery_of
  battery_of_iff battery b = (
    λ e. rw (← e) (
      refl,
      refl,
      (optional_number_iff battery "current" _).0 refl,
      (optional_number_iff battery "temperature" _).0 refl,
      refl,
      refl,
      refl,
      refl,
    ),
    λ h i. record {
      voltage = sym h.0 i;
      percentage = sym h.1 i;
      current = (optional_number_iff battery "current" b.current).1 h.2 i;
      temperature = (optional_number_iff battery "temperature" b.temperature).1 h.3 i;
      charge = sym h.4 i;
      capacity = sym h.5 i;
      design_capacity = sym h.6 i;
      present = sym h.7 i;
    },
  )

  read_battery_iff :
      (battery : V) (b : BatteryState N)
      → (read_battery json floats battery ≡ some b) ↔ IsMeasured battery b
  unfolding volts_of power_of
  read_battery_iff battery b = (
    λ e.
        let parts = (read_battery-some battery b).0 e in
        let measured = (is_measured_iff battery).0 parts.0 in
        let plausible = (is_plausible_iff (volts_of battery) (power_of battery)).0 parts.1 in
        let fields = (battery_of_iff battery b).0 parts.2 in
        record {
          object = measured.0;
          online = measured.1;
          numbers = (measured.2, measured.3);
          volts = (fields.0, rw fields.0 plausible.0, rw fields.0 plausible.1);
          charged = (fields.1, plausible.2, plausible.3, plausible.4);
          optional = (fields.2, fields.3);
          unknown = (fields.4, fields.5, fields.6);
          present = fields.7;
        },
    λ m. (read_battery-some battery b).1 (
      (is_measured_iff battery).1 (m.object, m.online, m.numbers.0, m.numbers.1),
      (is_plausible_iff (volts_of battery) (power_of battery)).1 (
        rw m.volts.0 at m.volts.1,
        rw m.volts.0 at m.volts.2,
        m.charged.1,
        m.charged.2,
        m.charged.3,
      ),
      (battery_of_iff battery b).1 (
        m.volts.0, m.charged.0, m.optional.0, m.optional.1, m.unknown.0, m.unknown.1, m.unknown.2,
        m.present,
      ),
    ),
  )

  -- `battery_from_system_status` reports a battery exactly where the status is null or an object, its
  -- member "battery" is an object that is not marked as offline, and voltage and power are numbers
  -- that are finite, the voltage above 0 and the power from 0 to 100; the message then has this
  -- voltage, the power as a fraction, current and temperature where they are finite numbers and NaN
  -- where not, and NaN for the charge and the capacities.
  pub battery_from_system_status_iff :
      (status : V) (b : BatteryState N)
      → (battery_from_system_status json floats status ≡ returned (some b)) ↔ (
          ((is_null status ≡ true) ⊎ (is_object status ≡ true))
          × IsMeasured (member status "battery") b)
  unfolding battery_from_system_status
  battery_from_system_status_iff status b =
      let read = read_battery_iff (member status "battery") b in
      (λ e. (ground arith, read.0 (ground arith)), λ h. let e = read.1 h.1 in ground arith)
