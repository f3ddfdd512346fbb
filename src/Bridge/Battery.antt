-- ===== src/Bridge/Battery.antt =====
-- uniubi_motion_bridge/include/uniubi_motion_bridge/battery_status.hpp, and `publish_battery` of
-- uniubi_motion_bridge_node.cpp: the battery messages.
pub mod Measured
use uniubi_ros.Prelude.{
  ℕ, String, Bool, true, false, not, ◌&&◌, ◌||◌, Option, none, some, if◌then◌else◌,
}
use uniubi_ros.Json.{Json}
use uniubi_ros.Client.{Exit, returned, threw}

-- What the code asks of single-precision numbers, a type `N`; the numbers of a document are read by
-- `asFloat`.
pub record Floats (V N : Type 0) : Type 0 where
  pub as_float : V → N
  pub nan : N
  pub zero_value : N
  pub one : N
  pub hundred : N
  pub is_finite : N → Bool
  pub less : N → N → Bool
  pub divide : N → N → N

-- The fields of the message `BatteryState` that the code sets, without its stamp; the status, health
-- and technology of the supply are always unknown.
pub record BatteryState (N : Type 0) : Type 0 where
  pub voltage : N
  pub percentage : N
  pub current : N
  pub temperature : N
  pub charge : N
  pub capacity : N
  pub design_capacity : N
  pub present : Bool

-- `uniubi::msg::PowerObserved`, as far as it is read.
pub record PowerObserved (N : Type 0) : Type 0 where
  pub charge_voltage : N
  pub charge_current : N
  pub temper : N
  pub power : N

-- `asBool` behind `isBool`.
abbrev pub is_true : Option Bool → Bool
is_true (some b) = b
is_true none = false

module _ {V N : Type 0} (json : Json V) (floats : Floats V N) where
  open json use {is_null, is_object, is_bool, is_numeric, is_member, member, as_bool}
  open floats use {as_float, nan, zero_value, one, hundred, is_finite, less, divide}

  unfoldable pub is_online : V → Bool
  is_online battery =
      not (is_member battery "online")
      || (is_bool (member battery "online") && is_true (as_bool (member battery "online")))

  unfoldable pub is_measured : V → Bool
  unfolding is_online
  is_measured battery =
      is_object battery
      && is_online battery
      && is_numeric (member battery "voltage")
      && is_numeric (member battery "power")

  unfoldable pub is_plausible : N → N → Bool
  is_plausible voltage power =
      is_finite voltage
      && less zero_value voltage
      && is_finite power
      && not (less power zero_value)
      && not (less hundred power)

  unfoldable pub optional_number : V → String → N
  optional_number battery name =
      if not (is_numeric (member battery name))
      then nan
      else if is_finite (as_float (member battery name))
      then as_float (member battery name)
      else nan

  unfoldable pub battery_of : V → N → N → BatteryState N
  unfolding optional_number
  battery_of battery voltage power = record {
    voltage = voltage;
    percentage = divide power hundred;
    current = optional_number battery "current";
    temperature = optional_number battery "temperature";
    charge = nan;
    capacity = nan;
    design_capacity = nan;
    present = true;
  }

  unfoldable pub read_battery : V → Option (BatteryState N)
  unfolding is_measured is_plausible battery_of
  read_battery battery =
      if not (is_measured battery)
      then none
      else if not
          (is_plausible (as_float (member battery "voltage")) (as_float (member battery "power")))
      then none
      else some (
          battery_of battery (as_float (member battery "voltage"))
            (as_float (member battery "power")))

  -- `battery_from_system_status`: the battery, `none` for the result `false`. A member of a value that
  -- is neither null nor an object cannot be read: jsoncpp throws.
  unfoldable pub battery_from_system_status : V → Exit (Option (BatteryState N))
  unfolding read_battery
  battery_from_system_status status =
      if not (is_null status) && not (is_object status)
      then threw "JSON"
      else returned (read_battery (member status "battery"))

  abbrev pub finite_or_nan : N → N
  finite_or_nan x = if is_finite x then x else nan

  -- `std::clamp(x, 0, 1)`.
  abbrev pub clamp_unit : N → N
  clamp_unit x = if less x zero_value then zero_value else if less one x then one else x

  -- The message of `publish_battery`.
  unfoldable pub publish_battery : PowerObserved N → BatteryState N
  publish_battery input = record {
    voltage = finite_or_nan input.charge_voltage;
    percentage = if is_finite input.power then clamp_unit (divide input.power hundred) else nan;
    current = finite_or_nan input.charge_current;
    temperature = finite_or_nan input.temper;
    charge = nan;
    capacity = nan;
    design_capacity = nan;
    present = is_finite input.charge_voltage && less zero_value input.charge_voltage;
  }
