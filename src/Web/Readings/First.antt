-- ===== src/Web/Readings/First.antt =====
-- The first half of the rows of COMPONENT_READINGS in component_readings.py.
use fronius_modbus.Common.{List, [], ◌∷◌, none, some, true, false}
use fronius_modbus.Web.Readings.Row.{ComponentReading, row, inverter, storage, positive, yes_no}

unfoldable pub first_readings : List ComponentReading
first_readings =
    (row "inverter_temperature" inverter ("DEVICE_TEMPERATURE_AMBIENTMEAN_01_F32" ∷ []) (some "°C")
      (some "temperature"))
    ∷ (record (row "inverter_temperature_2" inverter ("DEVICE_TEMPERATURE_AMBIENTMEAN_02_F32" ∷ [])
        (some "°C") (some "temperature")) { once_reported = true })
    ∷ (row "storage_temperature" storage ("BAT_TEMPERATURE_CELL_F64" ∷ []) (some "°C")
        (some "temperature"))
    ∷ (record (row "module_temperature_1" inverter ("MODULE_TEMPERATURE_MEAN_01_F32" ∷ [])
        (some "°C") (some "temperature")) { once_reported = true })
    ∷ (record (row "module_temperature_2" inverter ("MODULE_TEMPERATURE_MEAN_02_F32" ∷ [])
        (some "°C") (some "temperature")) { once_reported = true })
    ∷ (record (row "module_temperature_3" inverter ("MODULE_TEMPERATURE_MEAN_03_F32" ∷ [])
        (some "°C") (some "temperature")) { once_reported = true })
    ∷ (record (row "module_temperature_4" inverter ("MODULE_TEMPERATURE_MEAN_04_F32" ∷ [])
        (some "°C") (some "temperature")) { once_reported = true })
    ∷ (record (row "module_temperature_5" inverter ("MODULE_TEMPERATURE_MEAN_05_F32" ∷ [])
        (some "°C") (some "temperature")) { once_reported = true })
    ∷ (record (row "module_temperature_6" inverter ("MODULE_TEMPERATURE_MEAN_06_F32" ∷ [])
        (some "°C") (some "temperature")) { once_reported = true })
    ∷ (record (row "module_temperature_7" inverter ("MODULE_TEMPERATURE_MEAN_07_F32" ∷ [])
        (some "°C") (some "temperature")) { once_reported = true })
    ∷ (record (row "module_temperature_8" inverter ("MODULE_TEMPERATURE_MEAN_08_F32" ∷ [])
        (some "°C") (some "temperature")) { once_reported = true })
    ∷ (record (row "module_temperature_9" inverter ("MODULE_TEMPERATURE_MEAN_09_F32" ∷ [])
        (some "°C") (some "temperature")) { once_reported = true })
    ∷ (record (row "module_temperature_10" inverter ("MODULE_TEMPERATURE_MEAN_10_F32" ∷ [])
        (some "°C") (some "temperature")) { once_reported = true })
    ∷ (row "fan_1" inverter ("FANCONTROL_PERCENT_01_F32" ∷ []) (some "%") none)
    ∷ (row "fan_2" inverter ("FANCONTROL_PERCENT_02_F32" ∷ []) (some "%") none)
    ∷ (record (row "fan_3" inverter ("FANCONTROL_PERCENT_03_F32" ∷ []) (some "%") none) {
      once_reported = true;
    })
    ∷ (record (row "fan_4" inverter ("FANCONTROL_PERCENT_04_F32" ∷ []) (some "%") none) {
      once_reported = true;
    })
    ∷ (record (row "fan_5" inverter ("FANCONTROL_PERCENT_05_F32" ∷ []) (some "%") none) {
      once_reported = true;
    })
    ∷ (row "inverter_power_l1" inverter ("ACBRIDGE_POWERACTIVE_MEAN_01_F32" ∷ []) (some "W")
        (some "power"))
    ∷ (row "inverter_power_l2" inverter ("ACBRIDGE_POWERACTIVE_MEAN_02_F32" ∷ []) (some "W")
        (some "power"))
    ∷ (row "inverter_power_l3" inverter ("ACBRIDGE_POWERACTIVE_MEAN_03_F32" ∷ []) (some "W")
        (some "power"))
    ∷ (record (row "production_limit" inverter ("ACBRIDGE_POWERACTIVE_PRODUCTION_LIMIT_F32" ∷ [])
        (some "W") (some "power")) { once_reported = true })
    ∷ (record (row "production_limit_reached" inverter
        ("ACBRIDGE_VALUE_POWERACTIVE_PRODUCTION_LIMIT_REACHED_U8"
          ∷ "ACBRIDGE_VALUE_POWERACTIVE_RELATIVE_PRODUCTION_LIMIT_REACHED_U8" ∷ [])
        none none) { measurement = false; once_reported = true; transform = yes_no })
    ∷ (record (row "battery_max_charge_power" inverter ("DCDC_POWERACTIVE_BAT_MAX_F32" ∷ [])
        (some "W") (some "power")) { once_reported = true })
    ∷ (record (row "battery_max_discharge_power" inverter ("DCDC_POWERACTIVE_BAT_MIN_F32" ∷ [])
        (some "W") (some "power")) { once_reported = true; transform = positive })
    ∷ (record (row "dc_link_voltage" inverter ("DCLINK_VOLTAGE_MEAN_F32" ∷ []) (some "V")
        (some "voltage")) { diagnostic = true; enabled = false })
    ∷ (record (row "surplus_power_available" inverter
        ("POWERMANAGER_VALUE_SURPLUS_POWER_AVAILABLE_U8" ∷ []) none none) {
          measurement = false;
          enabled = false;
          once_reported = true;
          transform = yes_no;
        })
    ∷ (record (row "grid_valid" inverter ("FEEDINPOINT_MODE_GRID_VALIDITY_U8" ∷ []) none none) {
      measurement = false;
      transform = yes_no;
    })
    ∷ (record (row "feed_in_voltage_l1" inverter ("FEEDINPOINT_VOLTAGE_MEAN_01_F32" ∷ []) (some "V")
        (some "voltage")) { enabled = false })
    ∷ (record (row "feed_in_voltage_l2" inverter ("FEEDINPOINT_VOLTAGE_MEAN_02_F32" ∷ []) (some "V")
        (some "voltage")) { enabled = false })
    ∷ (record (row "feed_in_voltage_l3" inverter ("FEEDINPOINT_VOLTAGE_MEAN_03_F32" ∷ []) (some "V")
        (some "voltage")) { enabled = false })
    ∷ (record (row "feed_in_voltage_l1_l2" inverter ("FEEDINPOINT_VOLTAGE_MEAN_12_F32" ∷ [])
        (some "V") (some "voltage")) { enabled = false })
    ∷ (record (row "feed_in_voltage_l2_l3" inverter ("FEEDINPOINT_VOLTAGE_MEAN_23_F32" ∷ [])
        (some "V") (some "voltage")) { enabled = false })
    ∷ (record (row "feed_in_voltage_l3_l1" inverter ("FEEDINPOINT_VOLTAGE_MEAN_31_F32" ∷ [])
        (some "V") (some "voltage")) { enabled = false })
    ∷ []
