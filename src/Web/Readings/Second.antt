-- ===== src/Web/Readings/Second.antt =====
-- The second half of the rows of COMPONENT_READINGS in component_readings.py.
use fronius_modbus.Common.{List, [], ◌∷◌, none, some, true, false}
use fronius_modbus.Web.Readings.Row.{ComponentReading, row, inverter, storage}

unfoldable pub second_readings : List ComponentReading
second_readings =
    (record (row "feed_in_frequency" inverter ("FEEDINPOINT_FREQUENCY_MEAN_F32" ∷ []) (some "Hz")
      (some "frequency")) { enabled = false })
    ∷ (record (row "operating_time" inverter ("DEVICE_TIME_UPTIME_SUM_F32" ∷ []) (some "s")
        (some "duration")) {
          measurement = false;
          diagnostic = true;
          enabled = false;
          suggested_unit = some "h";
        })
    ∷ (record (row "backup_time" inverter ("ACBRIDGE_TIME_BACKUPMODE_UPTIME_SUM_F32" ∷ [])
        (some "s") (some "duration")) {
          measurement = false;
          enabled = false;
          suggested_unit = some "h";
        })
    ∷ (record (row "power_stage_firmware_1" inverter ("PS.rev-sw" ∷ []) none none) {
      measurement = false;
      diagnostic = true;
    })
    ∷ (record (row "power_stage_firmware_2" inverter ("PS2.rev-sw" ∷ []) none none) {
      measurement = false;
      diagnostic = true;
    })
    ∷ (record (row "power_stage_hardware" inverter ("PS.rev-hw" ∷ []) none none) {
      measurement = false;
      diagnostic = true;
      enabled = false;
    })
    ∷ (row "storage_state_of_health" storage ("BAT_VALUE_STATE_OF_HEALTH_RELATIVE_U16" ∷ [])
        (some "%") none)
    ∷ (record (row "storage_cell_temperature_min" storage ("BAT_TEMPERATURE_CELL_MIN_F64" ∷ [])
        (some "°C") (some "temperature")) { enabled = false })
    ∷ (record (row "storage_cell_temperature_max" storage ("BAT_TEMPERATURE_CELL_MAX_F64" ∷ [])
        (some "°C") (some "temperature")) { enabled = false })
    ∷ (record (row "storage_bms_temperature" storage ("DEVICE_TEMPERATURE_AMBIENTEMEAN_F32" ∷ [])
        (some "°C") (some "temperature")) { enabled = false })
    ∷ (record (row "storage_discharge_limit" storage ("DCLINK_POWERACTIVE_LIMIT_DISCHARGE_F64" ∷ [])
        (some "W") (some "power")) { enabled = false })
    ∷ (record (row "storage_power_limit" storage ("DCLINK_POWERACTIVE_MAX_F32" ∷ []) (some "W")
        (some "power")) { enabled = false })
    ∷ (record (row "storage_peak_charge_power" storage ("nameplate.peak_power_charge_w" ∷ [])
        (some "W") (some "power")) { measurement = false; diagnostic = true; enabled = false })
    ∷ (record (row "storage_peak_discharge_power" storage ("nameplate.peak_power_discharge_w" ∷ [])
        (some "W") (some "power")) { measurement = false; diagnostic = true; enabled = false })
    ∷ (record (row "storage_rated_soc_min" storage ("nameplate.min_soc" ∷ []) (some "%") none) {
      measurement = false;
      diagnostic = true;
      enabled = false;
    })
    ∷ (record (row "storage_rated_soc_max" storage ("nameplate.max_soc" ∷ []) (some "%") none) {
      measurement = false;
      diagnostic = true;
      enabled = false;
    })
    ∷ (record (row "storage_modules" storage ("nameplate.module_number" ∷ []) none none) {
      measurement = false;
      diagnostic = true;
      enabled = false;
    })
    ∷ (record (row "storage_voltage_min" storage ("min_udc" ∷ []) (some "V") (some "voltage")) {
      measurement = false;
      diagnostic = true;
      enabled = false;
    })
    ∷ (record (row "storage_voltage_max" storage ("max_udc" ∷ []) (some "V") (some "voltage")) {
      measurement = false;
      diagnostic = true;
      enabled = false;
    })
    ∷ (record (row "storage_link" storage ("connection" ∷ []) none none) {
      measurement = false;
      diagnostic = true;
      enabled = false;
    })
    ∷ []
