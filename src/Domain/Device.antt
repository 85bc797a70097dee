-- ===== src/Domain/Device.antt =====
-- crates/domain/src: device/entity.rs and driver/driver_type.rs.
use ifascada.Prelude.{String, Bool}
use ifascada.Json.{Value}

pub data DriverType : Type 0 where
  rs232 modbus opcua http simulator : DriverType

unfoldable pub as_str : DriverType → String
as_str rs232 = "RS232"
as_str modbus = "Modbus"
as_str opcua = "OPC-UA"
as_str http = "HTTP"
as_str simulator = "Simulator"

pub record Device (F : Type 0) : Type 0 where
  pub id : String
  pub driver : DriverType
  pub connection_config : Value F
  pub enabled : Bool
