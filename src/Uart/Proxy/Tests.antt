-- ===== src/Uart/Proxy/Tests.antt =====
-- Runs and instances of the messages of a board with one sensor.
use contiki_device_link.Common.{
  ℕ, ◌+◌, ◌*◌, ◌≡◌, refl, inr, [], ◌∷◌, ◌++◌, some, arith, replicate, drop,
}
use contiki_device_link.Sensor.Config.{cp_decode_object}
use contiki_device_link.Uart.Proxy.{
  ProxyResource, Host, received, cp_decode_u8, find_id, handle_sensor_messages,
}
use contiki_device_link.Uart.Proxy.Laws.{IsTaken, handle-IsTaken}
use contiki_device_link.Device.Tests.Fixtures.{three_bytes, setup}

abbrev sensor : ProxyResource
sensor = record { conf = setup; lastval = 4; vallen = 0 }

-- a message of kind `cmd` with the payload 0 3 7 … from index 20 on, 18 bytes long
abbrev host : ℕ → Host
host cmd = record {
  payloadbuffer = replicate 20 9 ++ (0 ∷ 3 ∷ 7 ∷ replicate 17 1);
  cmd = cmd;
  len = 18;
  payload = 20;
  proxy_resource_list = sensor ∷ [];
  msgid = 1;
  wire = [];
  posted = [];
}

id_read : cp_decode_u8 three_bytes (received (host 5)) ≡ some (0, 1)
unfolding cp_decode_u8
id_read = refl

id_known : find_id (sensor ∷ []) 0 ≡ some (0, sensor)
unfolding find_id
id_known = refl

-- a value of 17 bytes, for which 15 are reserved
handle-IsTaken_example :
    (h' : Host) × (handle_sensor_messages three_bytes (host 5) ≡ some h')
    × IsTaken (host 5) 0 sensor 17 21 h'
handle-IsTaken_example =
    handle-IsTaken three_bytes (host 5) 0 1 0 sensor id_read id_known (inr refl) (omega arith)
      (omega arith) (omega arith) (omega arith) (omega arith) (inr (omega arith))

parameter_read : cp_decode_u8 three_bytes (drop 1 (received (host 8))) ≡ some (3, 1)
unfolding cp_decode_u8
parameter_read = refl

-- the object that is read has the parameter 3 as its type
object_read :
    cp_decode_object three_bytes (drop 1 (received (host 8)))
    ≡ some (record { type = 3; word = 7 + 256 * 1 }, 3)
unfolding cp_decode_object
object_read = refl
