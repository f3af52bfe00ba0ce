-- ===== src/Coap/Sensors/Tests.antt =====
-- Runs and instances of the resources of a board with one sensor.
use contiki_device_link.Common.{ℕ, ◌≡◌, refl, [], ◌∷◌, none, arith, replicate, List}
use contiki_device_link.Cmp.{CmpObject}
use contiki_device_link.Sensor.Config.{cp_decode_object}
use contiki_device_link.Uart.Proxy.{ProxyResource, Host, cp_decode_u8}
use contiki_device_link.Coap.Sensors.{setup_loop, going_on}
use contiki_device_link.Coap.Sensors.Setup.{setup_loop_endless}
use contiki_device_link.Device.Tests.Fixtures.{three_bytes, setup}

abbrev sensor : ProxyResource
sensor = record { conf = setup; lastval = 4; vallen = 0 }

abbrev host : Host
host = record {
  payloadbuffer = replicate 40 9;
  cmd = 0;
  len = 0;
  payload = 20;
  proxy_resource_list = sensor ∷ [];
  msgid = 1;
  wire = [];
  posted = [];
}

abbrev no_float : CmpObject → List ℕ
no_float o = []

-- the parameter 2 and an object of three bytes, in a payload of four
setup_loop_endless_example :
    setup_loop
      (λ bytes acc. 7)
      three_bytes
      5
      host
      sensor
      (2 ∷ 14 ∷ 3 ∷ 0 ∷ [])
      (14 ∷ 3 ∷ 0 ∷ [])
      none
      0
    ≡ going_on
unfolding cp_decode_u8 cp_decode_object
setup_loop_endless_example =
    setup_loop_endless (λ bytes acc. 7) three_bytes 5 host sensor (2 ∷ 14 ∷ 3 ∷ 0 ∷ [])
      (14 ∷ 3 ∷ 0 ∷ []) none 0 2 1 3 (record { type = 14; word = 3 }) refl refl (omega arith)
      (omega arith)
