-- ===== src/Startup/Tests.antt =====
-- A start of the server whose static runtimes are 0.
use contiki_device_link.Common.{◌≡◌, refl, false, [], ◌∷◌, some}
use contiki_device_link.Sensor.{Sensor, mains}
use contiki_device_link.Device.Button.{Button}
use contiki_device_link.Device.Tests.Fixtures.{with_value, blocks, appending}
use contiki_device_link.Coap.{characters}
use contiki_device_link.Startup.{Resource, Methods, Statics, State, er_uart_server}
use contiki_device_link.Startup.Booted.{view}
use contiki_device_link.Registry.{susensors_find}
use contiki_device_link.Startup.Found.{susensors_find-er_uart_server}

abbrev methods : Methods
methods = record { method_get = 1; method_post = 2; method_put = 4; method_delete = 8 }

abbrev stale : Resource
stale = record {
  url = [];
  attributes = [];
  flags = 0;
  get_handler = false;
  put_handler = false;
  post_handler = false;
  delete_handler = false;
}

abbrev statics : Statics
statics = record {
  stack = with_value 0;
  relayruntime = (with_value 0).runtime ∷ (with_value 0).runtime ∷ [];
  pulseruntime = (with_value 0).runtime;
  mainsruntime = (with_value 0).runtime;
  led_yellow = 4;
  clock_second = 128;
  flags = 5;
}

abbrev unpressed : Button
unpressed = record {
  press_duration = 0;
  press_event_counter = 0;
  counting = false;
  debounces = 0;
  long_presses = 0;
}

susensors_find-er_uart_server_example :
    (b : State blocks appending methods stale) × (er_uart_server blocks appending methods stale
        statics unpressed
      ≡ some b)
    × (d : Sensor) × (susensors_find 8 b.registry.sudevices (characters "su/mainsdetect") 0
        ≡ some d)
    × (view d ≡ record { name = characters "su/mainsdetect"; driver = mains; resource = some 3 })
susensors_find-er_uart_server_example =
    susensors_find-er_uart_server 8 blocks appending methods stale statics unpressed
      (with_value 0).runtime ((with_value 0).runtime ∷ []) refl 3
      (record { name = characters "su/mainsdetect"; driver = mains; resource = some 3 }) refl
