-- ===== src/Uart/Host/Tests.antt =====
-- Runs of the desktop program that tests the UART link.
use contiki_device_link.Common.{ℕ, ◌≡◌, refl, List, [], ◌∷◌, none, some}
use contiki_device_link.Uart.{Uart, receive, frameandsend, uarthandler_init, proxy_rx_callback}
use contiki_device_link.Uart.Host.{
  TestPort, new_host, read_data, transmit_frame, byte_stuff, byte_stuff_loop, stuff_at,
}
use contiki_device_link.Uart.Host.Stuffing.{transmit_frame-frameandsend}
use contiki_device_link.Uart.Host.Alike.{IsAlike}
use contiki_device_link.Uart.Host.Reception.{read_data-receive, new_host-IsAlike}

-- END and ESC become two bytes each.
byte_stuff_two : byte_stuff (7 ∷ 192 ∷ 219 ∷ 3 ∷ []) ≡ some (7 ∷ 219 ∷ 220 ∷ 219 ∷ 221 ∷ 3 ∷ [])
unfolding byte_stuff byte_stuff_loop stuff_at
byte_stuff_two = refl

transmit_frame-frameandsend_example :
    transmit_frame (7 ∷ 192 ∷ 219 ∷ 3 ∷ []) 3 ≡ some (frameandsend (7 ∷ 192 ∷ 219 ∷ 3 ∷ []) 3)
transmit_frame-frameandsend_example = transmit_frame-frameandsend (7 ∷ 192 ∷ 219 ∷ 3 ∷ []) 3

abbrev wire : List ℕ
wire = 7 ∷ 219 ∷ 220 ∷ 192 ∷ 5 ∷ []

abbrev node_after : Uart
node_after = elim (receive uarthandler_init wire) [ none ↦ uarthandler_init | some v ↦ v ]

node_receives : receive uarthandler_init wire ≡ some node_after
unfolding receive proxy_rx_callback uarthandler_init
node_receives = refl

read_data-receive_example :
    (now : List ℕ) × (g : TestPort) × (read_data (new_host 0) wire ≡ some g)
    × IsAlike now node_after g
read_data-receive_example =
    read_data-receive wire (1 ∷ []) uarthandler_init node_after (new_host 0) new_host-IsAlike
      node_receives
