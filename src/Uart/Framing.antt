-- ===== src/Uart/Framing.antt =====
-- One frame of uarthandler.c: what `proxy_rx_callback` stores for the bytes of the wire, and what
-- arrives of a message that `frameandsend` framed.
mod Wire
mod Store
unfoldable pub use Wire.*
pub use Store.*
