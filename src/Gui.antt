-- ===== src/Gui.antt =====
-- SensorsUnleasedGui/suGui: the desktop program's side of the CoAP link. What it uses of a message of the
-- library cantcoap stands here; `Block` models the block options of wsn.cpp, `Wsn` the messages that
-- wait for an answer.
pub mod Block
pub mod Wsn
pub mod Tests
use contiki_device_link.Common.{ℕ, ◌+◌, List, [], ◌∷◌, Option, none, some, if◌then◌else◌, ◌==◌}

-- CoapPDU::Type
pub data PduType : Type 0 where
  confirmable non_confirmable acknowledgement reset : PduType

-- CoapPDU::CoapOption
pub record CoapOption : Type 0 where
  pub option_number : ℕ
  pub option_value : List ℕ

-- What wsn.cpp sets and reads of a `CoapPDU`; the options of the URI are in `uri`.
pub record Pdu : Type 0 where
  pub type : PduType
  pub code : ℕ
  pub message_id : ℕ
  pub token : List ℕ
  pub uri : List ℕ
  pub options : List CoapOption
  pub payload : List ℕ

-- COAP_OPTION_CONTENT_FORMAT, COAP_OPTION_BLOCK2 and COAP_OPTION_BLOCK1
abbrev pub option_content_format : ℕ
option_content_format = 12

abbrev pub option_block2 : ℕ
option_block2 = 23

abbrev pub option_block1 : ℕ
option_block1 = 27

-- `wsn::coap_check_option`: the first option of that number
unfoldable pub coap_check_option : List CoapOption → ℕ → Option CoapOption
coap_check_option [] opt = none
coap_check_option (o ∷ os) opt = if o.option_number == opt then some o else coap_check_option os opt
