-- ===== src/Coap.antt =====
-- sensorsUnleashed/resources: the CoAP resources of the firmware. What a handler is given and gives through
-- Contiki's REST engine stands here, with the commands of a query and the state that the handlers
-- work on; `Get` and `Put` model res-susensors.c, `System` res-systeminfo.c.
pub mod Get
pub mod Put
pub mod System
pub mod Switch
pub mod Parts
pub mod Text
pub mod Sensors
pub mod Tests
use Prim.Native.Char.{code}
use Prim.Native.String as Literal
use Prim.Native.String.{String}
use contiki_device_link.Common.{
  ℕ, zero, suc, ◌+◌, Bool, true, false, List, [], ◌∷◌, Option, none, some, if◌then◌else◌, ◌==◌,
  length,
}
use contiki_device_link.Common.Int.{ℤ, pos}
use contiki_device_link.Cmp.{CmpObject, Codec}
use contiki_device_link.Sensor.{JoinPair, Driver}
use contiki_device_link.Device.{Device}
use contiki_device_link.Registry.{strncmp_equal, is_match}
use contiki_device_link.Pairing.{Assembly}
use contiki_device_link.Pairing.Flash.{Flash}

-- the characters of a literal
unfoldable pub characters : String → List ℕ
characters Literal.[] = []
characters (Literal.◌∷◌ c s) = code c ∷ characters s

-- REST.status
pub data Status : Type 0 where
  ok created changed deleted bad_request not_modified : Status
  internal_server_error request_entity_too_large : Status

-- What a handler reads of a request. `set_command` is the query's variable of that name.
pub record Request : Type 0 where
  pub is_octet_stream : Bool
  pub url : List ℕ
  pub query : List ℕ
  pub set_command : Option (List ℕ)
  pub payload : List ℕ
  pub block1_num : ℕ
  pub block1_size : ℕ
  pub block1_more : Bool

-- What a handler sets of a response; `payload_len` is the length that it gives the engine.
pub record Response : Type 0 where
  pub status : Option Status
  pub payload : List ℕ
  pub payload_len : ℤ
  pub max_age : Option ℕ
  pub block1 : Option (ℕ × ℕ)

abbrev pub unset : Response
unset = record { status = none; payload = []; payload_len = pos 0; max_age = none; block1 = none }

abbrev pub with_status : Status → Response
with_status s = record unset { status = some s }

abbrev pub with_payload : Response → List ℕ → Response
with_payload r bytes = record r { payload = bytes; payload_len = pos (length bytes) }

-- a status with a text
abbrev pub say : Response → Status → String → Response
say r s text = with_payload (record r { status = some s }) (characters text)

abbrev pub with_text : Status → String → Response
with_text s text = say unset s text

-- The chain `if(strncmp(str, …, len) == 0) … else if …`: the first command whose name the query is the
-- start of.
unfoldable pub find_command : {A : Type 0} → List (String × A) → List ℕ → Option A
find_command [] query = none
find_command ((name, c) ∷ cs) query =
    let rest = find_command cs query in
    if strncmp_equal (length query) query (characters name) then some c else rest

-- The functions of a driver; `none` is the call of a function that the driver does not have.
pub record Handlers (S : Type 0) : Type 0 where
  pub status : Device S → Option CmpObject
  pub value : Device S → ℤ → Option (ℕ × Device S)
  pub eventhandler : Device S → List ℕ → Option (ℕ × Device S)

-- The devices in the order of their list, the flash, the message that is assembled, the pool of pairs, the
-- memory of `mmem_alloc`, and the pairs posted to the process.
pub record Board (S P M : Type 0) : Type 0 where
  pub devices : List (Device S)
  pub flash : Flash
  pub assembly : Assembly
  pub pool : P
  pub mmem : M
  pub posted : List JoinPair

-- `susensors_find`, with the device's place
module _ {S : Type 0} (has_sub_resources : ℕ) where
  unfoldable pub find_device : List (Device S) → List ℕ → ℕ → Option (ℕ × Device S)
  find_device [] url len = none
  find_device (d ∷ ds) url len =
      let rest = find_device ds url len in
      if is_match has_sub_resources url len d.sensor
      then some (0, d)
      else elim rest [ none ↦ none | some (i, e) ↦ some (suc i, e) ]
