-- ===== src/Coap/System.antt =====
-- sensorsUnleashed/resources/res-systeminfo.c, and the part of lib/susensors.c that it calls when another node
-- has started, `missingJustCalled`; with the answer to this node's own message to others, `txPresence_cb`.
pub mod Presence
use Prim.Native.String.{String}
use contiki_device_link.Common.{
  ℕ, zero, suc, ◌+◌, ◌%◌, Bool, true, false, List, [], ◌∷◌, ◌++◌, Option, none, some, if◌then◌else◌,
  ◌==◌, length, take,
}
use contiki_device_link.Contiki.{Memb, Lists}
use contiki_device_link.Cmp.{Codec}
use contiki_device_link.Sensor.{JoinPair, Sensor}
use contiki_device_link.ReverseNotify.{Address, Sources, Cfs, same_address, remove_item}
use contiki_device_link.Coap.{
  Status, ok, deleted, bad_request, Request, Response, unset, with_status, with_payload, with_text,
  find_command,
}

-- the pairs of a device whose destination is the address
unfoldable pub paired_to : Address → List JoinPair → List JoinPair
paired_to srcip [] = []
paired_to srcip (p ∷ ps) =
    let rest = paired_to srcip ps in if same_address srcip p.destip then p ∷ rest else rest

-- `missingJustCalled`: 1 if a pair is interested, and the pairs that are posted to the process, in order
unfoldable pub calls : Address → List Sensor → List JoinPair
calls srcip [] = []
calls srcip (d ∷ ds) = paired_to srcip d.pairs ++ calls srcip ds

unfoldable pub missing_just_called : Address → List Sensor → ℕ × List JoinPair
missing_just_called srcip ds =
    let posted = calls srcip ds in ((elim posted [ [] ↦ 0 | p ∷ ps ↦ 1 ]), posted)

pub data InfoCommand : Type 0 where
  versions coap_status rpl_status : InfoCommand

abbrev info_commands : List (String × InfoCommand)
info_commands =
    ("Versions", versions) ∷ ("CoapStatus", coap_status) ∷ ("RPLStatus", rpl_status) ∷ []

unfoldable pub count_pairs : List Sensor → ℕ
count_pairs [] = 0
count_pairs (d ∷ ds) = length d.pairs + count_pairs ds

module _ (codec : Codec) where
  unfoldable pub write_u8s : List ℕ → List ℕ
  write_u8s [] = []
  write_u8s (x ∷ xs) = codec.write_u8 x ++ write_u8s xs

  -- `cp_encodeU8Array`
  unfoldable pub cp_encode_u8_array : List ℕ → List ℕ
  cp_encode_u8_array xs = codec.write_array (length xs) ++ write_u8s xs

  -- The content for a command. The name of the board and the version are of the build; Contiki counts observers
  -- and observees. `rpl_status` leaves `len` at the query's length, so it sends that of the buffer.
  unfoldable pub info :
      List ℕ → List ℕ → ℕ → ℕ → List Sensor → List ℕ → InfoCommand → List ℕ → List ℕ
  info board version observers observees ds buffer versions query =
      codec.write_str board ++ cp_encode_u8_array version
  info board version observers observees ds buffer coap_status query =
      cp_encode_u8_array (observers % 256 ∷ observees % 256 ∷ count_pairs ds % 256 ∷ [])
  info board version observers observees ds buffer rpl_status query = take (length query) buffer

  unfoldable pub res_sysinfo_gethandler :
      List ℕ → List ℕ → ℕ → ℕ → List Sensor → List ℕ → Request → Response
  res_sysinfo_gethandler board version observers observees ds buffer request =
      if length request.query == 0
      then with_status ok
      else (elim (find_command info_commands request.query) [
        | none ↦ with_payload unset (take (length request.query) buffer)
        | some c ↦
            with_payload unset (info board version observers observees ds buffer c request.query)
      ])

-- what `res_sysinfo_puthandler` causes: the event `systemchange`, and the pairs posted
pub record Effect : Type 0 where
  pub systemchange : Bool
  pub posted : List JoinPair

pub data SystemCommand : Type 0 where
  cfsformat obs : SystemCommand

abbrev system_commands : List (String × SystemCommand)
system_commands = ("cfsformat", cfsformat) ∷ ("obs", obs) ∷ []

abbrev nothing : Effect
nothing = record { systemchange = false; posted = [] }

-- `srcip` is the address that the request came from.
unfoldable pub put_system : Address → List Sensor → Option SystemCommand → Response × Effect
put_system srcip ds none = (with_status bad_request, nothing)
put_system srcip ds (some cfsformat) = (with_status ok, record nothing { systemchange = true })
put_system srcip ds (some obs) =
    let (interested, posted) = missing_just_called srcip ds in
    (with_status (if interested == 0 then deleted else ok), record nothing { posted = posted })

unfoldable pub res_sysinfo_puthandler : Address → List Sensor → Request → Response × Effect
res_sysinfo_puthandler srcip ds request =
    if request.is_octet_stream
    then (if length request.query == 0
        then (unset, nothing)
        else put_system srcip ds (find_command system_commands request.query))
    else (with_text bad_request "msgPacked, octet-stream only", nothing)

-- `txPresence`: the request that is sent to a node that observed this one
abbrev pub presence_request : Request
presence_request = record {
  is_octet_stream = true;
  url = [];
  query = 111 ∷ 98 ∷ 115 ∷ [];
  set_command = none;
  payload = [];
  block1_num = 0;
  block1_size = 0;
  block1_more = false;
}

-- `txPresence_cb`, for the node at place `i`: `none` is a timeout
module _ (codec : Codec) (memb : Memb) (lists : Lists Address) (cfs : Cfs)
    (list_remove : List Address → ℕ → List Address) where
  unfoldable pub tx_presence_cb :
      Bool → Sources memb.State → ℕ → Option Response → Sources memb.State
  tx_presence_cb opens s i none = s
  tx_presence_cb opens s i (some r) = elim (r.status) [
    | some deleted ↦ remove_item codec memb lists cfs list_remove opens s i
    | _ ↦ s
  ]
