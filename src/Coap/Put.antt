-- ===== src/Coap/Put.antt =====
-- sensorsUnleashed/resources/res-susensors.c, `res_susensor_puthandler`.
use Prim.Native.String.{String}
use contiki_device_link.Common.{
  ℕ, zero, ◌+◌, ◌*◌, Bool, List, [], ◌∷◌, Option, none, some, if◌then◌else◌, ◌==◌, leb, length, set,
}
use contiki_device_link.Common.Int.{ℤ, pos}
use contiki_device_link.Contiki.{Memb, Lists}
use contiki_device_link.Cmp.{Codec}
use contiki_device_link.Sensor.{JoinPair, Sensor}
use contiki_device_link.Sensor.Config.{eventsetup_set, suconfig, cp_encode_object}
use contiki_device_link.Device.{Device}
use contiki_device_link.ReverseNotify.{Cfs}
use contiki_device_link.Pairing.{Pairing, pairing_assemble_message, pairing_handle}
use contiki_device_link.Pairing.Flash.{Name, Flash, store_sensor_pair, pairing_remove_all}
use contiki_device_link.Pairing.Flash.Remove.{pairing_remove}
use contiki_device_link.Coap.{
  ok, created, changed, bad_request, not_modified, internal_server_error, request_entity_too_large,
  Request, Response, unset, with_status, with_payload, say, with_text, find_command, Handlers,
  Board, find_device,
}

abbrev pub large_update_store : ℕ
large_update_store = 200

pub data PutCommand : Type 0 where
  post_event eventsetup pair_remove_index pair_remove_all join : PutCommand

-- The chain of commands; the variable "setCommand" is asked for behind "postEvent".
abbrev pub first_commands : List (String × PutCommand)
first_commands = ("postEvent", post_event) ∷ []

abbrev pub later_commands : List (String × PutCommand)
later_commands =
    ("eventsetup", eventsetup)
    ∷ ("pairRemoveIndex", pair_remove_index)
    ∷ ("pairRemoveAll", pair_remove_all)
    ∷ ("join", join)
    ∷ []

-- the answer to a code of `pairing_handle`
unfoldable pub answer_join : Response → ℕ → Response
answer_join r code =
    if code == 0
    then record r { status = some created }
    else (if code == 1
        then say r bad_request "IPAdress wrong"
        else (if code == 2
            then say r bad_request "Destination URI wrong"
            else (if code == 3
                then record r { status = some internal_server_error }
                else (if code == 4
                    then say r bad_request "Source URI wrong"
                    else (if code == 5 then record r { status = some not_modified } else r)))))

-- the answer to a code of `pairing_remove`; 1 is none of its cases
unfoldable pub answer_remove : ℕ → Response
answer_remove code =
    if code == 0
    then with_status changed
    else (if code == 2
        then with_status internal_server_error
        else (if code == 3
            then with_status not_modified
            else (if code == 4 then with_status bad_request else unset)))

module _ {S P M : Type 0} where
  abbrev with_device : Board S P M → ℕ → Device S → Board S P M
  with_device b i d = record b { devices = set b.devices i d }

  abbrev with_sensor : Board S P M → ℕ → Device S → Sensor → Board S P M
  with_sensor b i d s = with_device b i (record d { sensor = s })

  -- "postEvent"
  unfoldable pub put_event :
      Handlers S → Board S P M → ℕ → Device S → Request → Option (Response × Board S P M)
  put_event h b i d request = elim (h.eventhandler d request.payload) [
    | none ↦ none
    | some (ret, e) ↦ some (with_status (if ret == 0 then ok else bad_request), with_device b i e)
  ]

  -- "setCommand". Without a value the object that is sent is undefined.
  unfoldable pub put_command :
      Codec
      → (List ℕ → ℤ)
      → Handlers S
      → Board S P M
      → ℕ
      → Device S
      → List ℕ
      → Option (Response × Board S P M)
  put_command codec strtol h b i d command = elim (h.value d (strtol command)) [
    | none ↦ none
    | some (ret, e) ↦
        if ret == 0
        then elim (h.status e) [
          | none ↦ none
          | some o ↦
              some (with_payload (with_status ok) (cp_encode_object codec o), with_device b i e)
        ]
        else some (with_status bad_request, with_device b i e)
  ]

  -- "eventsetup"
  unfoldable pub put_eventsetup :
      Codec → Board S P M → ℕ → Device S → Request → Response × Board S P M
  put_eventsetup codec b i d request =
      if length request.payload == 0
      then (with_text bad_request "no payload in query", b)
      else (let r = suconfig codec d.sensor eventsetup_set request.payload in
          (
            with_status (elim (r.ret) [ pos zero ↦ changed | _ ↦ bad_request ]),
            with_sensor b i d r.sensor,
          ))

  module _ (codec : Codec) (cfs : Cfs) (can_open : Flash → Name → Bool)
      (mmem_free : M → List ℕ → M) where
    -- "pairRemoveIndex"
    unfoldable pub put_remove_index :
        Board S P M → Device S → Request → Option (Response × Board S P M)
    put_remove_index b d request =
        elim (pairing_remove codec cfs can_open (record { flash = b.flash; assembly = b.assembly })
          d.sensor request.payload) [
            | none ↦ none
            | some (ret, st) ↦
                some (answer_remove ret, record b { flash = st.flash; assembly = st.assembly })
          ]

    -- "pairRemoveAll"
    unfoldable pub put_remove_all : Board S P M → ℕ → Device S → Option (Response × Board S P M)
    put_remove_all b i d = elim (pairing_remove_all mmem_free b.mmem b.flash d.sensor) [
      | none ↦ none
      | some r ↦ some (
        with_status (if r.ret == 0 then changed else bad_request),
        record (with_sensor b i d r.device) { flash = r.flash; mmem = r.mmem },
      )
    ]

-- `store_SensorPair` of the message that `pairing_handle` stores, if it does
unfoldable pub store_messages :
    Codec → (Flash → Name → Bool) → Flash → Sensor → List (List ℕ) → Option Flash
store_messages codec can_open f s [] = some f
store_messages codec can_open f s (m ∷ ms) = elim (store_sensor_pair can_open codec f s m) [
  | none ↦ none
  | some g ↦ store_messages codec can_open g s ms
]

-- `block_of` is what `memb_alloc` leaves in the block that it gives.
module _ {S M : Type 0} (codec : Codec) (memb : Memb) (lists : Lists JoinPair)
    (mmem_alloc : M → ℕ → Option M) (block_of : memb.State → JoinPair)
    (can_open : Flash → Name → Bool) where
  -- the end of "join", with the whole message
  unfoldable pub finish_join :
      Response → Board S memb.State M → ℕ → Device S → Option (Response × Board S memb.State M)
  finish_join r b i d =
      let p : Pairing memb.State M = record {
        assembly = b.assembly;
        pool = b.pool;
        mmem = b.mmem;
        device = d.sensor;
        stored = [];
        posted = b.posted;
      } in
      elim (pairing_handle codec memb lists mmem_alloc p (block_of b.pool)) [
        | none ↦ none
        | some (code, t) ↦ elim (store_messages codec can_open b.flash d.sensor t.stored) [
          | none ↦ none
          | some f ↦ some (
            answer_join r code,
            record b {
              devices = set b.devices i (record d { sensor = t.device });
              flash = f;
              assembly = t.assembly;
              pool = t.pool;
              mmem = t.mmem;
              posted = t.posted;
            },
          )
        ]
      ]

  -- "join", for one block of the message. A block that is not stored leaves the response as it is.
  unfoldable pub put_join :
      Board S memb.State M → ℕ → Device S → Request → Option (Response × Board S memb.State M)
  put_join b i d request =
      let len = length request.payload in
      if len == 0
      then some (unset, b)
      else (if leb (request.block1_num * request.block1_size + len) large_update_store
          then elim (pairing_assemble_message b.assembly request.payload request.block1_num) [
            | none ↦ none
            | some (ret, a) ↦
                let c = record b { assembly = a } in
                let r =
                  if ret == 0
                  then record (with_status changed) {
                    block1 = some (request.block1_num, request.block1_size);
                  }
                  else unset in
                if request.block1_more then some (r, c) else finish_join r c i d
          ]
          else some (with_status request_entity_too_large, b))

  module _ (cfs : Cfs) (mmem_free : M → List ℕ → M) (strtol : List ℕ → ℤ) (has_sub_resources : ℕ)
      (handlers : Device S → Handlers S) where
    unfoldable pub put_later :
        Board S memb.State M
        → ℕ
        → Device S
        → Request
        → Option PutCommand
        → Option (Response × Board S memb.State M)
    put_later b i d request none = some (unset, b)
    put_later b i d request (some post_event) = put_event (handlers d) b i d request
    put_later b i d request (some eventsetup) = some (put_eventsetup codec b i d request)
    put_later b i d request (some pair_remove_index) =
        put_remove_index codec cfs can_open mmem_free b d request
    put_later b i d request (some pair_remove_all) =
        put_remove_all codec cfs can_open mmem_free b i d
    put_later b i d request (some join) = put_join b i d request

    unfoldable pub put_device :
        Board S memb.State M → ℕ → Device S → Request → Option (Response × Board S memb.State M)
    put_device b i d request =
        if length request.query == 0
        then some (unset, b)
        else elim (find_command first_commands request.query) [
          | some c ↦ put_later b i d request (some c)
          | none ↦ elim (request.set_command) [
            | some command ↦ put_command codec strtol (handlers d) b i d command
            | none ↦ put_later b i d request (find_command later_commands request.query)
          ]
        ]

    unfoldable pub res_susensor_puthandler :
        Board S memb.State M → Request → Option (Response × Board S memb.State M)
    res_susensor_puthandler b request =
        if request.is_octet_stream
        then elim (find_device has_sub_resources b.devices request.url (length request.url)) [
          | none ↦ some (unset, b)
          | some (i, d) ↦ put_device b i d request
        ]
        else some (with_text bad_request "msgPacked, octet-stream only", b)
