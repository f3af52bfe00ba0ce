-- ===== src/Registry/Missing.antt =====
-- sensorsUnleashed/lib/susensors.c with USE_BR_DETECT: the pairs whose node does not answer, and what is done when the
-- border router has detected a node. A pair is a pointer, and `memory` what it points to. `none` is
-- a write behind the end of an array.
pub mod Detected
pub mod Tests
use contiki_device_link.Common.{
  ℕ, zero, suc, ◌+◌, ◌*◌, ◌/◌, ◌%◌, Bool, true, false, List, [], ◌∷◌, ◌++◌, Option, none, some,
  if◌then◌else◌, ◌==◌, ltb, length, drop, get_or,
}
use contiki_device_link.Contiki.{PointerLists}
use contiki_device_link.Cmp.{Codec}
use contiki_device_link.Sensor.{JoinPair}
use contiki_device_link.ReverseNotify.{Address, same_address}
use contiki_device_link.Registry.Pair.{Flag, no_reply_from_server, notification_ok}

-- whether the loop of `addMissing` meets a pair to another node
unfoldable pub other_node : (ℕ → JoinPair) → List ℕ → ℕ → Bool
other_node memory [] pair = false
other_node memory (i ∷ is) pair =
    let rest = other_node memory is pair in
    if same_address (memory pair).destip (memory i).destip then rest else true

-- `addMissing`: its answer, and the list `missing`. The loop ends with the first pair to another node, after it has
-- added the pair.
unfoldable pub add_missing : PointerLists → (ℕ → JoinPair) → List ℕ → ℕ → ℕ × List ℕ
add_missing lists memory missing pair =
    if length missing == 0
    then (1, lists.list_add missing pair)
    else (if other_node memory missing pair
        then (1, lists.list_add (lists.list_add missing pair) pair)
        else (0, lists.list_add missing pair))

-- what `notification_callback` does with the list: the answer of `addMissing` is not used
unfoldable pub notification_callback : PointerLists → (ℕ → JoinPair) → Flag → List ℕ → ℕ → List ℕ
notification_callback lists memory no_reply_from_server missing pair =
    (add_missing lists memory missing pair).1
notification_callback lists memory _ missing pair = missing

-- `findFromMissing`
unfoldable pub find_from_missing : (ℕ → JoinPair) → List ℕ → Address → Option ℕ
find_from_missing memory [] destip = none
find_from_missing memory (i ∷ is) destip =
    let rest = find_from_missing memory is destip in
    if same_address (memory i).destip destip then some i else rest

-- The loop of `nodedetected_callback` over the pairs to a node, in so many rounds: the pairs that are posted to the
-- process, and the list that is left.
unfoldable pub call_missing :
    PointerLists → (ℕ → JoinPair) → ℕ → List ℕ → Address → Option (List ℕ × List ℕ)
call_missing lists memory zero missing destip = none
call_missing lists memory (suc rounds) missing destip =
    elim (find_from_missing memory missing destip) [
      | none ↦ some ([], missing)
      | some pair ↦
          elim (call_missing lists memory rounds (lists.list_remove missing pair) destip) [
            | none ↦ none
            | some (posted, left) ↦ some (pair ∷ posted, left)
          ]
    ]

-- `size` words of an address: a word that is not read stays what it was, and only eight have a place.
unfoldable pub read_ip_words : Codec → ℕ → List ℕ → List ℕ → Option Address
read_ip_words codec zero stale buffer = some stale
read_ip_words codec (suc size) [] buffer = none
read_ip_words codec (suc size) (word ∷ stale) buffer =
    let r = codec.read_u16 buffer in
    elim (read_ip_words codec size stale (drop r.used buffer)) [
      | none ↦ none
      | some rest ↦ some ((elim (r.value) [ none ↦ word | some v ↦ v ]) ∷ rest)
    ]

-- What the callback leaves: the pairs that are posted, the list `missing`, and whether the observation of the
-- border router is removed.
pub record Detection : Type 0 where
  pub posted : List ℕ
  pub missing : List ℕ
  pub removed : Bool

unfoldable pub detected : PointerLists → (ℕ → JoinPair) → List ℕ → Address → Option Detection
detected lists memory missing destip =
    elim (call_missing lists memory (length missing + 1) missing destip) [
      | none ↦ none
      | some (posted, left) ↦
          some (record { posted = posted; missing = left; removed = length left == 0 })
    ]

-- `nodedetected_callback`; `stale` is what the eight words of `destip` held.
unfoldable pub nodedetected_callback :
    PointerLists → Codec → (ℕ → JoinPair) → List ℕ → Flag → List ℕ → List ℕ → Option Detection
nodedetected_callback lists codec memory stale notification_ok payload missing =
    let r = codec.read_array payload in
    elim (r.value) [
      | none ↦ some (record { posted = []; missing = missing; removed = true })
      | some size ↦ elim (read_ip_words codec size stale (drop r.used payload)) [
        | none ↦ none
        | some destip ↦ detected lists memory missing destip
      ]
    ]
nodedetected_callback lists codec memory stale _ payload missing =
    some (record { posted = []; missing = missing; removed = false })

-- a digit of `%x`
abbrev hex_digit : ℕ → ℕ
hex_digit n = if ltb n 10 then 48 + n else 87 + n

-- `%02x%02x` of the two bytes of a word, which lie the lower one first
abbrev hex_word : ℕ → List ℕ
hex_word w =
    hex_digit (w % 256 / 16)
    ∷ hex_digit (w % 16)
    ∷ hex_digit (w / 256 / 16)
    ∷ hex_digit (w / 256 % 16)
    ∷ []

-- `nodediscuri` of the process's branch for `susensors_service`: the last 64 bits of the pair's address
unfoldable pub nodediscuri : Address → List ℕ
nodediscuri addr =
    hex_word (get_or addr 4 0)
    ++ 58 ∷ hex_word (get_or addr 5 0)
    ++ 58 ∷ hex_word (get_or addr 6 0)
    ++ 58 ∷ hex_word (get_or addr 7 0)
