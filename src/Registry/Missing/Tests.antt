-- ===== src/Registry/Missing/Tests.antt =====
-- Runs of the search for nodes that do not answer.
use contiki_device_link.Common.{
  ℕ, ◌%◌, ◌<◌, ◌≡◌, ◌↔◌, refl, false, List, [], ◌∷◌, ◌++◌, some, none, not, arith, replicate,
  length, drop,
}
use contiki_device_link.Common.Int.{pos, negsuc}
use contiki_device_link.Contiki.{PointerLists, without}
use contiki_device_link.Sensor.{JoinPair}
use contiki_device_link.ReverseNotify.{Address, same_address}
use contiki_device_link.Device.Tests.Fixtures.{three_bytes}
use contiki_device_link.Registry.Pair.{filter, notification_ok}
use contiki_device_link.Registry.Missing.{
  Detection, add_missing, other_node, read_ip_words, nodedetected_callback, nodediscuri,
}
use contiki_device_link.Registry.Missing.Detected.{to_node, nodedetected_callback-filter}

abbrev plain_lists : PointerLists
plain_lists = record {
  list_add = λ xs x. without xs x ++ x ∷ [];
  list_remove = without;
  remove_lem = λ xs x. refl;
  add_lem = λ xs x. refl;
}

-- the pairs with an even pointer are to one node, the others to another one
abbrev memory : ℕ → JoinPair
memory p = record {
  dsturl = 97 ∷ [];
  dsturl_above = none;
  dsturl_below = none;
  dsturl_change = none;
  srcurl = 98 ∷ [];
  triggers = pos 2 ∷ negsuc 0 ∷ negsuc 0 ∷ [];
  destip = replicate 8 (p % 2);
}

-- With pairs to two nodes in the list, the answer for a third pair is that the search has to start, though its node is
-- looked for already.
add_missing_again : add_missing plain_lists memory (2 ∷ 3 ∷ []) 4 ≡ (1, 2 ∷ 3 ∷ 4 ∷ [])
unfolding add_missing other_node same_address without
add_missing_again = refl

-- fd81::212:4b00:60d:9aa4
nodediscuri_text :
    nodediscuri (0 ∷ 0 ∷ 0 ∷ 0 ∷ 0x1202 ∷ 0x004b ∷ 0x0d06 ∷ 0xa49a ∷ [])
    ≡ 48 ∷ 50 ∷ 49 ∷ 50 ∷ 58 ∷ 52 ∷ 98 ∷ 48 ∷ 48 ∷ 58 ∷ 48 ∷ 54 ∷ 48 ∷ 100 ∷ 58 ∷ 57 ∷ 97 ∷ 97 ∷ 52
      ∷ []
unfolding nodediscuri
nodediscuri_text = refl

abbrev payload : List ℕ
payload = 8 ∷ replicate 8 1

abbrev missing : List ℕ
missing = 2 ∷ 3 ∷ 5 ∷ 4 ∷ []

nodedetected_callback-filter_example :
    (a : Address) × (d : Detection) × (read_ip_words three_bytes 8 (replicate 8 9) (drop 1 payload)
      ≡ some a)
    × (nodedetected_callback plain_lists three_bytes memory
          (replicate 8 9)
          notification_ok
          payload
          missing
        ≡ some d)
    × (d.posted ≡ filter (to_node memory a) missing)
    × (d.missing ≡ filter (λ q. not (to_node memory a q)) missing)
    × ((d.removed ≡ false) ↔ (0 < length d.missing))
nodedetected_callback-filter_example =
    nodedetected_callback-filter plain_lists three_bytes memory (replicate 8 9) payload missing 8
      refl (omega arith) refl
