-- ===== src/ReverseNotify/Tests.antt =====
-- Runs and instances of the reverse notification with two nodes.
use contiki_device_link.Common.{ℕ, ◌≡◌, ◌≢◌, ◌<◌, get_elem?, refl, true, [], ◌∷◌, ◌++◌, some, arith}
use contiki_device_link.ReverseNotify.{
  Address, revlookups, Cfs, Sources, write_words, write_sources, init_reverse_notify, add_source,
}
use contiki_device_link.ReverseNotify.Save.{
  IsAddress, ReadsArrays, told_after, IsSaved, init_reverse_notify-IsSaved, add_source-IsSaved,
}
use contiki_device_link.Device.Tests.Fixtures.{three_bytes, blocks, appending}

truncating : Cfs
truncating = record { overwrite = λ old new. new; over_shorter = λ old new h. refl }

lawful : ReadsArrays three_bytes
lawful = record { reads_header = λ rest. refl; reads_word = λ w rest h. refl; ends = refl }

abbrev first : Address
first = 1 ∷ 2 ∷ 3 ∷ 4 ∷ 5 ∷ 6 ∷ 7 ∷ 8 ∷ []

abbrev second : Address
second = 9 ∷ 2 ∷ 3 ∷ 4 ∷ 5 ∷ 6 ∷ 7 ∷ 8 ∷ []

first-IsAddress : IsAddress first
first-IsAddress = ground arith

second-IsAddress : IsAddress second
second-IsAddress = ground arith

abbrev one_node : Sources ℕ
one_node = record { pool = 19; revlookup = first ∷ []; file = some (8 ∷ first); posted = [] }

one_node-IsSaved : IsSaved three_bytes blocks appending one_node
unfolding write_sources write_words
one_node-IsSaved = record { saved = refl; blocks_used = refl; words = (first-IsAddress, tt) }

init_reverse_notify-IsSaved_example :
    let t = init_reverse_notify three_bytes blocks appending 77 (some (8 ∷ first)) in
    (t.revlookup ≡ first ∷ []) × (t.posted ≡ told_after (first ∷ []) [])
init_reverse_notify-IsSaved_example =
    init_reverse_notify-IsSaved three_bytes blocks appending 77 one_node lawful one_node-IsSaved

add_source-IsSaved_example :
    let t = add_source three_bytes blocks appending truncating true one_node second in
    IsSaved three_bytes blocks appending t
    × ((i : ℕ) → get_elem? (first ∷ []) i ≡ some second → t ≡ one_node)
    × (1 ≡ revlookups → t ≡ one_node)
    × (((i : ℕ) → get_elem? (first ∷ []) i ≢ some second)
        → 1 < revlookups
        → t.revlookup ≡ (first ∷ []) ++ second ∷ [])
add_source-IsSaved_example =
    add_source-IsSaved three_bytes blocks appending truncating one_node second one_node-IsSaved
      second-IsAddress
