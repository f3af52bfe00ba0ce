-- ===== src/Pairing/Flash/Remove.antt =====
-- sensorsUnleashed/pairing.c: `pairing_remove`, which copies the pairs that stay to a file "temp" and back.
use contiki_device_link.Common.{
  ℕ, zero, suc, ◌+◌, Bool, false, List, [], ◌∷◌, ◌++◌, Option, none, some, if◌then◌else◌, ◌==◌,
  length, drop,
}
use contiki_device_link.Cmp.{Codec}
use contiki_device_link.Sensor.{Sensor}
use contiki_device_link.ReverseNotify.{Cfs, content}
use contiki_device_link.Pairing.{Assembly, buffersize, stored_over}
use contiki_device_link.Pairing.Flash.{
  Name, Flash, put, temp, pairs_file, open_read, open_write, cfs_close,
}

-- what a loop over a file gives: the bytes it wrote, the bytes it read, and the static buffer
pub record Copied : Type 0 where
  pub written : List ℕ
  pub offset : ℕ
  pub assembly : Assembly

-- `if(--indexlen > 0) index++`
unfoldable pub next_index : List ℕ → List ℕ
next_index [] = []
next_index (i ∷ []) = i ∷ []
next_index (i ∷ j ∷ is) = j ∷ is

-- `buffer` and `bufsize` after a record was read into them and the limit was set again
abbrev pub refilled : Assembly → List ℕ → Assembly
refilled a v = record { buffer = stored_over v a.buffer; bufsize = buffersize }

module _ (codec : Codec) where
  -- the indexes, `n` of them; `none` if one cannot be read
  unfoldable pub read_indexes : ℕ → List ℕ → Option (List ℕ)
  read_indexes zero bytes = some []
  read_indexes (suc n) bytes =
      let r = codec.read_u8 bytes in
      let rest = read_indexes n (drop r.used bytes) in
      elim (r.value) [ none ↦ none | some i ↦ elim rest [ none ↦ none | some is ↦ some (i ∷ is) ] ]

  -- what a round of the first loop does with the rest of it
  unfoldable pub keep_record : Bool → List ℕ → ℕ → Option Copied → Option Copied
  keep_record unwanted v used none = none
  keep_record unwanted v used (some t) = some (record t {
    written = (if unwanted then [] else codec.write_bin v) ++ t.written;
    offset = used + t.offset;
  })

  -- The first loop, with the indexes from `*index` on: `*index` of no index is undefined. A loop that
  -- does not end within `rounds` is `none`.
  unfoldable pub copy_wanted : ℕ → ℕ → List ℕ → Assembly → List ℕ → Option Copied
  unfolding next_index keep_record
  copy_wanted zero current index a bytes = none
  copy_wanted (suc rounds) current index a bytes =
      let r = codec.read_bin a.bufsize bytes in
      elim (r.value) [
        | none ↦ some (record { written = []; offset = r.used; assembly = a })
        | some v ↦ elim index [
          | [] ↦ none
          | i ∷ is ↦ keep_record (current == i) v r.used (
              copy_wanted rounds (current + 1)
                (if current == i then next_index (i ∷ is) else i ∷ is) (refilled a v)
                (drop r.used bytes))
        ]
      ]

  -- the second loop, from "temp" back
  unfoldable pub copy_back : ℕ → Assembly → List ℕ → Option Copied
  unfolding keep_record
  copy_back zero a bytes = none
  copy_back (suc rounds) a bytes =
      let r = codec.read_bin a.bufsize bytes in
      elim (r.value) [
        | none ↦ some (record { written = []; offset = r.used; assembly = a })
        | some v ↦ keep_record false v r.used (copy_back rounds (refilled a v) (drop r.used bytes))
      ]

  -- The loops over a whole file: every record is at least a byte, so its size gives enough rounds.
  unfoldable pub copied_wanted : List ℕ → Assembly → List ℕ → Option Copied
  copied_wanted index a bytes = copy_wanted (suc (length bytes)) 0 index a bytes

  unfoldable pub copied_back : Assembly → List ℕ → Option Copied
  copied_back a bytes = copy_back (suc (length bytes)) a bytes

pub record Store : Type 0 where
  pub flash : Flash
  pub assembly : Assembly

module _ (codec : Codec) (cfs : Cfs) (can_open : Flash → Name → Bool) where
  -- from `cfs_remove(filename)` on; `f` has "temp" open
  unfoldable pub write_back : Name → Flash → Assembly → Option (ℕ × Store)
  write_back name f a = elim (open_write can_open (put f name none) name) [
    | none ↦ some (1, record { flash = put f name none; assembly = a })
    | some (g, old) ↦ elim (copied_back codec a (content (g.files temp))) [
      | none ↦ none
      | some t ↦
          let h = put g name (some (cfs.overwrite old t.written)) in
          some (
            0,
            record {
              flash = put (cfs_close (cfs_close h)) temp none;
              assembly = record (t.assembly) { bufsize = 0 };
            },
          )
    ]
  ]

  -- The first loop and what follows, with both files open. An empty file leaves "temp" open.
  unfoldable pub remove_indexes :
      Name → Flash → Assembly → List ℕ → List ℕ → List ℕ → Option (ℕ × Store)
  remove_indexes name f a pairs old index =
      let start : Assembly = record a { bufsize = buffersize } in
      elim (copied_wanted codec index start pairs) [
        | none ↦ none
        | some t ↦
            let g = cfs_close (put f temp (some (cfs.overwrite old t.written))) in
            if t.offset == 0
            then some (3, record { flash = g; assembly = t.assembly })
            else write_back name g t.assembly
      ]

  -- `pairing_remove` with the file `name`
  unfoldable pub remove_from : Name → Store → List ℕ → Option (ℕ × Store)
  remove_from name st indexbuffer = elim (open_read can_open st.flash name) [
    | none ↦ some (1, st)
    | some (f, pairs) ↦ elim (open_write can_open f temp) [
      | none ↦ some (2, record st { flash = cfs_close f })
      | some (g, old) ↦
          let header = codec.read_array indexbuffer in
          let malformed : ℕ × Store = (4, record st { flash = cfs_close (cfs_close g) }) in
          elim (header.value) [
            | none ↦ some malformed
            | some indexlen ↦ elim (read_indexes codec indexlen (drop header.used indexbuffer)) [
              | none ↦ some malformed
              | some index ↦ remove_indexes name g st.assembly pairs old index
            ]
          ]
    ]
  ]

  -- `pairing_remove`, for the device `s`
  unfoldable pub pairing_remove : Store → Sensor → List ℕ → Option (ℕ × Store)
  pairing_remove st s indexbuffer = elim (pairs_file 30 s) [
    | none ↦ none
    | some name ↦ remove_from name st indexbuffer
  ]
