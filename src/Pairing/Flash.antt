-- ===== src/Pairing/Flash.antt =====
-- sensorsUnleashed/pairing.c: the file in which a device's pairs are kept, and what appends to it, reads it in
-- parts and removes it. Contiki's flash file system is `Flash` with the interface `Cfs`; a file
-- is the list of its bytes.
pub mod Remove
pub mod Scan
pub mod Stored
pub mod Refines
pub mod Restore
pub mod Restored
pub mod Parts
pub mod Tests
use contiki_device_link.Common.{
  ℕ, zero, suc, ◌+◌, ◌-◌, Bool, true, false, ◌&&◌, List, [], ◌∷◌, ◌++◌, Option, none, some,
  if◌then◌else◌, ◌==◌, leb, length, take, drop,
}
use contiki_device_link.Cmp.{Codec}
use contiki_device_link.Sensor.{JoinPair, Sensor}
use contiki_device_link.ReverseNotify.{Cfs, content}

abbrev pub Name : Type 0
Name = List ℕ

unfoldable pub equal_name : Name → Name → Bool
equal_name [] [] = true
equal_name [] (y ∷ ys) = false
equal_name (x ∷ xs) [] = false
equal_name (x ∷ xs) (y ∷ ys) = x == y && equal_name xs ys

-- the files by their names, and how many descriptors are open
pub record Flash : Type 0 where
  pub files : Name → Option (List ℕ)
  pub opened : ℕ

abbrev pub put : Flash → Name → Option (List ℕ) → Flash
put f name c = record f { files = λ n. if equal_name n name then c else f.files n }

-- "pairs_" and "temp"
abbrev pub pairs_ : Name
pairs_ = 112 ∷ 97 ∷ 105 ∷ 114 ∷ 115 ∷ 95 ∷ []

abbrev pub temp : Name
temp = 116 ∷ 101 ∷ 109 ∷ 112 ∷ []

-- `sprintf(filename, "pairs_%s", s->type)` into an array of `size` characters
unfoldable pub pairs_file : ℕ → Sensor → Option Name
pairs_file size s = if leb (length s.type + 7) size then some (pairs_ ++ s.type) else none

-- `cfs_open` needs a descriptor, which `can_open` tells. To read, the file must exist; to write, it is
-- created if there is none.
module _ (can_open : Flash → Name → Bool) where
  unfoldable pub open_read : Flash → Name → Option (Flash × List ℕ)
  open_read f name = elim (f.files name) [
    | none ↦ none
    | some bytes ↦
        if can_open f name then some (record f { opened = f.opened + 1 }, bytes) else none
  ]

  unfoldable pub open_write : Flash → Name → Option (Flash × List ℕ)
  open_write f name =
      let old = content (f.files name) in
      if can_open f name
      then some (record (put f name (some old)) { opened = f.opened + 1 }, old)
      else none

abbrev pub cfs_close : Flash → Flash
cfs_close f = record f { opened = f.opened - 1 }

-- what a call of `pairing_getlist` gives: `none` for -1
pub record Part : Type 0 where
  pub ret : Option ℕ
  pub buffer : List ℕ
  pub offset : ℕ

module _ (can_open : Flash → Name → Bool) where
  -- `pairing_getlist`; a file is closed again, so the flash stays.
  unfoldable pub pairing_getlist : Flash → Sensor → ℕ → ℕ → Option Part
  pairing_getlist f s len offset = elim (pairs_file 30 s) [
    | none ↦ none
    | some name ↦ elim (open_read can_open f name) [
      | none ↦ some (record { ret = none; buffer = []; offset = offset })
      | some (g, bytes) ↦
          let part = take len (drop offset bytes) in
          some (record { ret = some (length part); buffer = part; offset = offset + length part })
    ]
  ]

  -- `store_SensorPair`: behind what the file holds
  unfoldable pub store_sensor_pair : Codec → Flash → Sensor → List ℕ → Option Flash
  store_sensor_pair codec f s bytes = elim (pairs_file 30 s) [
    | none ↦ none
    | some name ↦ elim (open_write can_open f name) [
      | none ↦ some f
      | some (g, old) ↦ some (cfs_close (put g name (some (old ++ codec.write_bin bytes))))
    ]
  ]

-- `mmem_free` of the two URLs of every pair
unfoldable pub free_urls : {M : Type 0} → (M → List ℕ → M) → M → List JoinPair → M
free_urls mmem_free m [] = m
free_urls mmem_free m (p ∷ ps) = free_urls mmem_free (mmem_free (mmem_free m p.dsturl) p.srcurl) ps

pub record Removed (M : Type 0) : Type 0 where
  pub ret : ℕ
  pub device : Sensor
  pub mmem : M
  pub flash : Flash

-- `pairing_remove_all`. `cfs_remove` gives -1, which is 255 as the result, if there is no file. The blocks
-- of the pairs do not go back to their pool.
unfoldable pub pairing_remove_all :
    {M : Type 0} → (M → List ℕ → M) → M → Flash → Sensor → Option (Removed M)
unfolding pairs_file free_urls
pairing_remove_all mmem_free m f s = elim (pairs_file 30 s) [
  | none ↦ none
  | some name ↦ some (record {
    ret = (elim (f.files name) [ none ↦ 255 | some bytes ↦ 0 ]);
    device = record s { pairs = [] };
    mmem = free_urls mmem_free m s.pairs;
    flash = put f name none;
  })
]
