-- ===== src/Pairing/Flash/Restore.antt =====
-- sensorsUnleashed/pairing.c: `restore_SensorPairs`, which makes a device's pairs from its file at the start.
use contiki_device_link.Common.{
  ℕ, zero, suc, Bool, List, ◌∷◌, Option, none, some, if◌then◌else◌, ◌==◌, length, drop,
}
use contiki_device_link.Contiki.{Memb, Lists}
use contiki_device_link.Cmp.{Codec}
use contiki_device_link.Sensor.{JoinPair}
use contiki_device_link.Pairing.{ParseResult, Pairing, buffersize, parse_message}
use contiki_device_link.Pairing.Flash.{Name, Flash, pairs_file, open_read}
use contiki_device_link.Pairing.Flash.Remove.{refilled}

-- `block_of` is what `memb_alloc` leaves in the block that it gives.
module _ {M : Type 0} (codec : Codec) (memb : Memb) (lists : Lists JoinPair)
    (mmem_alloc : M → ℕ → Option M) (block_of : memb.State → JoinPair) where
  -- a record that was parsed, in the block that `pool` is left without
  unfoldable pub add_restored :
      Pairing memb.State M → memb.State → ParseResult M → Pairing memb.State M
  add_restored s pool r =
      if r.ret == 0
      then record s {
        pool = pool;
        mmem = r.mmem;
        device = record (s.device) { pairs = lists.list_add s.device.pairs r.pair };
        posted = r.pair ∷ s.posted;
      }
      else record s { pool = memb.memb_free pool; mmem = r.mmem }

  -- The loop: `none` if it is undefined, with no block left, or does not end within `rounds`.
  unfoldable pub restore_loop : ℕ → Pairing memb.State M → List ℕ → Option (Pairing memb.State M)
  restore_loop zero s bytes = none
  restore_loop (suc rounds) s bytes =
      let r = codec.read_bin s.assembly.bufsize bytes in
      elim (r.value) [
        | none ↦ some s
        | some v ↦
            let t = record s { assembly = refilled s.assembly v } in
            elim (memb.memb_alloc s.pool) [
              | none ↦ none
              | some pool ↦
                  elim (parse_message codec mmem_alloc (block_of s.pool) s.mmem t.assembly.buffer) [
                    | none ↦ none
                    | some p ↦ restore_loop rounds (add_restored t pool p) (drop r.used bytes)
                  ]
            ]
      ]

  unfoldable pub restored_from : Pairing memb.State M → List ℕ → Option (Pairing memb.State M)
  restored_from s bytes =
      restore_loop (suc (length bytes))
        (record s { assembly = record (s.assembly) { bufsize = buffersize } }) bytes

  -- `restore_SensorPairs`. The file is closed again, so the flash stays.
  unfoldable pub restore_sensor_pairs :
      (Flash → Name → Bool) → Flash → Pairing memb.State M → Option (Pairing memb.State M)
  restore_sensor_pairs can_open f s = elim (pairs_file 40 s.device) [
    | none ↦ none
    | some name ↦ elim (open_read can_open f name) [
      | none ↦ some s
      | some (g, bytes) ↦ elim (restored_from s bytes) [
        | none ↦ none
        | some t ↦ some (record t { assembly = record (t.assembly) { bufsize = 0 } })
      ]
    ]
  ]
