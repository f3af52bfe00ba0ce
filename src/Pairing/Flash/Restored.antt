-- ===== src/Pairing/Flash/Restored.antt =====
-- What `restore_SensorPairs` makes of the messages in a device's file.
use contiki_device_link.Common.{
  drop-append, ℕ, zero, suc, ◌+◌, ◌≤◌, ◌<◌, ◌≡◌, refl, sym, ap, ◌∙◌, Bool, true, List, [], ◌∷◌,
  ◌++◌, Option, some, leb, length, length-append, drop, arith, append_assoc, append-nil,
  Option-cases, subst, inl, inr,
}
use contiki_device_link.Contiki.{Memb, Lists}
use contiki_device_link.Cmp.{Codec}
use contiki_device_link.Sensor.{JoinPair}
use contiki_device_link.ReverseNotify.{content}
use contiki_device_link.Pairing.{Pairing, buffersize, parse_message}
use contiki_device_link.Pairing.Flash.{Name, Flash, pairs_, pairs_file, open_read}
use contiki_device_link.Pairing.Flash.Remove.{refilled}
use contiki_device_link.Pairing.Flash.Restore.{
  add_restored, restore_loop, restored_from, restore_sensor_pairs,
}
use contiki_device_link.Pairing.Flash.Scan.{ReadsBins, AllFit, written}
use contiki_device_link.Pairing.Flash.Stored.{IsKept}

-- the pairs in the order in which they were told, the latest first
abbrev pub told_after : List JoinPair → List JoinPair → List JoinPair
told_after [] before = before
told_after (p ∷ ps) before = told_after ps (p ∷ before)

module _ {M : Type 0} (codec : Codec) (memb : Memb) (lists : Lists JoinPair)
    (mmem_alloc : M → ℕ → Option M) (fresh : JoinPair) where
  -- The messages are parsed to the pairs one after the other, in blocks that hold `fresh`, whatever follows each of
  -- them in the buffer: the strings of each pair have room in the memory that the ones before left.
  abbrev pub AllParsed : M → List (List ℕ) → List JoinPair → Type 0
  AllParsed mem [] [] = Unit
  AllParsed mem [] (p ∷ ps) = ⊥
  AllParsed mem (m ∷ ms) [] = ⊥
  AllParsed mem (m ∷ ms) (p ∷ ps) =
      (left : M) × ((rest : List ℕ)
        → parse_message codec mmem_alloc fresh mem (m ++ rest)
          ≡ some (record { ret = 0; pair = p; mmem = left }))
      × AllParsed left ms ps

  abbrev State : Type 0
  State = Pairing memb.State M

  -- `t` has the pairs `ps` behind those of `s`, in a block each, and told to the process.
  pub record IsRestored (s : State) (ps : List JoinPair) (t : State) : Type 0 where
    pub pairs : t.device.pairs ≡ s.device.pairs ++ ps
    pub told : t.posted ≡ told_after ps s.posted
    pub blocks : memb.free_blocks t.pool + length ps ≡ memb.free_blocks s.pool

  unchanged : (s : State) → IsRestored s [] s
  unchanged s = record {
    pairs = sym (append-nil s.device.pairs);
    told = refl;
    blocks = omega arith;
  }

  restore_loop-IsRestored :
      ReadsBins codec
      → (ms : List (List ℕ)) (ps : List JoinPair) (s : State) (rounds : ℕ)
      → s.assembly.bufsize ≡ buffersize
      → AllFit ms
      → AllParsed s.mmem ms ps
      → length ps ≤ memb.free_blocks s.pool
      → length (written codec ms) < rounds
      → (t : State) × (restore_loop codec memb lists mmem_alloc
            (λ pool. fresh)
            rounds
            s
            (written codec ms)
          ≡ some t)
        × IsRestored s ps t
  unfolding restore_loop written add_restored
  restore_loop-IsRestored law ms ps s zero full fit parsed free enough =
      absurd (omega (arith, enough))
  restore_loop-IsRestored law [] (p ∷ ps) s (suc rounds) full fit parsed free enough = absurd parsed
  restore_loop-IsRestored law (m ∷ ms) [] s (suc rounds) full fit parsed free enough = absurd parsed
  restore_loop-IsRestored law [] [] s (suc rounds) full fit parsed free enough =
      (s, rw (law.ends s.assembly.bufsize, restore_loop) refl, unchanged s)
  restore_loop-IsRestored law (m ∷ ms) (p ∷ ps) s (suc rounds) full fit parsed free enough =
      let (pool, gives, fewer) = memb.alloc_block s.pool (omega (arith, free)) in
      let (left, parses, later) = parsed in
      let ran = parses (drop (length m) s.assembly.buffer) in
      let read = law.reads s.assembly.bufsize m (written codec ms) (omega (arith, full, fit.0)) in
      let next : State = record s {
        assembly = refilled s.assembly m;
        pool = pool;
        mmem = left;
        device = record (s.device) { pairs = lists.list_add s.device.pairs p };
        posted = p ∷ s.posted;
      } in
      let (t, rest, h) =
        restore_loop-IsRestored law ms ps next rounds refl fit.1 later (omega (arith, free, fewer))
          (omega
            (arith, enough, law.marked m, length-append (codec.write_bin m) (written codec ms))) in
      (
        t,
        rw (read, restore_loop)
            (rw gives
              (rw ran (rw read (rw (drop-append (codec.write_bin m) (written codec ms)) rest)))),
        record {
          pairs =
              h.pairs
              ∙ (ap (λ l. l ++ ps) (lists.add_end s.device.pairs p)
                  ∙ append_assoc s.device.pairs (p ∷ []) ps);
          told = h.told;
          blocks = omega (arith, h.blocks, fewer);
        },
      )

  restored_from-IsRestored :
      ReadsBins codec
      → (ms : List (List ℕ)) (ps : List JoinPair) (s : State) → AllFit ms
      → AllParsed s.mmem ms ps
      → length ps ≤ memb.free_blocks s.pool
      → (t : State) × (restored_from codec memb lists mmem_alloc
            (λ pool. fresh)
            s
            (written codec ms)
          ≡ some t)
        × IsRestored s ps t
  unfolding restored_from
  restored_from-IsRestored law ms ps s fit parsed free =
      let (t, ran, h) =
        restore_loop-IsRestored law ms ps
          (record s { assembly = record (s.assembly) { bufsize = buffersize } })
          (suc (length (written codec ms))) refl fit parsed free (omega arith) in
      (t, ran, record { pairs = h.pairs; told = h.told; blocks = h.blocks })

  nothing_parsed :
      ReadsBins codec
      → (mem : M) (ms : List (List ℕ)) (ps : List JoinPair) → [] ≡ written codec ms
      → AllParsed mem ms ps
      → ps ≡ []
  unfolding written
  nothing_parsed law mem [] [] e parsed = refl
  nothing_parsed law mem [] (p ∷ ps) e parsed = absurd parsed
  nothing_parsed law mem (m ∷ ms) ps e parsed = absurd (
      omega
        (arith, ap length e, law.marked m, length-append (codec.write_bin m) (written codec ms)))

  -- A device with a type of at most 23 characters, whose file can be opened and holds, as they are stored, messages
  -- that are parsed to pairs one after the other, each in a block that the start finds cleared and with room for
  -- its strings in the memory that the ones before left, as many as there are free blocks at most, has these
  -- pairs after it: the loop ends, they are behind the device's pairs in their order, each in a block of
  -- its own and told to the process, and the buffer is free if there are any.
  pub restore_sensor_pairs-IsRestored :
      ReadsBins codec
      → (can_open : Flash → Name → Bool)
      → (f : Flash) (ms : List (List ℕ)) (ps : List JoinPair) (s : State)
      → length s.device.type + 7 ≤ 30
      → can_open f (pairs_ ++ s.device.type) ≡ true
      → IsKept codec (pairs_ ++ s.device.type) f ms
      → AllParsed s.mmem ms ps
      → length ps ≤ memb.free_blocks s.pool
      → (t : State) × (restore_sensor_pairs codec memb lists mmem_alloc (λ pool. fresh) can_open f s
          ≡ some t)
        × (0 < length ps → t.assembly.bufsize ≡ 0)
        × IsRestored s ps t
  unfolding restore_sensor_pairs pairs_file open_read
  restore_sensor_pairs-IsRestored law can_open f ms ps s named opens keeps parsed free =
      let room : leb (length s.device.type + 7) 40 ≡ true = ground (arith, named) in
      elim (Option-cases (f.files (pairs_ ++ s.device.type))) [
        | inl absent ↦
            let none_left : ps ≡ [] =
              nothing_parsed law s.mmem ms ps (ap content (sym absent) ∙ keeps.holds) parsed in
            (
              s,
              rw (room, restore_sensor_pairs) (rw absent refl),
              (λ some_pairs. absurd (omega (arith, some_pairs, ap length none_left))),
              subst (λ qs. IsRestored s qs s) (sym none_left) (unchanged s),
            )
        | inr (bytes, present) ↦
            let held : bytes ≡ written codec ms = sym (ap content present) ∙ keeps.holds in
            let (t, ran, h) = restored_from-IsRestored law ms ps s keeps.fit parsed free in
            (
              record t { assembly = record (t.assembly) { bufsize = 0 } },
              rw (room, restore_sensor_pairs) (rw (present) (rw opens (rw held (rw ran refl)))),
              (λ some_pairs. refl),
              record { pairs = h.pairs; told = h.told; blocks = h.blocks },
            )
      ]
