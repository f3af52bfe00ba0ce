-- ===== src/Pairing/Flash/Refines.antt =====
-- The operations of pairing.c on a device's file, against a list of messages from which some are taken by
-- their numbers.
use contiki_device_link.Common.{
  drop-append, ℕ, suc, ◌+◌, ◌≤◌, ◌<◌, ◌≡◌, refl, sym, ap, ◌∙◌, Bool, true, false, List, [], ◌∷◌,
  ◌++◌, Option, none, some, leb, length, length-append, arith, Option-cases, inl, inr, subst,
}
use contiki_device_link.Cmp.{Codec}
use contiki_device_link.Sensor.{Sensor}
use contiki_device_link.ReverseNotify.{Cfs, content}
use contiki_device_link.Pairing.{buffersize}
use contiki_device_link.Pairing.Flash.{
  Name, Flash, put, temp, pairs_, pairs_file, equal_name, open_read, open_write, store_sensor_pair,
  pairing_remove_all, free_urls, cfs_close,
}
use contiki_device_link.Pairing.Flash.Remove.{Store, read_indexes, remove_from, pairing_remove}
use contiki_device_link.Pairing.Flash.Scan.{
  ReadsBins, AllFit, is_ordered, without, written, written-append,
}
use contiki_device_link.Pairing.Flash.Stored.{
  IsKept, removal_code, remove_indexes-IsKept, equal_name_refl,
}

-- What the MessagePack library documents of the array of indexes in a request.
pub record ReadsIndexes (codec : Codec) : Type 0 where
  pub reads_count :
      (n : ℕ) (rest : List ℕ)
      → n < 256
      → codec.read_array (codec.write_array n ++ rest)
        ≡ record { value = some n; used = length (codec.write_array n) }
  pub reads_index :
      (i : ℕ) (rest : List ℕ)
      → i < 256
      → codec.read_u8 (codec.write_u8 i ++ rest)
        ≡ record { value = some i; used = length (codec.write_u8 i) }

abbrev pub AllBytes : List ℕ → Type 0
AllBytes [] = Unit
AllBytes (i ∷ is) = (i < 256) × AllBytes is

-- what is asked of a device's pairs
pub data Command : Type 0 where
  store : List ℕ → Command
  remove : List ℕ → Command
  remove_all : Command

-- A message fits the buffer. The indexes of a removal ascend, and there is one at least.
abbrev pub IsProper : Command → Type 0
IsProper (store m) = length m ≤ buffersize
IsProper (remove is) = (0 < length is) × (length is < 256) × (is_ordered is ≡ true) × AllBytes is
IsProper remove_all = Unit

abbrev pub AllProper : List Command → Type 0
AllProper [] = Unit
AllProper (c ∷ cs) = IsProper c × AllProper cs

-- what it means for the list of messages
pub obey : List (List ℕ) → Command → List (List ℕ)
obey ms (store m) = ms ++ m ∷ []
obey ms (remove is) = without is 0 ms
obey ms remove_all = []

pub obey_all : List (List ℕ) → List Command → List (List ℕ)
obey_all ms [] = ms
obey_all ms (c ∷ cs) = obey_all (obey ms c) cs

pub record Node (M : Type 0) : Type 0 where
  pub kept : Store
  pub device : Sensor
  pub mmem : M

module _ (codec : Codec) where
  abbrev pub index_bytes : List ℕ → List ℕ
  index_bytes [] = []
  index_bytes (i ∷ is) = codec.write_u8 i ++ index_bytes is

  -- the payload of a removal
  abbrev pub payload : List ℕ → List ℕ
  payload is = codec.write_array (length is) ++ index_bytes is

  read_indexes_lem :
      (is : List ℕ)
      → ReadsIndexes codec
      → AllBytes is
      → read_indexes codec (length is) (index_bytes is) ≡ some is
  unfolding read_indexes
  read_indexes_lem [] law small = refl
  read_indexes_lem (i ∷ is) law small = rw (law.reads_index i (index_bytes is) small.0) (
      rw (law.reads_index i (index_bytes is) small.0) (
        rw (drop-append (codec.write_u8 i) (index_bytes is))
          (rw (read_indexes_lem is law small.1) refl)))

  no_messages : (ms : List (List ℕ)) → ReadsBins codec → [] ≡ written codec ms → ms ≡ []
  unfolding written
  no_messages [] law e = refl
  no_messages (m ∷ ms) law e = absurd (
      omega
        (arith, ap length e, law.marked m, length-append (codec.write_bin m) (written codec ms)))

AllFit-append :
    (ms : List (List ℕ)) (m : List ℕ) → AllFit ms → length m ≤ buffersize → AllFit (ms ++ m ∷ [])
AllFit-append [] m fit fits = (fits, tt)
AllFit-append (n ∷ ms) m fit fits = (fit.0, AllFit-append ms m fit.1 fits)

module _ {M : Type 0} (codec : Codec) (cfs : Cfs) (can_open : Flash → Name → Bool)
    (mmem_free : M → List ℕ → M) where
  -- what the code does for a command
  pub perform : Node M → Command → Option (Node M)
  perform n (store m) = elim (store_sensor_pair can_open codec n.kept.flash n.device m) [
    | none ↦ none
    | some f ↦ some (record n { kept = record (n.kept) { flash = f } })
  ]
  perform n (remove is) =
      elim (pairing_remove codec cfs can_open n.kept n.device (payload codec is)) [
        | none ↦ none
        | some (ret, st) ↦ some (record n { kept = st })
      ]
  perform n remove_all = elim (pairing_remove_all mmem_free n.mmem n.kept.flash n.device) [
    | none ↦ none
    | some r ↦
        some
          (record { kept = record (n.kept) { flash = r.flash }; device = r.device; mmem = r.mmem })
  ]

  pub perform_all : Node M → List Command → Option (Node M)
  perform_all n [] = some n
  perform_all n (c ∷ cs) = elim (perform n c) [ none ↦ none | some t ↦ perform_all t cs ]

  -- The name of the device's file has room in its array, and the file holds the messages.
  pub record IsNode (n : Node M) (ms : List (List ℕ)) : Type 0 where
    pub named : length n.device.type + 7 ≤ 30
    pub keeps : IsKept codec (pairs_ ++ n.device.type) n.kept.flash ms

  module _ (bins : ReadsBins codec) (indexes : ReadsIndexes codec)
      (opens : (f : Flash) (n : Name) → can_open f n ≡ true) where
    remove_from-IsKept :
        (name : Name)
        → equal_name name temp ≡ false
        → equal_name temp name ≡ false
        → (st : Store) (i : ℕ) (is : List ℕ) (ms : List (List ℕ)) → IsProper (remove (i ∷ is))
        → IsKept codec name st.flash ms
        → (ret : ℕ) × (t : Store) × (remove_from codec cfs can_open name st (payload codec (i ∷ is))
            ≡ some (ret, t))
          × IsKept codec name t.flash (without (i ∷ is) 0 ms)
    unfolding remove_from open_read open_write
    remove_from-IsKept name name_temp temp_name st i is ms proper keeps =
        let h = indexes.reads_count (suc (length is)) (index_bytes codec (i ∷ is)) proper.1 in
        elim (Option-cases (st.flash.files name)) [
          | inl absent ↦
              let none_left : ms ≡ [] =
                no_messages codec ms bins (ap content (sym absent) ∙ keeps.holds) in
              (
                1,
                st,
                rw (absent, remove_from) refl,
                subst (IsKept codec name st.flash)
                    (none_left ∙ sym (ap (without (i ∷ is) 0) none_left)) keeps,
              )
          | inr (bytes, present) ↦
              let both : Flash = record (put st.flash temp (some [])) {
                opened = st.flash.opened + 1 + 1;
              } in
              let held : bytes ≡ written codec ms = sym (ap content present) ∙ keeps.holds in
              let (t, ran, kept) =
                remove_indexes-IsKept codec bins cfs can_open opens name name_temp temp_name both
                  st.assembly ms i is (rw name_temp keeps.holds) keeps.fit proper.2 in
              (
                removal_code ms,
                t,
                rw (present, remove_from)
                    (rw (opens st.flash name) (
                      rw (opens _ temp) (
                        rw h (
                          rw h (
                            rw
                              (drop-append (codec.write_array (suc (length is)))
                                (index_bytes codec (i ∷ is)))
                              (rw (read_indexes_lem codec (i ∷ is) indexes proper.3)
                                (rw keeps.no_temp (rw held ran)))))))),
                kept,
              )
        ]

    pub pairing_remove-IsKept :
        (st : Store) (s : Sensor) (is : List ℕ) (ms : List (List ℕ))
        → length s.type + 7 ≤ 30
        → IsProper (remove is)
        → IsKept codec (pairs_ ++ s.type) st.flash ms
        → (ret : ℕ) × (t : Store) × (pairing_remove codec cfs can_open st s (payload codec is)
            ≡ some (ret, t))
          × IsKept codec (pairs_ ++ s.type) t.flash (without is 0 ms)
    unfolding pairing_remove pairs_file equal_name
    pairing_remove-IsKept st s [] ms named proper keeps = absurd (omega (arith, proper.0))
    pairing_remove-IsKept st s (i ∷ is) ms named proper keeps =
        let room : leb (length s.type + 7) 30 ≡ true = ground (arith, named) in
        rw (room, pairing_remove)
          (remove_from-IsKept (pairs_ ++ s.type) refl refl st i is ms proper keeps)

    store_sensor_pair-IsKept :
        (f : Flash) (s : Sensor) (m : List ℕ) (ms : List (List ℕ))
        → length s.type + 7 ≤ 30
        → length m ≤ buffersize
        → IsKept codec (pairs_ ++ s.type) f ms
        → (g : Flash) × (store_sensor_pair can_open codec f s m ≡ some g)
          × IsKept codec (pairs_ ++ s.type) g (ms ++ m ∷ [])
    unfolding store_sensor_pair pairs_file open_write equal_name
    store_sensor_pair-IsKept f s m ms named fits keeps =
        let room : leb (length s.type + 7) 30 ≡ true = ground (arith, named) in
        let name = pairs_ ++ s.type in
        let g = record (put f name (some (content (f.files name)))) { opened = f.opened + 1 } in
        (
          cfs_close (put g name (some (content (f.files name) ++ codec.write_bin m))),
          rw (room, store_sensor_pair) (rw (opens f name) refl),
          record {
            holds =
                rw (equal_name_refl s.type)
                  (ap (λ l. l ++ codec.write_bin m) keeps.holds ∙ sym (written-append codec ms m));
            no_temp = keeps.no_temp;
            fit = AllFit-append ms m keeps.fit fits;
          },
        )

    -- one command
    perform-IsNode :
        (n : Node M) (ms : List (List ℕ)) (c : Command)
        → IsNode n ms
        → IsProper c
        → (t : Node M) × (perform n c ≡ some t) × IsNode t (obey ms c)
    unfolding perform obey pairing_remove_all pairs_file equal_name written
    perform-IsNode n ms (store m) h proper =
        let (f, ran, kept) =
          store_sensor_pair-IsKept n.kept.flash n.device m ms h.named proper h.keeps in
        (
          record n { kept = record (n.kept) { flash = f } },
          rw (ran, perform) refl,
          record { named = h.named; keeps = kept },
        )
    perform-IsNode n ms (remove is) h proper =
        let (ret, st, ran, kept) =
          pairing_remove-IsKept n.kept n.device is ms h.named proper h.keeps in
        (record n { kept = st }, rw (ran, perform) refl, record { named = h.named; keeps = kept })
    perform-IsNode n ms remove_all h proper =
        let room : leb (length n.device.type + 7) 30 ≡ true = ground (arith, h.named) in
        let name = pairs_ ++ n.device.type in
        (
          record {
            kept = record (n.kept) { flash = put n.kept.flash name none };
            device = record (n.device) { pairs = [] };
            mmem = free_urls mmem_free n.mmem n.device.pairs;
          },
          rw (room, perform) refl,
          record {
            named = h.named;
            keeps = record {
              holds = rw (equal_name_refl n.device.type) refl;
              no_temp = h.keeps.no_temp;
              fit = tt;
            };
          },
        )

    -- Any proper commands, in any order, are all performed, if files can be opened: the device's file then
    -- holds the messages that the commands make of those it held, each written as it was
    -- stored, and nothing is left in "temp".
    pub perform_all-IsNode :
        (cs : List Command) (n : Node M) (ms : List (List ℕ))
        → IsNode n ms
        → AllProper cs
        → (t : Node M) × (perform_all n cs ≡ some t) × IsNode t (obey_all ms cs)
    unfolding perform_all obey_all
    perform_all-IsNode [] n ms h proper = (n, refl, h)
    perform_all-IsNode (c ∷ cs) n ms h proper =
        let (t, ran, ht) = perform-IsNode n ms c h proper.0 in
        let (u, rest, hu) = perform_all-IsNode cs t (obey ms c) ht proper.1 in
        (u, rw (ran, perform_all) rest, hu)
