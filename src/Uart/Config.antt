-- ===== src/Uart/Config.antt =====
-- sensorsUnleashed/lib/cmp_helpers.c, `cp_encoderesource_conf` and `cp_decoderesource_conf`: the
-- configuration of a resource as a message. The strings are decoded into the memory that holds the
-- message; a write behind its end is `none` (undefined in C).
use contiki_device_link.Common.{
  ℕ, zero, suc, ◌+◌, List, [], ◌∷◌, ◌++◌, Option, none, some, length, drop,
}
use contiki_device_link.Cmp.{Codec, Read}
use contiki_device_link.Sensor.{ResourceConf}
use contiki_device_link.Pairing.{c_string}
use contiki_device_link.Uart.Proxy.{copy_to}

-- the memory, with the places where the message is read and where the next string goes
pub record Cursor : Type 0 where
  pub memory : List ℕ
  pub next : ℕ
  pub strings : ℕ

-- The configuration, the memory, and the place behind the last string's NUL.
pub record Decoded : Type 0 where
  pub conf : ResourceConf
  pub memory : List ℕ
  pub attr_end : ℕ

-- A field that cannot be read keeps its value.
unfoldable pub read_field : {A : Type 0} → (List ℕ → Read A) → A → Cursor → A × Cursor
read_field read old c =
    let r = read (drop c.next c.memory) in
    ((elim (r.value) [ none ↦ old | some v ↦ v ]), record c { next = c.next + r.used })

unfoldable pub behind : ℕ → Cursor → Cursor
behind len c = record c { strings = c.strings + len }

-- `*strings++ = '/'` at the NUL of a string of `len` bytes
unfoldable pub put_slash : ℕ → Cursor → Option Cursor
put_slash zero c = none
put_slash (suc len) c = elim (copy_to c.memory (c.strings + len) (47 ∷ [])) [
  | none ↦ none
  | some memory ↦ some (record c { memory = memory; strings = c.strings + suc len })
]

module _ (codec : Codec) where
  -- `cmp_read_str(&cmp, strings, &len)`, with the `len` that it leaves; it puts a NUL behind the bytes.
  unfoldable pub read_string : ℕ → Cursor → Option (ℕ × Cursor)
  read_string size c =
      let bytes = drop c.next c.memory in
      let r = codec.read_str size bytes in
      elim (r.value) [
        | none ↦ some (codec.size_left size bytes, record c { next = c.next + r.used })
        | some s ↦ elim (copy_to c.memory c.strings (s ++ 0 ∷ [])) [
          | none ↦ none
          | some memory ↦ some (length s, record c { memory = memory; next = c.next + r.used })
        ]
      ]

  -- the fields before the strings
  unfoldable pub decode_fields : ResourceConf → Cursor → ResourceConf × Cursor
  decode_fields conf c =
      let (id, c1) = read_field codec.read_u8 conf.id c in
      let (resolution, c2) = read_field codec.read_u32 conf.resolution c1 in
      let (version, c3) = read_field codec.read_u32 conf.version c2 in
      let (flags, c4) = read_field codec.read_u8 conf.flags c3 in
      let (interval, c5) = read_field codec.read_s32 conf.max_pollinterval c4 in
      let (active, c6) = read_field codec.read_u8 conf.events_active c5 in
      let (above, c7) = read_field codec.read_object conf.above_event_at c6 in
      let (below, c8) = read_field codec.read_object conf.below_event_at c7 in
      let (change, c9) = read_field codec.read_object conf.change_event c8 in
      (
        record conf {
          id = id;
          resolution = resolution;
          version = version;
          flags = flags;
          max_pollinterval = interval;
          events_active = active;
          above_event_at = above;
          below_event_at = below;
          change_event = change;
        },
        c9,
      )

  -- the configuration, with its strings at their places in the memory at the end
  unfoldable pub with_strings : ResourceConf → ℕ → ℕ → ℕ → ℕ → Cursor → Decoded
  with_strings conf spec type group attr c = record {
    conf = record conf {
      unit = c_string c.memory;
      spec = c_string (drop spec c.memory);
      type = c_string (drop type c.memory);
      group = c_string (drop group c.memory);
      attr = c_string (drop attr c.memory);
    };
    memory = c.memory;
    attr_end = attr + length (c_string (drop attr c.memory)) + 1;
  }

  -- the last two strings; the room for the group is what the type took
  unfoldable pub decode_group : ResourceConf → ℕ → ℕ → ℕ → Cursor → Option Decoded
  decode_group conf spec type len c = elim (put_slash len c) [
    | none ↦ none
    | some c1 ↦ elim (read_string len c1) [
      | none ↦ none
      | some (n, c2) ↦ elim (read_string 100 (behind n c2)) [
        | none ↦ none
        | some (m, c3) ↦ some (with_strings conf spec type c1.strings c3.strings c3)
      ]
    ]
  ]

  -- `cp_decoderesource_conf`, into the configuration `old`
  unfoldable pub cp_decoderesource_conf : ResourceConf → List ℕ → Option Decoded
  cp_decoderesource_conf old buffer =
      let (conf, c) = decode_fields old (record { memory = buffer; next = 0; strings = 0 }) in
      elim (read_string 100 c) [
        | none ↦ none
        | some (unit, c1) ↦
            let d1 = behind unit c1 in
            elim (read_string 100 d1) [
              | none ↦ none
              | some (spec, c2) ↦
                  let d2 = behind spec c2 in
                  elim (read_string 100 d2) [
                    | none ↦ none
                    | some (type, c3) ↦ decode_group conf d1.strings d2.strings type c3
                  ]
            ]
      ]

  -- `cp_encoderesource_conf`; the strings with their NUL
  unfoldable pub cp_encoderesource_conf : ResourceConf → List ℕ
  cp_encoderesource_conf conf =
      codec.write_u8 conf.id
      ++ codec.write_u32 conf.resolution
      ++ codec.write_u32 conf.version
      ++ codec.write_u8 conf.flags
      ++ codec.write_s32 conf.max_pollinterval
      ++ codec.write_u8 conf.events_active
      ++ codec.write_object conf.above_event_at
      ++ codec.write_object conf.below_event_at
      ++ codec.write_object conf.change_event
      ++ codec.write_str (conf.unit ++ 0 ∷ [])
      ++ codec.write_str (conf.spec ++ 0 ∷ [])
      ++ codec.write_str (conf.type ++ 0 ∷ [])
      ++ codec.write_str (conf.group ++ 0 ∷ [])
      ++ codec.write_str (conf.attr ++ 0 ∷ [])
