-- ===== src/Sensor/Config/Laws.antt =====
-- The event setup of a sensor: what a rejected setup leaves behind, and setup after its own bytes.
use contiki_device_link.Common.{
  drop-append, ℕ, ◌+◌, ◌<◌, ◌≡◌, ◌≢◌, ◌⊎◌, inl, inr, Option-cases, refl, sym, ap, ap₂, ◌∙◌, List,
  [], ◌++◌, Option, none, some, length, append_assoc, length-append, arith, ◌%◌, ◌==◌, drop, subst,
  Bool-cases,
}
use mathlib.Core.Option.{some-injective}
use contiki_device_link.Common.Int.{pos, sub_ℕ}
use contiki_device_link.Cmp.{CmpObject, Codec, type_uint8, uint8_object, ReadsObjects, StoresU8}
use contiki_device_link.Sensor.{Sensor, ResourceConf}
use contiki_device_link.Sensor.Config.{
  eventsetup_set, eventsetup_get, bytes, untouched, cp_decode_object, next_object,
  set_events_active, set_change, set_below, eventsetup, setup_bytes, suconfig,
}

-- An object of the type lies at the place, and ends at another one.
pub record ReadsAt (codec : Codec) (payload : List ℕ) (at type : ℕ) (o : CmpObject) (next : ℕ)
    : Type 0 where
  pub decoded : (codec.read_object (drop at payload)).value ≡ some o
  pub typed : o.type ≡ type
  pub ends : next ≡ at + (codec.read_object (drop at payload)).used

-- No object of the type lies at the place.
abbrev pub ReadsNone : Codec → List ℕ → ℕ → ℕ → Type 0
ReadsNone codec payload at type =
    (o : CmpObject) (next : ℕ) → ReadsAt codec payload at type o next → ⊥

-- What a setup makes of `c`, by how many of its four objects follow each other with the types that the settings
-- have: the code that is returned, and the configuration.
abbrev pub IsSetUp : Codec → ResourceConf → List ℕ → ℕ → ResourceConf → Type 0
IsSetUp codec c payload ret c' =
    (ReadsNone codec payload 0 c.above_event_at.type × (ret ≡ 1) × (c' ≡ c))
    ⊎ ((a : CmpObject) × (i : ℕ) × ReadsAt codec payload 0 c.above_event_at.type a i
        × ((ReadsNone codec payload i c.below_event_at.type
              × (ret ≡ 2)
              × (c' ≡ record c { above_event_at = a }))
            ⊎ ((b : CmpObject) × (j : ℕ) × ReadsAt codec payload i c.below_event_at.type b j
                × ((ReadsNone codec payload j c.change_event.type
                      × (ret ≡ 3)
                      × (c' ≡ record c { above_event_at = a; below_event_at = b }))
                    ⊎ ((o : CmpObject) × (k : ℕ) × ReadsAt codec payload j c.change_event.type o k
                        × ((ReadsNone codec payload k type_uint8
                              × (ret ≡ 4)
                              × (c' ≡ record c {
                                above_event_at = a;
                                below_event_at = b;
                                change_event = o;
                              }))
                            ⊎ ((v : CmpObject) × (l : ℕ) × ReadsAt codec payload k type_uint8 v l
                                × (ret ≡ 0)
                                × (c' ≡ record c {
                                  above_event_at = a;
                                  below_event_at = b;
                                  change_event = o;
                                  events_active = v.word % 256;
                                }))))))))

-- The next stage reads behind what this one read.
behind {ℓ} :
    {R : Type ℓ} (f : List ℕ → ℕ → R) (before x y : List ℕ)
    → f (before ++ (x ++ y)) (length before + length x)
      ≡ f ((before ++ x) ++ y) (length (before ++ x))
behind f before x y = ap₂ f (sym (append_assoc before x y)) (sym (length-append before x))

-- What the reading of the next object gives.
abbrev ReadsNext : Codec → List ℕ → ℕ → ℕ → Option (CmpObject × ℕ) → Type 0
ReadsNext codec payload at type none = ReadsNone codec payload at type
ReadsNext codec payload at type (some (o, next)) = ReadsAt codec payload at type o next

module _ (codec : Codec) where
  none-at :
      (payload : List ℕ) (at type : ℕ)
      → (codec.read_object (drop at payload)).value ≡ none
      → ReadsNone codec payload at type
  none-at payload at type e o next r = cc (e, r.decoded)

  next_object-ReadsNext :
      (payload : List ℕ) (at type : ℕ)
      → ReadsNext codec payload at type (next_object codec payload at type)
  unfolding next_object cp_decode_object
  next_object-ReadsNext payload at type =
      let r = codec.read_object (drop at payload) in
      elim (Option-cases r.value) [
        | inl e ↦ rw (e, next_object, cp_decode_object) (none-at payload at type e)
        | inr (o, e) ↦ elim (Bool-cases (o.type == type)) [
          | inl same ↦
              rw (e, next_object, cp_decode_object)
                (rw same (record { decoded = e; typed = ground (arith, same); ends = refl }))
          | inr other ↦
              rw (e, next_object, cp_decode_object)
                (rw other (λ p next q.
                  let mismatch : o.type ≢ type = ground (arith, other) in
                  mismatch (
                    ap (λ (x : CmpObject). x.type) (some-injective o p (sym e ∙ q.decoded))
                    ∙ q.typed)))
        ]
      ]

  -- the next object, or that there is none
  next_object-cases :
      (payload : List ℕ) (at type : ℕ)
      → ((next_object codec payload at type ≡ none) × ReadsNone codec payload at type)
        ⊎ ((o : CmpObject) × (next : ℕ) × (next_object codec payload at type ≡ some (o, next))
            × ReadsAt codec payload at type o next)
  next_object-cases payload at type = elim (Option-cases (next_object codec payload at type)) [
    | inl e ↦
        inl (e, subst (ReadsNext codec payload at type) e (next_object-ReadsNext payload at type))
    | inr ((o, next), e) ↦ inr (
      o,
      next,
      e,
      subst (ReadsNext codec payload at type) e (next_object-ReadsNext payload at type),
    )
  ]

  -- A setup is a row of four objects: the thresholds above, below and of a change, each of the type that the
  -- threshold has, and the active events as a byte. If the k-th of them cannot be read or has another
  -- type, the code is `k`, the settings before the k-th are those of the setup, and all others are
  -- as they were; if all four are there, the code is 0 and the four settings are set.
  pub eventsetup-IsSetUp :
      (c : ResourceConf) (payload : List ℕ)
      → let (ret, c') = eventsetup codec c payload in IsSetUp codec c payload ret c'
  unfolding eventsetup set_below set_change set_events_active
  eventsetup-IsSetUp c payload = elim (next_object-cases payload 0 c.above_event_at.type) [
    | inl (e, lacks) ↦ rw (e, eventsetup) (inl (lacks, refl, refl))
    | inr (a, i, e, at_a) ↦
        rw (e, eventsetup)
          (inr (
            a,
            i,
            at_a,
            elim (next_object-cases payload i c.below_event_at.type) [
              | inl (f, lacks) ↦ rw (f, set_below) (inl (lacks, refl, refl))
              | inr (b, j, f, at_b) ↦
                  rw (f, set_below)
                    (inr (
                      b,
                      j,
                      at_b,
                      elim (next_object-cases payload j c.change_event.type) [
                        | inl (g, lacks) ↦ rw (g, set_change) (inl (lacks, refl, refl))
                        | inr (o, k, g, at_o) ↦
                            rw (g, set_change)
                              (inr (
                                o,
                                k,
                                at_o,
                                elim (next_object-cases payload k type_uint8) [
                                  | inl (h, lacks) ↦
                                      rw (h, set_events_active) (inl (lacks, refl, refl))
                                  | inr (v, l, h, at_v) ↦
                                      rw (h, set_events_active) (inr (v, l, at_v, refl, refl))
                                ],
                              ))
                      ],
                    ))
            ],
          ))
  ]

  -- the setup bytes of `c`, bracketed from the left, with what follows them
  setup_bytes-append :
      (c : ResourceConf) (rest : List ℕ)
      → setup_bytes codec c ++ rest
        ≡ codec.write_object c.above_event_at
          ++ (codec.write_object c.below_event_at
              ++ (codec.write_object c.change_event
                  ++ (codec.write_object (uint8_object c.events_active) ++ rest)))
  unfolding setup_bytes
  setup_bytes-append c rest = simp append_assoc

  module _ (reads : ReadsObjects codec) (stores : StoresU8 codec) where
    -- the object that was written behind `before`
    next_object-written :
        (before rest : List ℕ) (o : CmpObject) (type : ℕ)
        → codec.IsStorable o
        → o.type ≡ type
        → next_object codec (before ++ (codec.write_object o ++ rest)) (length before) type
          ≡ some (o, length before + length (codec.write_object o))
    unfolding next_object cp_decode_object
    next_object-written before rest o type storable typed =
        ground
          (arith, drop-append before (codec.write_object o ++ rest), reads o rest storable, typed)

    active-written :
        (d : ResourceConf) (before rest : List ℕ) (v : ℕ)
        → v < 256
        → set_events_active codec d
            (before ++ (codec.write_object (uint8_object v) ++ rest))
            (length before)
          ≡ (0, record d { events_active = v })
    unfolding set_events_active
    active-written d before rest v small = ground (
      arith,
      next_object-written before rest (uint8_object v) type_uint8 (stores v small) refl,
      small,
    )

    change-written :
        (d : ResourceConf) (before rest : List ℕ) (o : CmpObject) (v : ℕ)
        → v < 256
        → codec.IsStorable o
        → o.type ≡ d.change_event.type
        → set_change codec d
            (before ++ (codec.write_object o ++ (codec.write_object (uint8_object v) ++ rest)))
            (length before)
          ≡ (0, record d { change_event = o; events_active = v })
    unfolding set_change
    change-written d before rest o v small storable typed =
        rw (next_object-written before _ o d.change_event.type storable typed, set_change)
          (behind (set_events_active codec (record d { change_event = o })) before
              (codec.write_object o) _
            ∙ active-written (record d { change_event = o }) (before ++ codec.write_object o) rest v
                small)

    below-written :
        (d : ResourceConf) (before rest : List ℕ) (b o : CmpObject) (v : ℕ)
        → v < 256
        → codec.IsStorable b
        → codec.IsStorable o
        → b.type ≡ d.below_event_at.type
        → o.type ≡ d.change_event.type
        → set_below codec d
            (before
              ++ (codec.write_object b
                  ++ (codec.write_object o ++ (codec.write_object (uint8_object v) ++ rest))))
            (length before)
          ≡ (0, record d { below_event_at = b; change_event = o; events_active = v })
    unfolding set_below
    below-written d before rest b o v small store_b store_o type_b type_o =
        rw (next_object-written before _ b d.below_event_at.type store_b type_b, set_below)
          (behind (set_change codec (record d { below_event_at = b })) before (codec.write_object b)
              _
            ∙ change-written (record d { below_event_at = b }) (before ++ codec.write_object b) rest
                o v small store_o type_o)

    above-written :
        (d : ResourceConf) (rest : List ℕ) (a b o : CmpObject) (v : ℕ)
        → v < 256
        → codec.IsStorable a
        → codec.IsStorable b
        → codec.IsStorable o
        → a.type ≡ d.above_event_at.type
        → b.type ≡ d.below_event_at.type
        → o.type ≡ d.change_event.type
        → eventsetup codec d (
            codec.write_object a
            ++ (codec.write_object b
                ++ (codec.write_object o ++ (codec.write_object (uint8_object v) ++ rest))))
          ≡ (
            0,
            record d {
              above_event_at = a;
              below_event_at = b;
              change_event = o;
              events_active = v;
            },
          )
    unfolding eventsetup
    above-written d rest a b o v small store_a store_b store_o type_a type_b type_o =
        rw (next_object-written [] _ a d.above_event_at.type store_a type_a, eventsetup)
          (behind (set_below codec (record d { above_event_at = a })) [] (codec.write_object a) _
            ∙ below-written (record d { above_event_at = a }) (codec.write_object a) rest b o v
                small store_b store_o type_b type_o)

    -- The setup that one sensor gives is taken by every sensor whose thresholds have the same types: if
    -- the codec reads what it writes, EVENTSETUP_SET on the bytes of EVENTSETUP_GET, whatever follows
    -- them, returns 0 and copies thresholds and active events, and nothing else. EVENTSETUP_GET
    -- itself returns minus the number of its bytes.
    pub eventsetup_round_trip :
        (s t : Sensor) (rest : List ℕ)
        → codec.IsStorable s.config.above_event_at
        → codec.IsStorable s.config.below_event_at
        → codec.IsStorable s.config.change_event
        → s.config.events_active < 256
        → s.config.above_event_at.type ≡ t.config.above_event_at.type
        → s.config.below_event_at.type ≡ t.config.below_event_at.type
        → s.config.change_event.type ≡ t.config.change_event.type
        → (setup : List ℕ) × ((suconfig codec s eventsetup_get []).output ≡ bytes setup)
          × ((suconfig codec s eventsetup_get []).ret ≡ sub_ℕ 0 (length setup))
          × (suconfig codec t eventsetup_set (setup ++ rest) ≡ record {
            ret = pos 0;
            sensor = record t {
              config = record (t.config) {
                above_event_at = s.config.above_event_at;
                below_event_at = s.config.below_event_at;
                change_event = s.config.change_event;
                events_active = s.config.events_active;
              };
            };
            output = untouched;
          })
    unfolding suconfig
    eventsetup_round_trip s t rest store_a store_b store_o small type_a type_b type_o = (
      setup_bytes codec s.config,
      refl,
      refl,
      ap
          (λ (r : ℕ × ResourceConf). record {
            ret = pos r.0;
            sensor = record t { config = r.1 };
            output = untouched;
          })
          (ap (eventsetup codec t.config) (setup_bytes-append s.config rest)
            ∙ above-written t.config rest s.config.above_event_at s.config.below_event_at
                s.config.change_event s.config.events_active small store_a store_b store_o type_a
                type_b type_o),
    )
