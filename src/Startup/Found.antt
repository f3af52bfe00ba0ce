-- ===== src/Startup/Found.antt =====
-- A request's URL finds a device of the start by its name.
use contiki_device_link.Common.{
  ℕ, zero, suc, ◌-◌, ◌%◌, ◌≡◌, refl, sym, Bool, true, false, ◌&&◌, ◌||◌, List, [], ◌∷◌, Option,
  none, some, map, length, if◌then◌else◌, ◌==◌, ltb, subst, get_elem?, get_or, Bool-cases, inl, inr,
  arith,
}
use mathlib.Core.Option.{some-injective}
use contiki_device_link.Common.Bits.{has_bit}
use contiki_device_link.Contiki.{Memb, Lists}
use contiki_device_link.Sensor.{Sensor, RelayRuntime}
use contiki_device_link.Device.Button.{Button}
use contiki_device_link.Coap.{characters}
use contiki_device_link.Registry.{strncmp_equal, is_match, first_match, susensors_find, slash}
use contiki_device_link.Startup.{Resource, Methods, Statics, State, er_uart_server}
use contiki_device_link.Startup.Booted.{Device, view, er_uart_server-IsBooted, started}

-- the number of characters of a name that are compared
count : List ℕ → ℕ
count name = if length name % 256 == 0 then 4294967295 else length name % 256 - 1

-- a device that every URL test with sub resources passes over
might_match : Device → List ℕ → ℕ → Bool
might_match v url len =
    let l = length v.name % 256 in
    (l == len || (ltb l len && get_or url l 0 == slash)) && strncmp_equal (count v.name) url v.name

exact : Device → List ℕ → ℕ → Bool
exact v url len = length v.name % 256 == len && strncmp_equal (count v.name) url v.name

-- the device that a URL names, if no device before it might be meant
search : List Device → List ℕ → ℕ → Option Device
search [] url len = none
search (v ∷ vs) url len =
    let rest = search vs url len in
    if exact v url len then some v else (if might_match v url len then none else rest)

weaken : (e l h g s : Bool) → ((e || (l && g)) && s) ≡ false → ((e || (l && (h && g))) && s) ≡ false
weaken true l h g s p = p
weaken false l true g s p = p
weaken false true false g s p = refl
weaken false false false g s p = refl

strengthen : (e x s : Bool) → (e && s) ≡ true → ((e || x) && s) ≡ true
strengthen true x s p = p
strengthen false x s p = absurd (ground (arith, p))

abbrev Finds : Device → Type 0
Finds v = search started v.name (length v.name % 65536) ≡ some v

-- Each device of the start is the one that its name finds.
searched :
    (k : ℕ) (v : Device)
    → get_elem? started k ≡ some v
    → search started v.name (length v.name % 65536) ≡ some v
unfolding search exact might_match count strncmp_equal characters
searched zero v e = subst Finds (some-injective _ v e) refl
searched (suc zero) v e = subst Finds (some-injective _ v e) refl
searched (suc (suc zero)) v e = subst Finds (some-injective _ v e) refl
searched (suc (suc (suc zero))) v e = subst Finds (some-injective _ v e) refl
searched (suc (suc (suc (suc zero)))) v e = subst Finds (some-injective _ v e) refl
searched (suc (suc (suc (suc (suc k))))) v e = absurd (cc e)

module _ (has_sub_resources : ℕ) where
  first_match-search :
      (devices : List Sensor) (url : List ℕ) (len : ℕ) (v : Device)
      → search (map view devices) url len ≡ some v
      → (d : Sensor) × (first_match has_sub_resources devices url len ≡ some d) × (view d ≡ v)
  unfolding search first_match is_match exact might_match count
  first_match-search [] url len v found = absurd (ground (arith, found))
  first_match-search (d ∷ ds) url len v found = elim (Bool-cases (exact (view d) url len)) [
    | inl equal ↦
        let hit : is_match has_sub_resources url len d ≡ true =
          strengthen (length d.type % 256 == len) _ (strncmp_equal (count d.type) url d.type)
            equal in
        let same : some (view d) ≡ some v = rw equal at found in
        (d, rw (hit, first_match) refl, some-injective (view d) v same)
    | inr differs ↦ elim (Bool-cases (might_match (view d) url len)) [
      | inl might ↦ absurd (cc (rw might at (rw differs at found)))
      | inr passed ↦
          let missed : is_match has_sub_resources url len d ≡ false =
            weaken (length d.type % 256 == len) (ltb (length d.type % 256) len)
              (has_bit d.config.flags has_sub_resources)
              (get_or url (length d.type % 256) 0 == slash)
              (strncmp_equal (count d.type) url d.type) passed in
          let later : search (map view ds) url len ≡ some v = rw passed at (rw differs at found) in
          let (e, finds, same) = first_match-search ds url len v later in
          (e, rw (missed, first_match) finds, same)
    ]
  ]

  -- After the start of the server, with a relay runtime, a request with the name of one of its five devices as URL
  -- finds this device, with its driver and its resource.
  pub susensors_find-er_uart_server :
      (memb : Memb) (lists : Lists Sensor) (methods : Methods) (stale : Resource) (st : Statics)
      (statics : Button) (runtime : RelayRuntime) (others : List RelayRuntime)
      → st.relayruntime ≡ runtime ∷ others
      → (k : ℕ) (v : Device) → get_elem? started k ≡ some v
      → (b : State memb lists methods stale) × (er_uart_server memb lists methods stale st statics
          ≡ some b)
        × (d : Sensor) × (susensors_find has_sub_resources b.registry.sudevices v.name 0 ≡ some d)
        × (view d ≡ v)
  unfolding susensors_find
  susensors_find-er_uart_server memb lists methods stale st statics runtime others there k v
        listed =
      let (b, runs, h) =
        er_uart_server-IsBooted memb lists methods stale st statics runtime others there in
      let (d, finds, same) =
        first_match-search b.registry.sudevices v.name (length v.name % 65536) v (
          subst (λ vs. search vs v.name (length v.name % 65536) ≡ some v) (sym h.registered)
            (searched k v listed)) in
      (b, runs, d, finds, same)
