-- ===== src/Registry/Devices.antt =====
-- Registering devices: the pool of susensors.c has room for ten.
use contiki_device_link.Common.{
  ℕ, zero, suc, ◌+◌, ◌<◌, ◌≡◌, refl, sym, ap, ◌∙◌, List, [], ◌∷◌, ◌++◌, Option, none, some, map,
  take, length, append_assoc, append-nil, length-append, arith, Bool-cases, ◌==◌, inl, inr,
}
use contiki_device_link.Contiki.{Memb, Lists}
use contiki_device_link.Sensor.{Sensor}
use contiki_device_link.Registry.{devices_max, Registry, init_su_sensors, add_su_devices}

-- a device as it is registered, with no pairs
abbrev pub registered : Sensor → Sensor
registered d = record d { pairs = [] }

module _ (memb : Memb) (lists : Lists Sensor) where
  -- the blocks of the pool are free or hold a device
  pub IsRegistry : Registry memb.State → Type 0
  IsRegistry r = memb.free_blocks r.pool + length r.sudevices ≡ devices_max

  pub init_su_sensors-IsRegistry : IsRegistry (init_su_sensors memb lists)
  unfolding init_su_sensors IsRegistry
  init_su_sensors-IsRegistry = ground (arith, memb.free-init devices_max)

  pub add_full :
      (r : Registry memb.State) (d : Sensor)
      → memb.free_blocks r.pool ≡ 0
      → add_su_devices memb lists r d ≡ (none, r)
  unfolding add_su_devices
  add_full r d full = rw (memb.alloc_empty r.pool full, add_su_devices) refl

  pub add_room :
      (r : Registry memb.State) (d : Sensor)
      → 0 < memb.free_blocks r.pool
      → let (res, r') = add_su_devices memb lists r d in
        (res ≡ some (registered d))
        × (r'.sudevices ≡ r.sudevices ++ registered d ∷ [])
        × (memb.free_blocks r'.pool + 1 ≡ memb.free_blocks r.pool)
  unfolding add_su_devices
  add_room r d room =
      let (t, gives, fewer) = memb.alloc_block r.pool room in
      rw (gives, add_su_devices) (refl, lists.add_end r.sudevices (registered d), fewer)

  -- An add keeps the registry in order. It gives NULL and changes nothing exactly if ten devices are
  -- registered; else it registers the device, with no pairs, behind the others.
  pub add_su_devices-IsRegistry :
      (r : Registry memb.State) (d : Sensor)
      → IsRegistry r
      → let (res, r') = add_su_devices memb lists r d in
        IsRegistry r'
        × (length r.sudevices ≡ devices_max → (res ≡ none) × (r' ≡ r))
        × (length r.sudevices < devices_max
            → (res ≡ some (registered d)) × (r'.sudevices ≡ r.sudevices ++ registered d ∷ []))
  unfolding IsRegistry
  add_su_devices-IsRegistry r d v = elim (Bool-cases (memb.free_blocks r.pool == 0)) [
    | inl e ↦
        let full = add_full r d (ground (arith, e)) in
        rw full (v, (λ _. (refl, refl)), (λ room. absurd (ground (arith, e, v, room))))
    | inr e ↦
        let (res, devices, fewer) = add_room r d (ground (arith, e)) in
        (
          omega (arith, v, fewer, ap length devices, length-append r.sudevices (registered d ∷ [])),
          (λ full. absurd (ground (arith, e, v, full))),
          (λ room. (res, devices)),
        )
  ]

  -- the adds of a row of devices, one after the other
  pub add_all : Registry memb.State → List Sensor → Registry memb.State
  add_all r [] = r
  add_all r (d ∷ ds) = add_all (add_su_devices memb lists r d).1 ds

  pub sudevices-add_all :
      (ds : List Sensor) (r : Registry memb.State) (n : ℕ)
      → memb.free_blocks r.pool ≡ n
      → (add_all r ds).sudevices ≡ r.sudevices ++ map registered (take n ds)
  unfolding add_all
  sudevices-add_all [] r zero free = sym (append-nil r.sudevices)
  sudevices-add_all [] r (suc n) free = sym (append-nil r.sudevices)
  sudevices-add_all (d ∷ ds) r zero free =
      ap (λ (x : Option Sensor × Registry memb.State). (add_all x.1 ds).sudevices)
        (add_full r d free)
      ∙ (sudevices-add_all ds r zero free ∙ ap (λ l. r.sudevices ++ l) (none_taken ds))
    where
      none_taken : (ds : List Sensor) → map registered (take 0 ds) ≡ []
      none_taken [] = refl
      none_taken (e ∷ es) = refl
  sudevices-add_all (d ∷ ds) r (suc n) free =
      let (_, devices, fewer) = add_room r d (omega (arith, free)) in
      let r' = (add_su_devices memb lists r d).1 in
      sudevices-add_all ds r' n (omega (arith, fewer, free))
      ∙ (ap (λ l. l ++ map registered (take n ds)) devices
          ∙ append_assoc r.sudevices (registered d ∷ []) (map registered (take n ds)))

  -- Of the devices that are added from the start on, the first ten are registered, in the order in
  -- which they were added.
  sudevices_from_start :
      (ds : List Sensor)
      → (add_all (init_su_sensors memb lists) ds).sudevices ≡ map registered (take devices_max ds)
  unfolding init_su_sensors
  sudevices_from_start ds = sudevices-add_all ds _ devices_max (memb.free-init devices_max)
