-- ===== src/Coap/System/Presence.antt =====
-- Two nodes: one that has started tells another that it is awake, and the other answers whether it is
-- interested.
use contiki_device_link.Common.{
  ℕ, ◌≡◌, ◌≢◌, subst, sym, ◌⊎◌, inl, inr, refl, ap, ◌∙◌, Bool, List, [], ◌∷◌, ◌++◌, some,
  if◌then◌else◌, ◌==◌, Bool-cases,
}
use contiki_device_link.Contiki.{Memb, Lists}
use contiki_device_link.Cmp.{Codec}
use contiki_device_link.Sensor.{JoinPair, Sensor}
use contiki_device_link.ReverseNotify.Save.{same_address-eq, same_address_refl}
use contiki_device_link.ReverseNotify.{Address, Sources, Cfs, same_address, remove_item}
use contiki_device_link.Coap.{characters, find_command, Response, with_status, deleted, ok}
use contiki_device_link.Registry.{strncmp_equal}
use contiki_device_link.Coap.System.{
  paired_to, calls, missing_just_called, put_system, res_sysinfo_puthandler, presence_request,
  tx_presence_cb,
}

-- a pair, or a device's pair, has the address as its destination
abbrev pub HasPair : Address → List JoinPair → Type 0
HasPair srcip [] = ⊥
HasPair srcip (p ∷ ps) = (srcip ≡ p.destip) ⊎ HasPair srcip ps

abbrev pub IsInterested : Address → List Sensor → Type 0
IsInterested srcip [] = ⊥
IsInterested srcip (d ∷ ds) = HasPair srcip d.pairs ⊎ IsInterested srcip ds

-- the pairs of all devices
abbrev pub all_pairs : List Sensor → List JoinPair
all_pairs [] = []
all_pairs (d ∷ ds) = d.pairs ++ all_pairs ds

-- `picked` are all the pairs of the list that have the address as their destination, in their order, and no others.
abbrev pub IsPicked : Address → List JoinPair → List JoinPair → Type 0
IsPicked srcip [] picked = picked ≡ []
IsPicked srcip (p ∷ ps) picked =
    ((srcip ≡ p.destip) × (rest : List JoinPair) × (picked ≡ p ∷ rest) × IsPicked srcip ps rest)
    ⊎ ((srcip ≢ p.destip) × IsPicked srcip ps picked)

IsPicked-append :
    (srcip : Address) (ps qs picked picked' : List JoinPair)
    → IsPicked srcip ps picked
    → IsPicked srcip qs picked'
    → IsPicked srcip (ps ++ qs) (picked ++ picked')
IsPicked-append srcip [] qs picked picked' h h' =
    subst (λ l. IsPicked srcip qs (l ++ picked')) (sym h) h'
IsPicked-append srcip (p ∷ ps) qs picked picked' (inl (same, rest, e, h)) h' =
    inl (
      same,
      rest ++ picked',
      ap (λ l. l ++ picked') e,
      IsPicked-append srcip ps qs rest picked' h h',
    )
IsPicked-append srcip (p ∷ ps) qs picked picked' (inr (other, h)) h' =
    inr (other, IsPicked-append srcip ps qs picked picked' h h')

paired_to-IsPicked : (srcip : Address) (ps : List JoinPair) → IsPicked srcip ps (paired_to srcip ps)
unfolding paired_to
paired_to-IsPicked srcip [] = refl
paired_to-IsPicked srcip (p ∷ ps) = elim (Bool-cases (same_address srcip p.destip)) [
  | inl hit ↦ rw hit (
      inl
        (same_address-eq srcip p.destip hit, paired_to srcip ps, refl, paired_to-IsPicked srcip ps))
  | inr misses ↦ rw misses (
      inr (
        (λ same. cc (misses, ap (same_address srcip) same, same_address_refl srcip)),
        paired_to-IsPicked srcip ps,
      ))
]

calls-IsPicked :
    (srcip : Address) (ds : List Sensor) → IsPicked srcip (all_pairs ds) (calls srcip ds)
unfolding calls
calls-IsPicked srcip [] = refl
calls-IsPicked srcip (d ∷ ds) =
    IsPicked-append srcip d.pairs (all_pairs ds) (paired_to srcip d.pairs) (calls srcip ds)
      (paired_to-IsPicked srcip d.pairs) (calls-IsPicked srcip ds)

-- Whether a list has elements, beside whether something holds.
abbrev Tells : List JoinPair → Type 0 → Type 0
Tells l A = (A × (p : JoinPair) × (ps : List JoinPair) × (l ≡ p ∷ ps)) ⊎ ((A → ⊥) × (l ≡ []))

paired_to-Tells :
    (srcip : Address) (ps : List JoinPair) → Tells (paired_to srcip ps) (HasPair srcip ps)
unfolding paired_to
paired_to-Tells srcip [] = inr ((λ e. e), refl)
paired_to-Tells srcip (p ∷ ps) = elim (Bool-cases (same_address srcip p.destip)) [
  | inl hit ↦ rw hit (inl (inl (same_address-eq srcip p.destip hit), p, paired_to srcip ps, refl))
  | inr misses ↦ rw misses (elim (paired_to-Tells srcip ps) [
    | inl (has, q, qs, e) ↦ inl (inr has, q, qs, e)
    | inr (hasnt, e) ↦ inr (
      (λ has. elim has [
        | inl same ↦ absurd (cc (misses, ap (same_address srcip) same, same_address_refl srcip))
        | inr later ↦ hasnt later
      ]),
      e,
    )
  ])
]

calls-Tells : (srcip : Address) (ds : List Sensor) → Tells (calls srcip ds) (IsInterested srcip ds)
unfolding calls
calls-Tells srcip [] = inr ((λ e. e), refl)
calls-Tells srcip (d ∷ ds) = elim (paired_to-Tells srcip d.pairs) [
  | inl (has, p, ps, e) ↦ inl (inl has, p, ps ++ calls srcip ds, ap (λ l. l ++ calls srcip ds) e)
  | inr (hasnt, e) ↦ elim (calls-Tells srcip ds) [
    | inl (has, q, qs, e') ↦ inl (inr has, q, qs, ap (λ l. l ++ calls srcip ds) e ∙ e')
    | inr (none_later, e') ↦ inr (
      (λ has. elim has [ inl here ↦ hasnt here | inr later ↦ none_later later ]),
      ap (λ l. l ++ calls srcip ds) e ∙ e',
    )
  ]
]

-- the answer, by the pairs that are posted
abbrev answer : List JoinPair → Response
answer l = with_status (if (elim l [ [] ↦ 0 | p ∷ ps ↦ 1 ]) == 0 then deleted else ok)

module _ (codec : Codec) (memb : Memb) (lists : Lists Address) (cfs : Cfs)
    (list_remove : List Address → ℕ → List Address) where
  abbrev heard : Bool → Sources memb.State → ℕ → Response → Sources memb.State
  heard opens s i r = tx_presence_cb codec memb lists cfs list_remove opens s i (some r)

  -- A node that has started tells another that it is awake. The other posts all of its pairs to this node to its
  -- process, in their order, and no others; and it stays in the list of nodes that are told exactly if it
  -- has such a pair.
  pub presence-IsInterested :
      (srcip : Address) (ds : List Sensor) (opens : Bool) (s : Sources memb.State) (i : ℕ)
      → let (r, e) = res_sysinfo_puthandler srcip ds presence_request in
        let t = tx_presence_cb codec memb lists cfs list_remove opens s i (some r) in
        IsPicked srcip (all_pairs ds) e.posted
        × ((IsInterested srcip ds × (t ≡ s))
            ⊎ ((IsInterested srcip ds → ⊥)
                × (t ≡ remove_item codec memb lists cfs list_remove opens s i)))
  unfolding res_sysinfo_puthandler put_system missing_just_called find_command strncmp_equal
      characters tx_presence_cb
  presence-IsInterested srcip ds opens s i = (
    calls-IsPicked srcip ds,
    (elim (calls-Tells srcip ds) [
      | inl (has, p, ps, e) ↦ inl (has, ap (λ l. heard opens s i (answer l)) e)
      | inr (hasnt, e) ↦ inr (hasnt, ap (λ l. heard opens s i (answer l)) e)
    ]),
  )
