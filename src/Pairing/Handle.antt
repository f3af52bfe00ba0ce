-- ===== src/Pairing/Handle.antt =====
-- What `pairing_handle` does with a parsed message.
use contiki_device_link.Common.{
  ℕ, false, get_elem?, ◌+◌, ◌≡◌, ◌≢◌, ◌⊎◌, false, List, [], ◌∷◌, ◌++◌, Option, some, if◌then◌else◌,
  ◌==◌, take,
}
use contiki_device_link.Contiki.{Memb, Lists}
use contiki_device_link.Cmp.{Codec}
use contiki_device_link.Sensor.{JoinPair, Sensor}
use contiki_device_link.Pairing.{ParseResult, Pairing, add_pair}

-- one of the pairs has the destination URL of `p`
abbrev pub HasDestination : List JoinPair → JoinPair → Type 0
HasDestination pairs p =
    (i : ℕ) × (q : JoinPair) × (get_elem? pairs i ≡ some q) × (q.dsturl ≡ p.dsturl)

module _ {M : Type 0} (codec : Codec) (mmem_alloc : M → ℕ → Option M) where
  module _ (memb : Memb) (lists : Lists JoinPair) where
    abbrev State : Type 0
    State = Pairing memb.State M

    -- `t` is `s` with the new pair `p`, in the list, in the file and posted to the process
    pub record IsAdded (s : State) (p : JoinPair) (t : State) : Type 0 where
      pub at_end : t.device.pairs ≡ s.device.pairs ++ p ∷ []
      pub is_new :
          (i : ℕ) (q : JoinPair) → get_elem? s.device.pairs i ≡ some q → q.dsturl ≢ p.dsturl
      pub told : t.posted ≡ p ∷ s.posted
      pub kept_message : t.stored ≡ s.stored ++ take t.assembly.bufsize t.assembly.buffer ∷ []
      pub block : memb.free_blocks t.pool + 1 ≡ memb.free_blocks s.pool

    -- `t` has the pairs, the file and the free blocks of `s`
    pub record IsUnpaired (s t : State) : Type 0 where
      pub same_device : t.device ≡ s.device
      pub same_file : t.stored ≡ s.stored
      pub nothing_told : t.posted ≡ s.posted
      pub no_block : memb.free_blocks t.pool ≡ memb.free_blocks s.pool

    -- an outcome of `pairing_handle` for a message that was parsed to `r`
    abbrev pub Outcome : State → ParseResult M → ℕ × State → Type 0
    Outcome s r (ret, t) =
        ((ret ≡ 0) × (r.ret ≡ 0) × IsAdded s r.pair t)
        ⊎ (((ret ≡ 5) × (r.ret ≡ 0) × HasDestination s.device.pairs r.pair × IsUnpaired s t)
            ⊎ ((ret ≡ r.ret) × (ret ≢ 0) × IsUnpaired s t))

    after_parse : State → memb.State → ParseResult M → ℕ × State
    after_parse u pool r =
        if r.ret == 0
        then add_pair codec memb lists mmem_alloc u pool r.pair
        else (r.ret, record u { pool = memb.memb_free pool })
