-- ===== src/Coap/Parts.antt =====
-- The "join" request of res-susensors.c, sent in blocks.
use contiki_device_link.Common.{
  ℕ, ◌+◌, ◌*◌, ◌≤◌, ◌<◌, ◌≡◌, refl, ap, Bool, true, false, List, [], ◌∷◌, Option, none, some, ◌==◌,
  leb, length, arith, Bool-cases, Option-cases, inl, inr,
}
use contiki_device_link.Contiki.{Memb, Lists}
use contiki_device_link.Cmp.{Codec}
use contiki_device_link.Sensor.{JoinPair}
use contiki_device_link.Device.{Device}
use contiki_device_link.Pairing.{Assembly, buffersize, pairing_assemble_message}
use contiki_device_link.Pairing.Assemble.{assemble, joined, IsAssembled, assemble-IsAssembled}
use contiki_device_link.Pairing.Flash.{Name, Flash}
use contiki_device_link.Coap.{Request, Response, with_status, changed, Board}
use contiki_device_link.Coap.Put.{put_join}

-- a part of a message, as block `num` of blocks of `size` bytes
abbrev pub block : Request → ℕ → ℕ → Bool → List ℕ → Request
block request num size more bytes = record request {
  payload = bytes;
  block1_num = num;
  block1_size = size;
  block1_more = more;
}

-- the answer to a block that is not the last
abbrev pub continue : ℕ → ℕ → Response
continue num size = record (with_status changed) { block1 = some (num, size) }

-- each part has bytes, and ends before byte 200 of the blocks
abbrev pub HaveRoom : ℕ → ℕ → List (List ℕ) → Type 0
HaveRoom num size [] = Unit
HaveRoom num size (p ∷ ps) =
    (0 < length p) × (num * size + length p ≤ 200) × HaveRoom (num + 1) size ps

abbrev pub continues : ℕ → ℕ → List (List ℕ) → List Response
continues num size [] = []
continues num size (p ∷ ps) = continue num size ∷ continues (num + 1) size ps

module _ {S M : Type 0} (codec : Codec) (memb : Memb) (lists : Lists JoinPair)
    (mmem_alloc : M → ℕ → Option M) (block_of : memb.State → JoinPair)
    (can_open : Flash → Name → Bool) where
  -- the blocks from number `num` on, each with more to come: the answers, and the board
  pub send_parts :
      Board S memb.State M
      → ℕ
      → Device S
      → Request
      → ℕ
      → ℕ
      → List (List ℕ)
      → Option (List Response × Board S memb.State M)
  send_parts b i d request num size [] = some ([], b)
  send_parts b i d request num size (p ∷ ps) =
      elim (put_join codec memb lists mmem_alloc block_of can_open b i d
        (block request num size true p)) [
          | none ↦ none
          | some (r, c) ↦ elim (send_parts c i d request (num + 1) size ps) [
            | none ↦ none
            | some (rs, e) ↦ some (r ∷ rs, e)
          ]
        ]

  send_parts-assemble :
      (ps : List (List ℕ)) (b : Board S memb.State M) (i : ℕ) (d : Device S) (request : Request)
      (num size : ℕ) (a : Assembly)
      → HaveRoom num size ps
      → assemble b.assembly ps num ≡ some a
      → send_parts b i d request num size ps
        ≡ some (continues num size ps, record b { assembly = a })
  unfolding send_parts put_join assemble
  send_parts-assemble [] b i d request num size a rooms e =
      ap (λ o. some ([], record b { assembly = (elim o [ none ↦ b.assembly | some x ↦ x ]) })) e
  send_parts-assemble (p ∷ ps) b i d request num size a rooms e =
      elim (Option-cases (pairing_assemble_message b.assembly p num)) [
        | inl undefined ↦ absurd (cc (rw (undefined, assemble) at e))
        | inr ((ret, c), gives) ↦ elim (Bool-cases (ret == 0)) [
          | inr refused ↦ absurd (cc (rw (refused, assemble) at (rw (gives, assemble) at e)))
          | inl stored ↦
              let some_bytes : (length p == 0) ≡ false = ground (arith, rooms.0) in
              let small : leb (num * size + length p) 200 ≡ true = ground (arith, rooms.1) in
              let rest =
                send_parts-assemble ps (record b { assembly = c }) i d request (num + 1) size a
                  rooms.2 (rw (stored, assemble) at (rw (gives, assemble) at e)) in
              rw (some_bytes, send_parts, put_join) (rw small (rw gives (rw rest (rw stored refl))))
        ]
      ]

  -- The first parts of a message, 300 bytes at most together, that are put as blocks of a size, each with more to
  -- come, and each with a byte or more that end before byte 200 where the block's number and size place it:
  -- they are each answered with CHANGED and the block's number, whatever was in the buffer before; after
  -- them the buffer holds the parts joined, and nothing else is changed.
  pub send_parts-IsAssembled :
      (b : Board S memb.State M) (i : ℕ) (d : Device S) (request : Request) (size : ℕ) (p : List ℕ)
      (ps : List (List ℕ))
      → HaveRoom 0 size (p ∷ ps)
      → length (joined (p ∷ ps)) ≤ buffersize
      → (a : Assembly) × (send_parts b i d request 0 size (p ∷ ps)
          ≡ some (continues 0 size (p ∷ ps), record b { assembly = a }))
        × IsAssembled a (joined (p ∷ ps))
  send_parts-IsAssembled b i d request size p ps rooms fits =
      let (a, stored, v) = assemble-IsAssembled b.assembly p ps fits in
      (a, send_parts-assemble (p ∷ ps) b i d request 0 size a rooms stored, v)
