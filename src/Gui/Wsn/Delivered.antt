-- ===== src/Gui/Wsn/Delivered.antt =====
-- The desktop program's blocks at the node: what the "join" request of res-susensors.c makes of the blocks that
-- wsn.cpp sends. How the node's CoAP engine reads a block option is a parameter.
use contiki_device_link.Common.{
  ℕ, suc, ◌+◌, ◌*◌, ◌/◌, ◌%◌, ◌^◌, ◌≤◌, ◌<◌, ◌≡◌, refl, ap, ◌∙◌, Bool, true, false, List, [], ◌∷◌,
  Option, none, some, ◌++◌, map, ◌==◌, if◌then◌else◌, leb, length, length-append, arith, Bool-cases,
  Option-cases, inl, inr,
}
use mathlib.Core.Option.{some-injective}
use contiki_device_link.Common.Bits.{has_bit}
use contiki_device_link.Contiki.{Memb, Lists}
use contiki_device_link.Cmp.{Codec}
use contiki_device_link.Sensor.{JoinPair}
use contiki_device_link.Device.{Device}
use contiki_device_link.Pairing.{Assembly, pairing_assemble_message}
use contiki_device_link.Pairing.Assemble.{assemble, joined, IsAssembled, assemble-IsAssembled}
use contiki_device_link.Pairing.Flash.{Name, Flash}
use contiki_device_link.Coap.{Request, Response, Board}
use contiki_device_link.Coap.Put.{put_join, finish_join}
use contiki_device_link.Coap.Parts.{block, continue}
use contiki_device_link.Gui.Block.{more_flag, calc_block_option}
use contiki_device_link.Gui.Block.Laws.{calc_one_byte, has_more}
use contiki_device_link.Gui.{Pdu, coap_check_option, option_block1}
use contiki_device_link.Gui.Wsn.{Wsn, MsgId, send}
use contiki_device_link.Gui.Wsn.Step.{IsCut, Sent, view, blocks}
use contiki_device_link.Gui.Wsn.Upload.{AllContinue, ready, exchange, exchange-send}

-- What the engine reads of a block option: the number, whether more follow, and the size.
pub record ReadBlock : Type 0 where
  pub num : ℕ
  pub more : Bool
  pub size : ℕ

-- An option of one byte is read as RFC 7959 says.
abbrev pub ReadsByte : (List ℕ → ReadBlock) → Type 0
ReadsByte read =
    (v : ℕ)
    → v < 256
    → read (v ∷ []) ≡ record { num = v / 16; more = has_bit v 8; size = 2 ^ (v % 8 + 4) }

-- the request that the handler is given for a block
abbrev pub request_of : (List ℕ → ReadBlock) → Request → Sent → Request
request_of read request s = let o = read s.option in block request o.num o.size o.more s.payload

module _ (read : List ℕ → ReadBlock) {S M : Type 0} (codec : Codec) (memb : Memb)
    (lists : Lists JoinPair) (mmem_alloc : M → ℕ → Option M) (block_of : memb.State → JoinPair)
    (can_open : Flash → Name → Bool) where
  -- the handler's calls for a row of blocks: the last answer, and the board
  unfoldable pub deliver :
      Board S memb.State M
      → ℕ
      → Device S
      → Request
      → Response
      → List Sent
      → Option (Response × Board S memb.State M)
  deliver b i d request answer [] = some (answer, b)
  deliver b i d request answer (s ∷ ss) =
      elim (put_join codec memb lists mmem_alloc block_of can_open b i d
        (request_of read request s)) [ none ↦ none | some (r, c) ↦ deliver c i d request r ss ]

-- the first of the parts that are assembled
assemble_first :
    (a : Assembly) (p : List ℕ) (ps : List (List ℕ)) (num : ℕ) (z : Assembly)
    → assemble a (p ∷ ps) num ≡ some z
    → (ret : ℕ) × (c : Assembly) × (pairing_assemble_message a p num ≡ some (ret, c))
      × ((ret == 0) ≡ true)
      × (assemble c ps (num + 1) ≡ some z)
unfolding assemble
assemble_first a p ps num z e = elim (Option-cases (pairing_assemble_message a p num)) [
  | inl undefined ↦ absurd (cc (rw (undefined, assemble) at e))
  | inr ((ret, c), gives) ↦ elim (Bool-cases (ret == 0)) [
    | inr refused ↦ absurd (cc (rw (refused, assemble) at (rw (gives, assemble) at e)))
    | inl stored ↦ (ret, c, gives, stored, rw (stored, assemble) at (rw (gives, assemble) at e))
  ]
]

module _ (read : List ℕ → ReadBlock) (reads : ReadsByte read) where
  read_calc :
      (more : Bool) (num : ℕ)
      → num < 16
      → read (calc_block_option more num 32) ≡ record { num = num; more = more; size = 32 }
  read_calc more num small =
      let v : ℕ = num * 16 + (1 + more_flag more * 8) in
      let byte : v < 256 = ground (arith, small) in
      let number : v / 16 ≡ num = ground arith in
      let size : v % 8 ≡ 1 = ground arith in
      let flagged : has_bit v 8 ≡ more = has_more v byte ∙ ground arith in
      ap read (calc_one_byte more num small)
      ∙ (reads v byte ∙ rw number (rw size (rw flagged refl)))

  module _ {S M : Type 0} (codec : Codec) (memb : Memb) (lists : Lists JoinPair)
      (mmem_alloc : M → ℕ → Option M) (block_of : memb.State → JoinPair)
      (can_open : Flash → Name → Bool) where
    put_block :
        (p : List ℕ) (more : Bool) (b : Board S memb.State M) (i : ℕ) (d : Device S)
        (request : Request) (num ret : ℕ) (c : Assembly)
        → 0 < length p
        → num * 32 + length p ≤ 200
        → pairing_assemble_message b.assembly p num ≡ some (ret, c)
        → (ret == 0) ≡ true
        → put_join codec memb lists mmem_alloc block_of can_open b i d (
            request_of read request
              (record { option = calc_block_option more num 32; payload = p }))
          ≡ (if more
              then some (continue num 32, record b { assembly = c })
              else finish_join codec memb lists mmem_alloc block_of can_open
                  (continue num 32)
                  (record b { assembly = c })
                  i
                  d)
    unfolding put_join
    put_block p more b i d request num ret c nonempty fits gives stored =
        let some_bytes : (length p == 0) ≡ false = ground (arith, nonempty) in
        let small : leb (num * 32 + length p) 200 ≡ true = ground (arith, fits) in
        let so : request_of read request
              (record { option = calc_block_option more num 32; payload = p })
            ≡ block request num 32 more p =
          ap (λ o. block request o.num o.size o.more p)
            (read_calc more num (omega (arith, fits, nonempty))) in
        ap (λ r. put_join codec memb lists mmem_alloc block_of can_open b i d r) so
        ∙ rw (some_bytes, put_join) (rw small (rw gives (rw stored refl)))

    last_answer :
        (i : ℕ) (d : Device S) (request : Request) (x : Option (Response × Board S memb.State M))
        → (elim x as (λ x. Option (Response × Board S memb.State M)) [
          | none ↦ none
          | some (r, c) ↦
              deliver read codec memb lists mmem_alloc block_of can_open c i d request r []
        ])
          ≡ x
    unfolding deliver
    last_answer i d request none = refl
    last_answer i d request (some (r, c)) = refl

    deliver-assemble :
        (ps : List (List ℕ)) (p : List ℕ) (b : Board S memb.State M) (i : ℕ) (d : Device S)
        (request : Request) (answer : Response) (num : ℕ) (a : Assembly)
        → IsCut 32 (p ∷ ps)
        → num * 32 + length (joined (p ∷ ps)) ≤ 200
        → assemble b.assembly (p ∷ ps) num ≡ some a
        → deliver read codec memb lists mmem_alloc block_of can_open b i d request answer
            (blocks num (p ∷ ps))
          ≡ finish_join codec memb lists mmem_alloc block_of can_open
              (continue (num + length ps) 32)
              (record b { assembly = a })
              i
              d
    unfolding deliver
    deliver-assemble [] p b i d request answer num a cut fits e =
        let (ret, c, gives, stored, rest) = assemble_first b.assembly p [] num a e in
        let same : c ≡ a = some-injective c a (unfold assemble in rest) in
        rw
          (
            put_block p false b i d request num ret c (cut.0)
                (omega (arith, fits, length-append p [])) gives stored,
            deliver,
          )
          (last_answer i d request _
            ∙ (ap
                  (λ z.
                    finish_join codec memb lists mmem_alloc block_of can_open (continue num 32)
                      (record b { assembly = z }) i d)
                  same
                ∙ ap
                    (λ n.
                      finish_join codec memb lists mmem_alloc block_of can_open (continue n 32)
                        (record b { assembly = a }) i d)
                    (omega arith)))
    deliver-assemble (q ∷ ps) p b i d request answer num a cut fits e =
        let (ret, c, gives, stored, rest) = assemble_first b.assembly p (q ∷ ps) num a e in
        let whole : length (joined (p ∷ q ∷ ps)) ≡ 32 + length (joined (q ∷ ps)) =
          omega (arith, cut.0, length-append p (joined (q ∷ ps))) in
        let later =
          deliver-assemble ps q (record b { assembly = c }) i d request (continue num 32) (num + 1)
            a (cut.1) (omega (arith, fits, whole)) rest in
        let number : num + 1 + length ps ≡ num + suc (length ps) = omega arith in
        rw
          (
            put_block p true b i d request num ret c (omega (arith, cut.0))
                (omega (arith, fits, whole, cut.0)) gives stored,
            deliver,
          )
          (later ∙ rw number refl)

joined_long :
    (p : List ℕ) (ps : List (List ℕ))
    → IsCut 32 (p ∷ ps)
    → 32 * length ps ≤ length (joined (p ∷ ps))
joined_long p [] cut = omega arith
joined_long p (q ∷ ps) cut =
    omega (arith, cut.0, length-append p (joined (q ∷ ps)), joined_long q ps cut.1)

module _ (read : List ℕ → ReadBlock) (reads : ReadsByte read) {S M : Type 0} (codec : Codec)
    (memb : Memb) (lists : Lists JoinPair) (mmem_alloc : M → ℕ → Option M)
    (block_of : memb.State → JoinPair) (can_open : Flash → Name → Bool) where
  -- A pairing message of 33 to 200 bytes that the program sends while no other message waits, to a node that answers
  -- each block with its number and this size: what is sent, given to the node's "join" request block by
  -- block, is handled as the whole message, whatever was in the node's buffer; the buffer holds the message.
  pub deliver-send :
      (now stale stale_num : ℕ) (w : Wsn) (pdu : Pdu) (ref : MsgId) (p q : List ℕ)
      (ps : List (List ℕ)) (r : Pdu) (rs : List Pdu) (b : Board S memb.State M) (i : ℕ)
      (d : Device S) (request : Request) (answer : Response)
      → coap_check_option pdu.options option_block1 ≡ none
      → IsCut 32 (p ∷ q ∷ ps)
      → length (joined (p ∷ q ∷ ps)) ≤ 200
      → length rs ≡ length (q ∷ ps)
      → AllContinue ref.number 0 (r ∷ rs)
      → (v : Wsn) × (sent : List Sent) × (a : Assembly) × (exchange
            (send now stale stale_num (ready w) pdu ref (joined (p ∷ q ∷ ps)))
            (r ∷ rs)
          ≡ some v)
        × (map view v.sent ≡ map view w.sent ++ sent)
        × (deliver read codec memb lists mmem_alloc block_of can_open b i d request answer sent
            ≡ finish_join codec memb lists mmem_alloc block_of can_open
                (continue (length (q ∷ ps)) 32)
                (record b { assembly = a })
                i
                d)
        × IsAssembled a (joined (p ∷ q ∷ ps))
  deliver-send now stale stale_num w pdu ref p q ps r rs b i d request answer plain cut fits count
        answers =
      let (v, runs, up) =
        exchange-send now stale stale_num w pdu ref p q ps plain cut r rs
          (omega (arith, fits, joined_long p (q ∷ ps) cut)) count answers in
      let (a, stored, held) = assemble-IsAssembled b.assembly p (q ∷ ps) (omega (arith, fits)) in
      (
        v,
        blocks 0 (p ∷ q ∷ ps),
        a,
        runs,
        up.sent,
        deliver-assemble read reads codec memb lists mmem_alloc block_of can_open (q ∷ ps) p b i d
              request answer 0 a cut (omega (arith, fits)) stored
            ∙ ap
                (λ n.
                  finish_join codec memb lists mmem_alloc block_of can_open (continue n 32)
                    (record b { assembly = a }) i d)
                {y = length (q ∷ ps)} (omega arith),
        held,
      )
