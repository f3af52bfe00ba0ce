-- ===== src/Pairing/Flash/Parts.antt =====
-- `pairing_getlist` of pairing.c, asked for one part after the other, as a client of the "pairings" query
-- does.
use contiki_device_link.Common.{
  ℕ, zero, suc, ◌+◌, ◌-◌, ◌≤◌, ◌<◌, ◌≡◌, refl, sym, ap, ◌∙◌, Bool, true, List, [], ◌∷◌, ◌++◌,
  Option, none, some, if◌then◌else◌, ltb, leb, min, length, take, drop, arith, length-take,
  length-drop, take-append-drop, append-nil, Bool-cases, inl, inr,
}
use contiki_device_link.Sensor.{Sensor}
use contiki_device_link.Pairing.Flash.{Name, Flash, pairs_, pairs_file, open_read, pairing_getlist}

-- The parts of `size` bytes from `offset` on, joined. A part shorter than `size` is the last one; `none` if
-- there is no list, or if it is not at its end after `rounds` parts.
pub fetch : (Flash → Name → Bool) → Flash → Sensor → ℕ → ℕ → ℕ → Option (List ℕ)
fetch can_open f s size zero offset = none
fetch can_open f s size (suc rounds) offset = elim (pairing_getlist can_open f s size offset) [
  | none ↦ none
  | some p ↦ elim (p.ret) [
    | none ↦ none
    | some ret ↦
        if ltb ret size then some p.buffer else elim (fetch can_open f s size rounds p.offset) [
          | none ↦ none
          | some rest ↦ some (p.buffer ++ rest)
        ]
  ]
]

drop-take-drop : (n k m : ℕ) (xs : List ℕ) → m ≡ k + n → take n (drop k xs) ++ drop m xs ≡ drop k xs
drop-take-drop n zero m xs e =
    ap (λ t. take n xs ++ drop t xs) (omega (arith, e)) ∙ take-append-drop n xs
drop-take-drop n (suc k) zero xs e = absurd (omega (arith, e))
drop-take-drop zero (suc k) (suc m) [] e = refl
drop-take-drop (suc n) (suc k) (suc m) [] e = refl
drop-take-drop n (suc k) (suc m) (x ∷ xs) e = drop-take-drop n k m xs (omega (arith, e))

drop_all : (n : ℕ) (xs : List ℕ) → length xs ≤ n → drop n xs ≡ []
drop_all zero [] h = refl
drop_all zero (x ∷ xs) h = absurd (omega (arith, h))
drop_all (suc n) [] h = refl
drop_all (suc n) (x ∷ xs) h = drop_all n xs (omega (arith, h))

module _ (can_open : Flash → Name → Bool) (f : Flash) (s : Sensor) (bytes : List ℕ)
    (named : length s.type + 7 ≤ 30) (opens : can_open f (pairs_ ++ s.type) ≡ true)
    (present : f.files (pairs_ ++ s.type) ≡ some bytes) where
  -- one part
  pub pairing_getlist_lem :
      (size offset : ℕ)
      → pairing_getlist can_open f s size offset
        ≡ some (record {
          ret = some (length (take size (drop offset bytes)));
          buffer = take size (drop offset bytes);
          offset = offset + length (take size (drop offset bytes));
        })
  unfolding pairing_getlist pairs_file open_read
  pairing_getlist_lem size offset =
      let room : leb (length s.type + 7) 30 ≡ true = ground (arith, named) in
      rw (room, pairing_getlist) (rw present (rw opens refl))

  fetch_from :
      (size : ℕ) (rounds offset : ℕ)
      → 0 < size
      → offset ≤ length bytes
      → length bytes < offset + rounds
      → fetch can_open f s size rounds offset ≡ some (drop offset bytes)
  unfolding fetch
  fetch_from size zero offset some_size inside enough = absurd (omega (arith, inside, enough))
  fetch_from size (suc rounds) offset some_size inside enough =
      let part = take size (drop offset bytes) in
      let long : length part ≡ min size (length bytes - offset) =
        length-take size (drop offset bytes) ∙ ap (min size) (length-drop offset bytes) in
      elim (Bool-cases (ltb (length part) size)) [
        | inl last ↦
            rw (pairing_getlist_lem size offset, fetch)
              (rw last (
                ap some (
                  sym (append-nil part)
                  ∙ (ap (λ l. part ++ l)
                        (sym (
                          drop_all size (drop offset bytes)
                            (ground (arith, last, long, length-drop offset bytes))))
                      ∙ take-append-drop size (drop offset bytes)))))
        | inr more ↦
            let full : length part ≡ size = ground (arith, more, long) in
            rw (pairing_getlist_lem size offset, fetch)
              (rw more (
                rw
                  (fetch_from size rounds (offset + length part) some_size
                    (omega (arith, full, long, inside)) (omega (arith, full, enough, some_size)))
                  (ap some (
                    drop-take-drop size offset (offset + length part) bytes
                      (omega (arith, full))))))
      ]

  -- From the start, with parts of at least a byte, the client has the whole file after one part more than it
  -- has bytes at the latest.
  pub fetch-pairing_getlist :
      (size : ℕ) → 0 < size → fetch can_open f s size (suc (length bytes)) 0 ≡ some bytes
  fetch-pairing_getlist size some_size =
      fetch_from size (suc (length bytes)) 0 some_size (omega arith) (omega arith)
