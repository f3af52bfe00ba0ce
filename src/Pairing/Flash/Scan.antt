-- ===== src/Pairing/Flash/Scan.antt =====
-- The two loops of `pairing_remove` over a file of records, and the records that stay.
use contiki_device_link.Common.{
  drop-append, ℕ, zero, suc, ◌+◌, ◌≤◌, ◌<◌, ◌≡◌, refl, sym, ap, ◌∙◌, Bool, true, false, ◌&&◌, List,
  [], ◌∷◌, ◌++◌, none, some, if◌then◌else◌, ◌==◌, ltb, length, arith, length-append, append_assoc,
  append-nil, Bool-cases, inl, inr, ◌⊎◌,
}
use contiki_device_link.Cmp.{Codec}
use contiki_device_link.Pairing.{Assembly, buffersize}
use contiki_device_link.Pairing.Flash.Remove.{
  Copied, next_index, refilled, copy_wanted, keep_record, copy_back, copied_wanted, copied_back,
}

-- What the MessagePack library documents of binary data; and that a read at the end of the file
-- fails, which the loops rely on.
pub record ReadsBins (codec : Codec) : Type 0 where
  pub reads :
      (room : ℕ) (v rest : List ℕ)
      → length v ≤ room
      → codec.read_bin room (codec.write_bin v ++ rest)
        ≡ record { value = some v; used = length (codec.write_bin v) }
  pub marked : (v : List ℕ) → 0 < length (codec.write_bin v)
  pub ends : (room : ℕ) → codec.read_bin room [] ≡ record { value = none; used = 0 }

-- the records, each of which the static buffer has room for
abbrev pub AllFit : List (List ℕ) → Type 0
AllFit [] = Unit
AllFit (m ∷ ms) = (length m ≤ buffersize) × AllFit ms

-- the indexes ascend
abbrev pub is_ordered : List ℕ → Bool
is_ordered [] = true
is_ordered (i ∷ []) = true
is_ordered (i ∷ j ∷ is) = ltb i j && is_ordered (j ∷ is)

abbrev pub is_index : ℕ → List ℕ → Bool
is_index k [] = false
is_index k (i ∷ is) = if k == i then true else is_index k is

-- the records, numbered from `k` on, whose number is not an index
abbrev pub without : List ℕ → ℕ → List (List ℕ) → List (List ℕ)
without is k [] = []
without is k (m ∷ ms) = let rest = without is (k + 1) ms in if is_index k is then rest else m ∷ rest

-- the index that the loop waits for is not behind it, or is the last one
abbrev Waits : List ℕ → ℕ → Type 0
Waits [] k = Unit
Waits (i ∷ is) k = (k ≤ i) ⊎ (is ≡ [])

is_index_below :
    (i : ℕ) (is : List ℕ) (k : ℕ) → is_ordered (i ∷ is) ≡ true → k < i → is_index k (i ∷ is) ≡ false
is_index_below i [] k h below = ground arith
is_index_below i (j ∷ is) k h below =
    ground (arith, is_index_below j is k (ground (arith, h)) (ground (arith, h, below)))

without_passed :
    (i : ℕ) (is : List ℕ) (k : ℕ) (ms : List (List ℕ))
    → i < k
    → without (i ∷ is) k ms ≡ without is k ms
without_passed i is k [] h = refl
without_passed i is k (m ∷ ms) h =
    let other : (k == i) ≡ false = ground (arith, h) in
    rw (other, without_passed i is (k + 1) ms (omega (arith, h))) refl

pub AllFit-without :
    (is : List ℕ) (k : ℕ) (ms : List (List ℕ)) → AllFit ms → AllFit (without is k ms)
AllFit-without is k [] fit = fit
AllFit-without is k (m ∷ ms) fit = elim (Bool-cases (is_index k is)) [
  | inl gone ↦ rw gone (AllFit-without is (k + 1) ms fit.1)
  | inr stays ↦ rw stays (fit.0, AllFit-without is (k + 1) ms fit.1)
]

last_index : (k i : ℕ) → (if k == i then next_index (i ∷ []) else i ∷ []) ≡ i ∷ []
unfolding next_index
last_index k i = elim (Bool-cases (k == i)) [ inl hit ↦ rw hit refl | inr misses ↦ rw misses refl ]

not_yet : (k i j : ℕ) (is : List ℕ) → Waits (i ∷ j ∷ is) k → (k == i) ≡ false → k < i
not_yet k i j is (inl behind) misses = ground (arith, behind, misses)
not_yet k i j is (inr e) misses = absurd (cc e)

module _ (codec : Codec) where
  -- the content of a file with the records
  unfoldable pub written : List (List ℕ) → List ℕ
  written [] = []
  written (m ∷ ms) = codec.write_bin m ++ written ms

  pub written-append :
      (ms : List (List ℕ)) (m : List ℕ) → written (ms ++ m ∷ []) ≡ written ms ++ codec.write_bin m
  unfolding written
  written-append [] m = append-nil (codec.write_bin m)
  written-append (n ∷ ms) m =
      ap (λ t. codec.write_bin n ++ t) (written-append ms m)
      ∙ sym (append_assoc (codec.write_bin n) (written ms) (codec.write_bin m))

  module _ (law : ReadsBins codec) where
    -- what the reader gives at a record that fits, and what is left
    next_record :
        (a : Assembly) (m : List ℕ) (ms : List (List ℕ))
        → a.bufsize ≡ buffersize
        → length m ≤ buffersize
        → codec.read_bin a.bufsize (written (m ∷ ms))
          ≡ record { value = some m; used = length (codec.write_bin m) }
    unfolding written
    next_record a m ms full fits = law.reads a.bufsize m (written ms) (omega (arith, full, fits))

    fewer_bytes :
        (rounds : ℕ) (m : List ℕ) (ms : List (List ℕ))
        → length (written (m ∷ ms)) < suc rounds
        → length (written ms) < rounds
    unfolding written
    fewer_bytes rounds m ms enough =
        omega (arith, enough, law.marked m, length-append (codec.write_bin m) (written ms))

    copy_back-written :
        (ms : List (List ℕ)) (a : Assembly) (rounds : ℕ)
        → a.bufsize ≡ buffersize
        → AllFit ms
        → length (written ms) < rounds
        → (t : Copied) × (copy_back codec rounds a (written ms) ≡ some t) × (t.written ≡ written ms)
    unfolding copy_back keep_record written
    copy_back-written ms a zero full fit enough = absurd (omega (arith, enough))
    copy_back-written [] a (suc rounds) full fit enough = (
      record { written = []; offset = 0; assembly = a },
      rw (law.ends a.bufsize, copy_back) (rw (law.ends a.bufsize) refl),
      refl,
    )
    copy_back-written (m ∷ ms) a (suc rounds) full fit enough =
        let (t, ran, same) =
          copy_back-written ms (refilled a m) rounds refl fit.1 (fewer_bytes rounds m ms enough) in
        (
          record t {
            written = codec.write_bin m ++ t.written;
            offset = length (codec.write_bin m) + t.offset;
          },
          rw (next_record a m ms full fit.0, copy_back)
              (rw (next_record a m ms full fit.0)
                (rw (drop-append (codec.write_bin m) (written ms)) (rw ran refl))),
          ap (λ l. codec.write_bin m ++ l) same,
        )

    -- what the first loop gives for the records `ms`, numbered from `k` on
    pub record IsCopied (is : List ℕ) (k : ℕ) (ms : List (List ℕ)) (t : Copied) : Type 0 where
      pub kept : t.written ≡ written (without is k ms)
      pub read : t.offset ≡ length (written ms)
      pub limit : t.assembly.bufsize ≡ buffersize

    -- one round of the first loop, whose rest is `t`
    round_step :
        (rounds k i : ℕ) (is : List ℕ) (a : Assembly) (m : List ℕ) (ms : List (List ℕ)) (t : Copied)
        (next : List ℕ)
        → a.bufsize ≡ buffersize
        → length m ≤ buffersize
        → (if k == i then next_index (i ∷ is) else i ∷ is) ≡ next
        → copy_wanted codec rounds (k + 1) next (refilled a m) (written ms) ≡ some t
        → copy_wanted codec (suc rounds) k (i ∷ is) a (written (m ∷ ms))
          ≡ keep_record codec (k == i) m (length (codec.write_bin m)) (some t)
    unfolding copy_wanted written
    round_step rounds k i is a m ms t next full fits goes ran =
        rw (next_record a m ms full fits, copy_wanted)
          (rw (next_record a m ms full fits)
            (rw (drop-append (codec.write_bin m) (written ms)) (rw goes (rw ran refl))))

    -- A round whose rest went on with the indexes `next`, if these name the same of the later records.
    round-IsCopied :
        (rounds k i : ℕ) (is : List ℕ) (a : Assembly) (m : List ℕ) (ms : List (List ℕ)) (t : Copied)
        (next : List ℕ)
        → a.bufsize ≡ buffersize
        → length m ≤ buffersize
        → (if k == i then next_index (i ∷ is) else i ∷ is) ≡ next
        → copy_wanted codec rounds (k + 1) next (refilled a m) (written ms) ≡ some t
        → is_index k (i ∷ is) ≡ (k == i)
        → without next (k + 1) ms ≡ without (i ∷ is) (k + 1) ms
        → IsCopied next (k + 1) ms t
        → (u : Copied) × (copy_wanted codec (suc rounds) k (i ∷ is) a (written (m ∷ ms)) ≡ some u)
          × IsCopied (i ∷ is) k (m ∷ ms) u
    unfolding keep_record written
    round-IsCopied rounds k i is a m ms t next full fits goes ran first later copied = (
      record t {
        written = (if k == i then [] else codec.write_bin m) ++ t.written;
        offset = length (codec.write_bin m) + t.offset;
      },
      round_step rounds k i is a m ms t next full fits goes ran,
      record {
        kept = elim (Bool-cases (k == i)) [
          | inl hit ↦ rw (first, hit) (copied.kept ∙ ap written later)
          | inr misses ↦
              rw (first, misses) (ap (λ l. codec.write_bin m ++ l) (copied.kept ∙ ap written later))
        ];
        read = omega (arith, copied.read, length-append (codec.write_bin m) (written ms));
        limit = copied.limit;
      },
    )

    copy_wanted-IsCopied :
        (ms : List (List ℕ)) (a : Assembly) (rounds k i : ℕ) (is : List ℕ)
        → a.bufsize ≡ buffersize
        → AllFit ms
        → length (written ms) < rounds
        → is_ordered (i ∷ is) ≡ true
        → Waits (i ∷ is) k
        → (t : Copied) × (copy_wanted codec rounds k (i ∷ is) a (written ms) ≡ some t)
          × IsCopied (i ∷ is) k ms t
    unfolding copy_wanted written next_index
    copy_wanted-IsCopied ms a zero k i is full fit enough sorted waits =
        absurd (omega (arith, enough))
    copy_wanted-IsCopied [] a (suc rounds) k i is full fit enough sorted waits = (
      record { written = []; offset = 0; assembly = a },
      rw (law.ends a.bufsize, copy_wanted) (rw (law.ends a.bufsize) refl),
      record { kept = refl; read = refl; limit = full },
    )
    copy_wanted-IsCopied (m ∷ ms) a (suc rounds) k i [] full fit enough sorted waits =
        let (t, ran, copied) =
          copy_wanted-IsCopied ms (refilled a m) rounds (k + 1) i [] refl fit.1
            (fewer_bytes rounds m ms enough) sorted (inr refl) in
        round-IsCopied rounds k i [] a m ms t (i ∷ []) full fit.0 (last_index k i) ran
          (ground arith) refl copied
    copy_wanted-IsCopied (m ∷ ms) a (suc rounds) k i (j ∷ is) full fit enough sorted waits =
        elim (Bool-cases (k == i)) [
          | inl hit ↦
              let (t, ran, copied) =
                copy_wanted-IsCopied ms (refilled a m) rounds (k + 1) j is refl fit.1
                  (fewer_bytes rounds m ms enough) (ground (arith, sorted))
                  (inl (ground (arith, sorted, hit))) in
              round-IsCopied rounds k i (j ∷ is) a m ms t (j ∷ is) full fit.0 (rw hit refl) ran
                (rw hit refl) (sym (without_passed i (j ∷ is) (k + 1) ms (ground (arith, hit))))
                copied
          | inr misses ↦
              let ahead : k < i = not_yet k i j is waits misses in
              let (t, ran, copied) =
                copy_wanted-IsCopied ms (refilled a m) rounds (k + 1) i (j ∷ is) refl fit.1
                  (fewer_bytes rounds m ms enough) sorted (inl (omega (arith, ahead))) in
              round-IsCopied rounds k i (j ∷ is) a m ms t (i ∷ j ∷ is) full fit.0 (rw misses refl)
                ran (is_index_below i (j ∷ is) k sorted ahead ∙ sym misses) refl copied
        ]

    pub copied_back-written :
        (ms : List (List ℕ)) (a : Assembly)
        → a.bufsize ≡ buffersize
        → AllFit ms
        → (t : Copied) × (copied_back codec a (written ms) ≡ some t) × (t.written ≡ written ms)
    unfolding copied_back
    copied_back-written ms a full fit =
        copy_back-written ms a (suc (length (written ms))) full fit (omega arith)

    pub copied_wanted-IsCopied :
        (ms : List (List ℕ)) (a : Assembly) (i : ℕ) (is : List ℕ)
        → a.bufsize ≡ buffersize
        → AllFit ms
        → is_ordered (i ∷ is) ≡ true
        → (t : Copied) × (copied_wanted codec (i ∷ is) a (written ms) ≡ some t)
          × IsCopied (i ∷ is) 0 ms t
    unfolding copied_wanted
    copied_wanted-IsCopied ms a i is full fit sorted =
        copy_wanted-IsCopied ms a (suc (length (written ms))) 0 i is full fit (omega arith) sorted
          (inl (omega arith))
