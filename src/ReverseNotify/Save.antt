-- ===== src/ReverseNotify/Save.antt =====
-- The file of reverseNotify.c holds the list, and a restart restores it.
use contiki_device_link.Common.{
  drop-append, ℕ, zero, suc, ◌+◌, ◌≤◌, ◌<◌, ◌≡◌, ◌≢◌, refl, sym, ap, ap₂, get_elem?, ◌∙◌, true,
  false, List, [], ◌∷◌, ◌++◌, Option, none, some, ◌==◌, length, drop, arith, append_assoc,
  append-nil, length-append, subst, Bool-cases, inl, inr,
}
use mathlib.Core.Option.{some-injective}
use contiki_device_link.Contiki.{Memb, Lists}
use contiki_device_link.Cmp.{Codec, Read}
use contiki_device_link.ReverseNotify.{
  Address, revlookups, Cfs, Sources, content, is_source, write_words, write_sources, read_words,
  read_address, read_sources, init_reverse_notify, write_file, add_source, same_address,
}

abbrev pub AllWords : List ℕ → Type 0
AllWords [] = Unit
AllWords (w ∷ ws) = (w < 65536) × AllWords ws

abbrev pub IsAddress : Address → Type 0
IsAddress a = (length a ≡ 8) × AllWords a

abbrev pub AllAddresses : List Address → Type 0
AllAddresses [] = Unit
AllAddresses (a ∷ as') = IsAddress a × AllAddresses as'

AllAddresses-append :
    (as' bs : List Address) → AllAddresses as' → AllAddresses bs → AllAddresses (as' ++ bs)
AllAddresses-append [] bs p q = q
AllAddresses-append (a ∷ as') bs p q = (p.0, AllAddresses-append as' bs p.1 q)

-- the addresses in the order in which they were told, the latest first
abbrev pub told_after : List Address → List Address → List Address
told_after [] before = before
told_after (a ∷ as') before = told_after as' (a ∷ before)

pub same_address-eq : (a b : Address) → same_address a b ≡ true → a ≡ b
unfolding same_address
same_address-eq [] [] h = refl
same_address-eq [] (y ∷ ys) h = absurd (cc h)
same_address-eq (x ∷ xs) [] h = absurd (cc h)
same_address-eq (x ∷ xs) (y ∷ ys) h =
    ap₂ (λ z zs. z ∷ zs) (ground (arith, h)) (same_address-eq xs ys (ground (arith, h)))

pub same_address_refl : (a : Address) → same_address a a ≡ true
unfolding same_address
same_address_refl [] = refl
same_address_refl (x ∷ xs) = ground (arith, same_address_refl xs)

is_source-at :
    (l : List Address) (i : ℕ) (a : Address) → get_elem? l i ≡ some a → is_source l a ≡ true
unfolding is_source
is_source-at [] i a at = absurd (cc at)
is_source-at (b ∷ bs) zero a at =
    let same = some-injective b a at in
    rw (ap (same_address a) same ∙ same_address_refl a, is_source) refl
is_source-at (b ∷ bs) (suc i) a at = elim (Bool-cases (same_address a b)) [
  | inl hit ↦ rw (hit, is_source) refl
  | inr misses ↦ rw (misses, is_source) (is_source-at bs i a at)
]

is_source-nowhere :
    (l : List Address) (a : Address) → ((i : ℕ) → get_elem? l i ≢ some a) → is_source l a ≡ false
unfolding is_source
is_source-nowhere [] a nowhere = refl
is_source-nowhere (b ∷ bs) a nowhere = elim (Bool-cases (same_address a b)) [
  | inl hit ↦ absurd (nowhere 0 (ap some (sym (same_address-eq a b hit))))
  | inr misses ↦ rw (misses, is_source) (is_source-nowhere bs a (λ i. nowhere (suc i)))
]

-- What the MessagePack library documents of arrays and 16-bit words; and that reading an array's header
-- at the end of the file fails, which the loop relies on.
pub record ReadsArrays (codec : Codec) : Type 0 where
  pub reads_header :
      (rest : List ℕ)
      → codec.read_array (codec.write_array 8 ++ rest)
        ≡ record { value = some 8; used = length (codec.write_array 8) }
  pub reads_word :
      (w : ℕ) (rest : List ℕ)
      → w < 65536
      → codec.read_u16 (codec.write_u16 w ++ rest)
        ≡ record { value = some w; used = length (codec.write_u16 w) }
  pub ends : (codec.read_array []).value ≡ none

module _ (codec : Codec) where
  write_sources-append :
      (as' bs : List Address)
      → write_sources codec (as' ++ bs) ≡ write_sources codec as' ++ write_sources codec bs
  unfolding write_sources
  write_sources-append [] bs = refl
  write_sources-append (a ∷ as') bs =
      ap (λ t. codec.write_array 8 ++ (write_words codec a ++ t)) (write_sources-append as' bs)
      ∙ simp append_assoc

  read_words-written :
      (stale : ℕ) (ws rest : List ℕ)
      → ReadsArrays codec
      → AllWords ws
      → read_words codec stale (length ws) (write_words codec ws ++ rest) ≡ (ws, rest)
  unfolding read_words write_words
  read_words-written stale [] rest law small = refl
  read_words-written stale (w ∷ ws) rest law small =
      let bytes = codec.write_u16 w ++ (write_words codec ws ++ rest) in
      let whole = append_assoc (codec.write_u16 w) (write_words codec ws) rest in
      rw whole (
        rw (law.reads_word w (write_words codec ws ++ rest) small.0) (
          rw (drop-append (codec.write_u16 w) (write_words codec ws ++ rest))
            (rw (read_words-written stale ws rest law small.1) refl)))

  read_address-written :
      (stale : ℕ) (a : Address) (rest : List ℕ)
      → ReadsArrays codec
      → IsAddress a
      → read_address codec stale (write_words codec a ++ rest) ≡ (a, rest)
  unfolding read_address
  read_address-written stale a rest law small =
      ap (λ n. read_words codec stale n (write_words codec a ++ rest)) (sym small.0)
      ∙ read_words-written stale a rest law small.1

  module _ (memb : Memb) (lists : Lists Address) where
    -- `t` is `s` after the addresses were read and their nodes told
    pub record IsRestored (as' : List Address) (s t : Sources memb.State) : Type 0 where
      pub listed : t.revlookup ≡ s.revlookup ++ as'
      pub told : t.posted ≡ told_after as' s.posted

    read_sources-written :
        (as' : List Address) (stale rounds : ℕ) (s : Sources memb.State)
        → ReadsArrays codec
        → AllAddresses as'
        → length as' < rounds
        → length as' ≤ memb.free_blocks s.pool
        → IsRestored as' s (read_sources codec memb lists stale rounds s (write_sources codec as'))
    unfolding read_sources write_sources
    read_sources-written as' stale zero s law small enough room = absurd (omega arith)
    read_sources-written [] stale (suc rounds) s law small enough room =
        rw (law.ends, read_sources) (record { listed = sym (append-nil s.revlookup); told = refl })
    read_sources-written (a ∷ as') stale (suc rounds) s law small enough room =
        let (pool, gives, fewer) = memb.alloc_block s.pool (omega (arith, room)) in
        let rest = write_words codec a ++ write_sources codec as' in
        let s' = record s {
          pool = pool;
          revlookup = lists.list_add s.revlookup a;
          posted = a ∷ s.posted;
        } in
        let r =
          read_sources-written as' stale rounds s' law small.1 (omega arith)
            (omega (arith, fewer, room)) in
        let bytes = write_sources codec (a ∷ as') in
        let header = ap (λ (r : Read ℕ). r.value) (law.reads_header rest) in
        let first : read_address codec stale (drop (codec.read_array bytes).used bytes)
            ≡ (a, write_sources codec as') =
          ap (λ (r : Read ℕ). read_address codec stale (drop r.used bytes)) (law.reads_header rest)
          ∙ (ap (read_address codec stale) (drop-append (codec.write_array 8) rest)
              ∙ read_address-written stale a (write_sources codec as') law small.0) in
        let next : read_sources codec memb lists stale (suc rounds) s bytes
            ≡ read_sources codec memb lists stale rounds s' (write_sources codec as') =
          rw (header, read_sources)
            (rw gives (
              ap
                (λ (x : Address × List ℕ).
                  read_sources codec memb lists stale rounds
                    (record s {
                      pool = pool;
                      revlookup = lists.list_add s.revlookup x.0;
                      posted = x.0 ∷ s.posted;
                    })
                    x.1)
                first)) in
        subst (IsRestored (a ∷ as') s) (sym next) (record {
          listed =
              r.listed
              ∙ (ap (λ l. l ++ as') (lists.add_end s.revlookup a)
                  ∙ append_assoc s.revlookup (a ∷ []) as');
          told = r.told;
        })

    -- The file holds the list, and the pool's blocks are free or in the list.
    pub record IsSaved (s : Sources memb.State) : Type 0 where
      pub saved : content s.file ≡ write_sources codec s.revlookup
      pub blocks_used : memb.free_blocks s.pool + length s.revlookup ≡ revlookups
      pub words : AllAddresses s.revlookup

    nothing_written : (l : List Address) → ReadsArrays codec → [] ≡ write_sources codec l → l ≡ []
    unfolding write_sources
    nothing_written [] law e = refl
    nothing_written (a ∷ as') law e =
        let header =
          ap (λ (r : Read ℕ). r.value)
            (law.reads_header (write_words codec a ++ write_sources codec as')) in
        cc (law.ends, ap (λ bytes. (codec.read_array bytes).value) e, header)

    restored :
        (stale : ℕ) (file : Option (List ℕ)) (l : List Address)
        → ReadsArrays codec
        → AllAddresses l
        → length l ≤ revlookups
        → content file ≡ write_sources codec l
        → let t = init_reverse_notify codec memb lists stale file in
          (t.revlookup ≡ l) × (t.posted ≡ told_after l [])
    unfolding init_reverse_notify
    restored stale none l law small fits e =
        let nobody = sym (nothing_written l law e) in (nobody, ap (λ l. told_after l []) nobody)
    restored stale (some bytes) l law small fits e =
        let s : Sources memb.State = record {
          pool = memb.memb_init revlookups;
          revlookup = [];
          file = some bytes;
          posted = [];
        } in
        let r =
          read_sources-written l stale (revlookups + 1) s law small (omega (arith, fits))
            (omega (arith, fits, memb.free-init revlookups)) in
        let same = ap (read_sources codec memb lists stale (revlookups + 1) s) e in
        (
          ap (λ (t : Sources memb.State). t.revlookup) same ∙ r.listed,
          ap (λ (t : Sources memb.State). t.posted) same ∙ r.told,
        )

    -- A restart from the file of a saved list restores the list, and tells every node of it, in its
    -- order.
    pub init_reverse_notify-IsSaved :
        (stale : ℕ) (s : Sources memb.State)
        → ReadsArrays codec
        → IsSaved s
        → let t = init_reverse_notify codec memb lists stale s.file in
          (t.revlookup ≡ s.revlookup) × (t.posted ≡ told_after s.revlookup [])
    init_reverse_notify-IsSaved stale s law v =
        restored stale s.file s.revlookup law v.words (omega (arith, v.blocks_used)) v.saved

    module _ (cfs : Cfs) where
      saved-write_file :
          (s : Sources memb.State) (l : List Address)
          → s.revlookup ≡ l
          → length (content s.file) ≤ length (write_sources codec l)
          → content (write_file codec memb lists cfs true s).file ≡ write_sources codec l
      unfolding write_file write_sources
      saved-write_file s [] e longer = rw (e, write_file) refl
      saved-write_file s (a ∷ as') e longer =
          rw (e, write_file)
            (cfs.over_shorter (content s.file) (write_sources codec (a ∷ as')) longer)

      kept-write_file :
          (s : Sources memb.State) (l : List Address)
          → s.revlookup ≡ l
          → let t = write_file codec memb lists cfs true s in
            (t.revlookup ≡ s.revlookup) × (t.pool ≡ s.pool)
      unfolding write_file
      kept-write_file s [] e = rw (e, write_file) (e, refl)
      kept-write_file s (a ∷ as') e = rw (e, write_file) (e, refl)

      -- what `add_source` does, by the outcome of its search
      add_source-cases :
          (s : Sources memb.State) (a : Address)
          → IsSaved s
          → IsAddress a
          → let t = add_source codec memb lists cfs true s a in
            IsSaved t
            × (is_source s.revlookup a ≡ true → t ≡ s)
            × (length s.revlookup ≡ revlookups → t ≡ s)
            × (is_source s.revlookup a ≡ false
                → length s.revlookup < revlookups
                → t.revlookup ≡ s.revlookup ++ a ∷ [])
      unfolding add_source
      add_source-cases s a v small = elim (Bool-cases (is_source s.revlookup a)) [
        | inl known ↦ unchanged (rw (known, add_source) refl) (λ new. cc (known, new))
        | inr new ↦ elim (Bool-cases (memb.free_blocks s.pool == 0)) [
          | inl full ↦
              let empty : memb.free_blocks s.pool ≡ 0 = ground (arith, full) in
              unchanged (rw (new, add_source) (rw (memb.alloc_empty s.pool empty) refl))
                (λ _ room. absurd (omega (arith, room, v.blocks_used, empty)))
          | inr some_free ↦
              let (pool, gives, fewer) = memb.alloc_block s.pool (ground (arith, some_free)) in
              let s' = record s { pool = pool; revlookup = lists.list_add s.revlookup a } in
              let at_end = lists.add_end s.revlookup a in
              let t = write_file codec memb lists cfs true s' in
              let kept = kept-write_file s' s'.revlookup refl in
              let more =
                ap (write_sources codec) at_end ∙ write_sources-append s.revlookup (a ∷ []) in
              let longer : length (content s.file) ≤ length (write_sources codec s'.revlookup) =
                omega (
                  arith,
                  ap length v.saved,
                  ap length more,
                  length-append (write_sources codec s.revlookup) (write_sources codec (a ∷ [])),
                ) in
              let eq : add_source codec memb lists cfs true s a ≡ t =
                rw (new, add_source) (rw gives refl) in
              let t_saved : IsSaved t = record {
                saved =
                    saved-write_file s' s'.revlookup refl longer
                    ∙ ap (write_sources codec) (sym kept.0);
                blocks_used = omega (
                  arith,
                  ap memb.free_blocks kept.1,
                  ap length kept.0,
                  ap length at_end,
                  length-append s.revlookup (a ∷ []),
                  fewer,
                  v.blocks_used,
                );
                words =
                    subst AllAddresses (sym (kept.0 ∙ at_end))
                      (AllAddresses-append s.revlookup (a ∷ []) v.words (small, tt));
              } in
              (
                subst IsSaved (sym eq) t_saved,
                (λ known. cc (known, new)),
                (λ full. absurd (omega (arith, full, fewer, v.blocks_used))),
                (λ _ _. ap (λ (t : Sources memb.State). t.revlookup) eq ∙ (kept.0 ∙ at_end)),
              )
        ]
      ]
        where
          unchanged :
              add_source codec memb lists cfs true s a ≡ s
              → (is_source s.revlookup a ≡ false → length s.revlookup < revlookups → ⊥)
              → let t = add_source codec memb lists cfs true s a in
                IsSaved t
                × (is_source s.revlookup a ≡ true → t ≡ s)
                × (length s.revlookup ≡ revlookups → t ≡ s)
                × (is_source s.revlookup a ≡ false
                    → length s.revlookup < revlookups
                    → t.revlookup ≡ s.revlookup ++ a ∷ [])
          unchanged eq never = (
            subst IsSaved (sym eq) v,
            (λ _. eq),
            (λ _. eq),
            (λ new room. absurd (never new room)),
          )

      -- With a file that can be opened, adding a node keeps the list saved. A node whose address has a place in the
      -- list, or that finds the list full, changes nothing; one whose address has no place in it is put
      -- behind the others.
      pub add_source-IsSaved :
          (s : Sources memb.State) (a : Address)
          → IsSaved s
          → IsAddress a
          → let t = add_source codec memb lists cfs true s a in
            IsSaved t
            × ((i : ℕ) → get_elem? s.revlookup i ≡ some a → t ≡ s)
            × (length s.revlookup ≡ revlookups → t ≡ s)
            × (((i : ℕ) → get_elem? s.revlookup i ≢ some a)
                → length s.revlookup < revlookups
                → t.revlookup ≡ s.revlookup ++ a ∷ [])
      add_source-IsSaved s a v small =
          let (saves, known, full, new) = add_source-cases s a v small in
          (
            saves,
            (λ i at. known (is_source-at s.revlookup i a at)),
            full,
            (λ nowhere. new (is_source-nowhere s.revlookup a nowhere)),
          )
