-- ===== src/ReverseNotify.antt =====
-- sensorsUnleashed/reverseNotify.c: the nodes that observe this one. They are kept in a list and in a flash
-- file, so that after a restart each can be told that this node is awake. An address is the list of
-- its eight words. Contiki's flash file system is the interface `Cfs`.
pub mod Save
pub mod Tests
use contiki_device_link.Common.{
  ℕ, zero, suc, ◌+◌, ◌≤◌, ◌≡◌, Bool, true, false, ◌&&◌, List, [], ◌∷◌, ◌++◌, Option, none, some,
  if◌then◌else◌, ◌==◌, length, drop,
}
use contiki_device_link.Contiki.{Memb, Lists}
use contiki_device_link.Cmp.{Codec}

abbrev pub Address : Type 0
Address = List ℕ

abbrev pub revlookups : ℕ
revlookups = 20

-- A file that is opened with CFS_READ | CFS_WRITE is written from its start: `overwrite old new` is its
-- content after that. What is at least as long as the old content replaces it.
pub record Cfs : Type 0 where
  pub overwrite : List ℕ → List ℕ → List ℕ
  pub over_shorter : (old new : List ℕ) → length old ≤ length new → overwrite old new ≡ new

-- `revlookup_memb`, `revlookup`, the file "revnotify" if it exists, and the addresses that
-- `susensors_presence` was posted for, the latest first
pub record Sources (P : Type 0) : Type 0 where
  pub pool : P
  pub revlookup : List Address
  pub file : Option (List ℕ)
  pub posted : List Address

-- what a file holds, nothing if there is none
abbrev pub content : Option (List ℕ) → List ℕ
content none = []
content (some bytes) = bytes

unfoldable pub same_address : Address → Address → Bool
same_address [] [] = true
same_address [] (y ∷ ys) = false
same_address (x ∷ xs) [] = false
same_address (x ∷ xs) (y ∷ ys) = x == y && same_address xs ys

-- the loop of `addSource`
unfoldable pub is_source : List Address → Address → Bool
unfolding same_address
is_source [] a = false
is_source (b ∷ bs) a = let rest = is_source bs a in if same_address a b then true else rest

module _ (codec : Codec) where
  unfoldable pub write_words : List ℕ → List ℕ
  write_words [] = []
  write_words (w ∷ ws) = codec.write_u16 w ++ write_words ws

  -- the bytes that `writeFile` writes
  unfoldable pub write_sources : List Address → List ℕ
  unfolding write_words
  write_sources [] = []
  write_sources (a ∷ as') = codec.write_array 8 ++ (write_words a ++ write_sources as')

  -- `for(j<size) cmp_read_u16(…)`, `n` more words: the words and what follows them. A word that cannot be
  -- read stays what it was in the block, `stale`.
  unfoldable pub read_words : ℕ → ℕ → List ℕ → List ℕ × List ℕ
  read_words stale zero bytes = ([], bytes)
  read_words stale (suc n) bytes =
      let r = codec.read_u16 bytes in
      let (ws, rest) = read_words stale n (drop r.used bytes) in
      ((elim (r.value) [ none ↦ stale | some w ↦ w ]) ∷ ws, rest)

  unfoldable pub read_address : ℕ → List ℕ → Address × List ℕ
  unfolding read_words
  read_address stale bytes = read_words stale 8 bytes

  module _ (memb : Memb) (lists : Lists Address) where
    -- The loop of `initReverseNotify`. Every round takes a block of the pool, so `revlookups` rounds and
    -- one more are enough.
    unfoldable pub read_sources : ℕ → ℕ → Sources memb.State → List ℕ → Sources memb.State
    unfolding read_address
    read_sources stale zero s bytes = s
    read_sources stale (suc rounds) s bytes =
        let header = codec.read_array bytes in
        elim (header.value) [
          | none ↦ s
          | some size ↦
              if size == 8
              then elim (memb.memb_alloc s.pool) [
                | none ↦ s
                | some pool ↦
                    let (a, rest) = read_address stale (drop header.used bytes) in
                    read_sources stale rounds
                      (record s {
                        pool = pool;
                        revlookup = lists.list_add s.revlookup a;
                        posted = a ∷ s.posted;
                      })
                      rest
              ]
              else s
        ]

    unfoldable pub init_reverse_notify : ℕ → Option (List ℕ) → Sources memb.State
    unfolding read_sources
    init_reverse_notify stale file =
        let s : Sources memb.State = record {
          pool = memb.memb_init revlookups;
          revlookup = [];
          file = file;
          posted = [];
        } in
        elim file [ none ↦ s | some bytes ↦ read_sources stale (revlookups + 1) s bytes ]

    module _ (cfs : Cfs) where
      -- `writeFile`, if the file can be opened or not
      unfoldable pub write_file : Bool → Sources memb.State → Sources memb.State
      unfolding write_sources
      write_file false s = s
      write_file true s = elim (s.revlookup) [
        | [] ↦ record s { file = none }
        | a ∷ as' ↦ record s {
          file = some (cfs.overwrite (content s.file) (write_sources (a ∷ as')));
        }
      ]

      -- `addSource`
      unfoldable pub add_source : Bool → Sources memb.State → Address → Sources memb.State
      unfolding write_file is_source
      add_source opens s srcaddr =
          if is_source s.revlookup srcaddr then s else elim (memb.memb_alloc s.pool) [
            | none ↦ s
            | some pool ↦
                write_file opens
                  (record s { pool = pool; revlookup = lists.list_add s.revlookup srcaddr })
          ]

      -- `removeItem`; `list_remove` is Contiki's, for the item's place in the list.
      unfoldable pub remove_item :
          (List Address → ℕ → List Address) → Bool → Sources memb.State → ℕ → Sources memb.State
      unfolding write_file
      remove_item list_remove opens s i =
          write_file opens (record s { revlookup = list_remove s.revlookup i })
