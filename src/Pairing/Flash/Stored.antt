-- ===== src/Pairing/Flash/Stored.antt =====
-- The pairs file of pairing.c as a list of messages: what storing, removing by index and removing all do
-- to the list.
use contiki_device_link.Common.{
  ℕ, ◌+◌, ◌≡◌, refl, ap, ◌∙◌, Bool, true, false, List, [], ◌∷◌, none, some, ◌==◌, length-append,
  arith,
}
use contiki_device_link.Cmp.{Codec}
use contiki_device_link.ReverseNotify.{Cfs, content}
use contiki_device_link.Pairing.{Assembly, buffersize}
use contiki_device_link.Pairing.Flash.{Name, Flash, put, temp, equal_name, open_write, cfs_close}
use contiki_device_link.Pairing.Flash.Remove.{Store, write_back, remove_indexes}
use contiki_device_link.Pairing.Flash.Scan.{
  ReadsBins, AllFit, is_ordered, without, AllFit-without, written, copied_back-written,
  copied_wanted-IsCopied,
}

pub equal_name_refl : (n : Name) → equal_name n n ≡ true
unfolding equal_name
equal_name_refl [] = refl
equal_name_refl (x ∷ xs) = ground (arith, equal_name_refl xs)

-- The file `name` holds the messages, and nothing is left in "temp".
pub record IsKept (codec : Codec) (name : Name) (f : Flash) (ms : List (List ℕ)) : Type 0 where
  pub holds : content (f.files name) ≡ written codec ms
  pub no_temp : content (f.files temp) ≡ []
  pub fit : AllFit ms

-- the code of a removal from the file of the messages: 3 if there are none
abbrev pub removal_code : List (List ℕ) → ℕ
removal_code [] = 3
removal_code (m ∷ ms) = 0

module _ (codec : Codec) (law : ReadsBins codec) (cfs : Cfs) (can_open : Flash → Name → Bool)
    (opens : (f : Flash) (n : Name) → can_open f n ≡ true) (name : Name)
    (name_temp : equal_name name temp ≡ false) (temp_name : equal_name temp name ≡ false) where
  -- the flash at the end of `write_back`, which wrote `bytes`
  abbrev after : Flash → List ℕ → Flash
  after f bytes =
      let g = record (put (put f name none) name (some [])) { opened = f.opened + 1 } in
      put (cfs_close (cfs_close (put g name (some (cfs.overwrite [] bytes))))) temp none

  pub write_back-IsKept :
      (f : Flash) (a : Assembly) (ks : List (List ℕ))
      → f.files temp ≡ some (written codec ks)
      → a.bufsize ≡ buffersize
      → AllFit ks
      → (t : Store) × (write_back codec cfs can_open name f a ≡ some (0, t))
        × IsKept codec name t.flash ks
  unfolding write_back open_write
  write_back-IsKept f a ks held full fit =
      let (t, ran, same) = copied_back-written codec law ks a full fit in
      (
        record { flash = after f t.written; assembly = record (t.assembly) { bufsize = 0 } },
        rw (opens (put f name none) name, write_back)
            (rw temp_name (rw held (rw ran (rw (equal_name_refl name) refl)))),
        record {
          holds =
              rw (name_temp, equal_name_refl name)
                (cfs.over_shorter [] t.written (omega arith) ∙ same);
          no_temp = rw (equal_name_refl temp) refl;
          fit = fit;
        },
      )

  -- the flash after the first loop wrote `bytes` to "temp"
  abbrev between : Flash → List ℕ → Flash
  between f bytes = cfs_close (put f temp (some (cfs.overwrite [] bytes)))

  pub remove_indexes-IsKept :
      (f : Flash) (a : Assembly) (ms : List (List ℕ)) (i : ℕ) (is : List ℕ)
      → content (f.files name) ≡ written codec ms
      → AllFit ms
      → is_ordered (i ∷ is) ≡ true
      → (t : Store) × (remove_indexes codec cfs can_open name f a (written codec ms) [] (i ∷ is)
          ≡ some (removal_code ms, t))
        × IsKept codec name t.flash (without (i ∷ is) 0 ms)
  unfolding remove_indexes written
  remove_indexes-IsKept f a [] i is holds fit sorted =
      let (t, ran, copied) =
        copied_wanted-IsCopied codec law [] (record a { bufsize = buffersize }) i is refl fit
          sorted in
      let nothing : (t.offset == 0) ≡ true = ground (arith, copied.read) in
      (
        record { flash = between f t.written; assembly = t.assembly },
        rw (ran, remove_indexes) (rw nothing refl),
        record {
          holds = rw name_temp holds;
          no_temp =
              rw (equal_name_refl temp) (cfs.over_shorter [] t.written (omega arith) ∙ copied.kept);
          fit = fit;
        },
      )
  remove_indexes-IsKept f a (m ∷ ms) i is holds fit sorted =
      let (t, ran, copied) =
        copied_wanted-IsCopied codec law (m ∷ ms) (record a { bufsize = buffersize }) i is refl fit
          sorted in
      let something : (t.offset == 0) ≡ false =
        ground (
          arith,
          copied.read,
          law.marked m,
          length-append (codec.write_bin m) (written codec ms),
        ) in
      let (u, back, kept) =
        write_back-IsKept (between f t.written) t.assembly (without (i ∷ is) 0 (m ∷ ms))
          (rw (equal_name_refl temp)
            (ap some (cfs.over_shorter [] t.written (omega arith) ∙ copied.kept)))
          copied.limit (AllFit-without (i ∷ is) 0 (m ∷ ms) fit) in
      (u, rw (ran, remove_indexes) (rw something back), kept)
