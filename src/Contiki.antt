-- ===== src/Contiki.antt =====
-- The parts of Contiki that the firmware's bookkeeping calls, as interfaces with the behaviour that
-- Contiki documents: lib/memb.h and lib/list.h. Contiki is not part of this repository.
use contiki_device_link.Common.{
  ℕ, ◌+◌, ◌<◌, ◌≡◌, List, [], ◌∷◌, ◌++◌, Option, none, some, ◌==◌, if◌then◌else◌,
}

-- MEMB: a pool with a fixed number of blocks.
pub record Memb : Type 1 where
  pub State : Type 0
  pub memb_init : ℕ → State
  pub memb_alloc : State → Option State
  pub memb_free : State → State
  pub free_blocks : State → ℕ
  pub free-init : (n : ℕ) → free_blocks (memb_init n) ≡ n
  pub free-free : (s : State) → free_blocks (memb_free s) ≡ free_blocks s + 1
  pub alloc_empty : (s : State) → free_blocks s ≡ 0 → memb_alloc s ≡ none
  pub alloc_block :
      (s : State)
      → 0 < free_blocks s
      → (t : State) × (memb_alloc s ≡ some t) × (free_blocks t + 1 ≡ free_blocks s)

-- LIST: `list_add` of a block that is not yet in the list puts it at the end.
pub record Lists (A : Type 0) : Type 0 where
  pub list_add : List A → A → List A
  pub add_end : (xs : List A) (x : A) → list_add xs x ≡ xs ++ x ∷ []

-- A list of pointers without one of them.
unfoldable pub without : List ℕ → ℕ → List ℕ
without [] x = []
without (y ∷ ys) x = if y == x then ys else y ∷ without ys x

-- LIST again, for items that may be in the list already: `list_add` takes such an item out first.
pub record PointerLists : Type 0 where
  pub list_add : List ℕ → ℕ → List ℕ
  pub list_remove : List ℕ → ℕ → List ℕ
  pub remove_lem : (xs : List ℕ) (x : ℕ) → list_remove xs x ≡ without xs x
  pub add_lem : (xs : List ℕ) (x : ℕ) → list_add xs x ≡ without xs x ++ x ∷ []
