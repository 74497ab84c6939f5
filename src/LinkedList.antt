-- ===== src/LinkedList.antt =====
-- The calls of include/ndlcom/list.h, the list of the Linux kernel: a parameter. A value of `L` is the
-- memory of one list head and of the nodes that may stand in its list, a node is given by the address
-- of the struct around it, and `entries` are the structs that `list_for_each_entry` visits, in order, and `next` follows a link.
use ndlcom.Prelude.{ℕ, ◌≤◌, ◌≡◌, false, true, List, [], ◌∷◌}
use ndlcom.Prelude.Counts.{has, occurrences, without}

-- Where a loop over a list stands: at the struct of this address, or behind the last, at the head.
pub data Cursor : Type 0 where
  head : Cursor
  node : ℕ → Cursor

-- Going from one link to the next from `c` on, the loop finds these structs and then the head.
abbrev pub Visits : (Cursor → Cursor) → Cursor → List ℕ → Type 0
Visits next c [] = next c ≡ head
Visits next c (a ∷ rest) = (next c ≡ node a) × Visits next (node a) rest

abbrev pub IsDistinct : List ℕ → Type 0
IsDistinct xs = (a : ℕ) → occurrences a xs ≤ 1

pub record LinkedList (L : Type 0) : Type 0 where
  pub init_list_head : L → L
  pub list_add : ℕ → L → L
  pub list_del_init : ℕ → L → L
  pub entries : L → List ℕ
  pub next : L → Cursor → Cursor
  pub entries-init_list_head : (l : L) → entries (init_list_head l) ≡ []
  pub entries-list_add :
      (a : ℕ) (l : L) → has a (entries l) ≡ false → entries (list_add a l) ≡ a ∷ entries l
  pub entries-list_del_init :
      (a : ℕ) (l : L)
      → has a (entries l) ≡ true
      → entries (list_del_init a l) ≡ without a (entries l)
  pub next-entries : (l : L) → IsDistinct (entries l) → Visits (next l) head (entries l)
  -- What is taken out of the list is then linked to itself.
  pub next-list_del_init : (a : ℕ) (l : L) → next (list_del_init a l) (node a) ≡ node a
