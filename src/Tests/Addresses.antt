-- ===== src/Tests/Addresses.antt =====
-- A list of addresses as a linked list, to have one.
use ndlcom.Prelude.{
  ℕ, ◌≡◌, refl, inl, inr, Bool-cases, List, [], ◌∷◌, ◌==◌, ==_refl, if◌then◌else◌, arith,
}
use ndlcom.Prelude.Counts.{occurrences, keep, without}
use ndlcom.LinkedList.{LinkedList, Cursor, head, node, Visits, IsDistinct}

unfoldable pub first_of : List ℕ → Cursor
first_of [] = head
first_of (x ∷ xs) = node x

unfoldable pub behind : ℕ → List ℕ → Cursor
behind a [] = node a
behind a (x ∷ xs) = if x == a then first_of xs else behind a xs

unfoldable pub links : List ℕ → Cursor → Cursor
links xs head = first_of xs
links xs (node a) = behind a xs

links-cons :
    (x : ℕ) (xs : List ℕ) (a : ℕ) (ys : List ℕ)
    → occurrences x (a ∷ ys) ≡ 0
    → Visits (links xs) (node a) ys
    → Visits (links (x ∷ xs)) (node a) ys
unfolding links behind occurrences
links-cons x xs a [] absent e = elim (Bool-cases (x == a)) [
  | inl same ↦ absurd (ground arith)
  | inr differs ↦ simp differs e
]
links-cons x xs a (y ∷ ys) absent (e, v) = (
  elim (Bool-cases (x == a)) [ inl same ↦ absurd (ground arith) | inr differs ↦ simp differs e ],
  links-cons x xs y ys (ground arith) v,
)

pub links-Visits : (xs : List ℕ) → IsDistinct xs → Visits (links xs) head xs
unfolding links behind first_of occurrences
links-Visits [] distinct = refl
links-Visits (x ∷ []) distinct = (refl, rw (==_refl x) refl)
links-Visits (x ∷ y ∷ ys) distinct = (
  refl,
  (
    rw (==_refl x) refl,
    links-cons x (y ∷ ys) y ys (ground (arith, distinct x, ==_refl x))
        (links-Visits (y ∷ ys) (λ a. ground (arith, distinct a))).1,
  ),
)

behind-without : (a : ℕ) (xs : List ℕ) → behind a (without a xs) ≡ node a
unfolding behind without keep
behind-without a [] = refl
behind-without a (x ∷ xs) = elim (Bool-cases (x == a)) [
  | inl same ↦ simp same (behind-without a xs)
  | inr differs ↦ simp differs (behind-without a xs)
]

pub links-without : (a : ℕ) (xs : List ℕ) → links (without a xs) (node a) ≡ node a
unfolding links
links-without = behind-without

abbrev pub addresses : LinkedList (List ℕ)
addresses = record {
  init_list_head = λ l. [];
  list_add = λ a l. a ∷ l;
  list_del_init = without;
  entries = λ l. l;
  next = links;
  entries-init_list_head = λ l. refl;
  entries-list_add = λ a l absent. refl;
  entries-list_del_init = λ a l present. refl;
  next-entries = links-Visits;
  next-list_del_init = links-without;
}
