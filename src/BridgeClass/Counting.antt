-- ===== src/BridgeClass/Counting.antt =====
-- A list of the C library that holds as many nodes of each address as a vector of owned objects.
use ndlcom.Prelude.{
  ℕ, ◌+◌, ◌≤◌, ◌≡◌, refl, ◌∙◌, inl, inr, Bool, true, false, ◌==◌, ==_iff, ==_refl, if◌then◌else◌,
  List, [], ◌∷◌, ◌++◌, map, Bool-cases, arith,
}
use ndlcom.Prelude.Counts.{
  has, occurrences, occurrences-append, has-occurrences, occurrences-without, without, without-cons,
  keep,
}
use ndlcom.LinkedList.{LinkedList, head, Visits}
use ndlcom.Bridge.Handling.{links_to_itself}

-- An object points to where it is registered exactly if it is counted.
abbrev pub IsLinked : (ℕ → Bool) → (ℕ → ℕ) → Type 0
IsLinked linked count = (a : ℕ) → linked a ≡ (if count a == 0 then false else true)

pub no_occurrences : (xs : List ℕ) → ((a : ℕ) → occurrences a xs ≡ 0) → xs ≡ []
unfolding occurrences
no_occurrences [] absent = refl
no_occurrences (x ∷ xs) absent = absurd (ground (arith, absent x, ==_refl x))

module _ {L : Type 0} (list : LinkedList L) where
  -- The list holds the nodes that are counted, each of them once.
  pub record IsCounted (l : L) (count : ℕ → ℕ) : Type 0 where
    pub once : (a : ℕ) → count a ≤ 1
    pub same : (a : ℕ) → occurrences a (list.entries l) ≡ count a

  pub has-IsCounted :
      (l : L) (count : ℕ → ℕ) (a : ℕ)
      → IsCounted l count
      → has a (list.entries l) ≡ (if count a == 0 then false else true)
  has-IsCounted l count a counted =
      ground (arith, has-occurrences a (list.entries l), counted.same a)

  pub list_add-IsCounted :
      (l : L) (count after : ℕ → ℕ) (a : ℕ)
      → IsCounted l count
      → count a ≡ 0
      → ((b : ℕ) → after b ≡ (if a == b then 1 else 0) + count b)
      → IsCounted (list.list_add a l) after
  unfolding occurrences
  list_add-IsCounted l count after a counted absent grows =
      let fresh : has a (list.entries l) ≡ false =
        ground (arith, has-IsCounted l count a counted) in
      record {
        once = λ b. elim (Bool-cases (a == b)) [
          | inl e ↦
              let here : count b ≡ 0 = rw (← (==_iff a b).0 e) absent in ground (arith, grows b)
          | inr e ↦ ground (arith, grows b, counted.once b)
        ];
        same = λ b. rw (list.entries-list_add a l fresh) (ground (arith, grows b, counted.same b));
      }

  pub list_del_init-IsCounted :
      (l : L) (count after : ℕ → ℕ) (a : ℕ)
      → IsCounted l count
      → count a ≡ 1
      → ((b : ℕ) → after b ≡ (if b == a then 0 else count b))
      → IsCounted (list.list_del_init a l) after
  list_del_init-IsCounted l count after a counted present shrinks =
      let known : has a (list.entries l) ≡ true = ground (arith, has-IsCounted l count a counted) in
      record {
        once = λ b. ground (arith, shrinks b, counted.once b);
        same = λ b.
            rw (list.entries-list_del_init a l known)
              (ground (arith, shrinks b, counted.same b, occurrences-without b a (list.entries l)));
      }

  -- Nothing is counted, and the list is empty.
  pub empty-IsCounted :
      (l : L) (count : ℕ → ℕ)
      → ((a : ℕ) → count a ≡ 0)
      → IsCounted l count
      → links_to_itself list l head ≡ true
  empty-IsCounted l count nothing counted =
      let none_in : list.entries l ≡ [] =
        no_occurrences (list.entries l) (λ a. counted.same a ∙ nothing a) in
      let visited : Visits (list.next l) head (list.entries l) =
        list.next-entries l (λ a. omega (arith, counted.same a, counted.once a)) in
      let back : list.next l head ≡ head = rw none_in at visited in rw back refl

pub occurrences-append_one :
    (a b : ℕ) (xs : List ℕ)
    → occurrences b (xs ++ a ∷ []) ≡ (if a == b then 1 else 0) + occurrences b xs
unfolding occurrences
occurrences-append_one a b xs = omega (arith, occurrences-append b xs (a ∷ []))

module _ (place : ℕ → ℕ) where
  pub occurrences-map-append :
      (n b : ℕ) (xs : List ℕ)
      → occurrences b (map place (xs ++ n ∷ []))
        ≡ (if place n == b then 1 else 0) + occurrences b (map place xs)
  unfolding occurrences
  occurrences-map-append n b [] = refl
  occurrences-map-append n b (x ∷ xs) = omega (arith, occurrences-map-append n b xs)

  -- Taking the one occurrence of `n` out takes out one occurrence of its place.
  pub occurrences-map-without :
      (n b : ℕ) (xs : List ℕ)
      → has n xs ≡ true
      → ((m : ℕ) → occurrences m xs ≤ 1)
      → occurrences b (map place xs)
        ≡ (if place n == b then 1 else 0) + occurrences b (map place (without n xs))
  unfolding occurrences without keep has
  occurrences-map-without n b [] known once = absurd (ground (arith, known))
  occurrences-map-without n b (x ∷ xs) known once = elim (Bool-cases (x == n)) [
    | inl same ↦
        let e : x ≡ n = (==_iff x n).0 same in
        let alone : has n xs ≡ false = ground (arith, has-occurrences n xs, once n) in
        let front : without n (n ∷ xs) ≡ xs = without-cons n xs alone in rw (e, front) refl
    | inr differs ↦ simp differs (
        omega (
          arith,
          occurrences-map-without n b xs (simp differs at known) (λ m. omega (arith, once m)),
        ))
  ]
