-- ===== src/Bridge/Recipients.antt =====
-- The interfaces that a message is to reach, from the flags, the routing table and the list alone.
use ndlcom.Prelude.{
  ℕ, ◌+◌, ◌≡◌, ◌≢◌, refl, sym, ap₂, ◌∙◌, inl, inr, Bool-cases, Bool, true, false, not, ◌&&◌, List,
  [], ◌∷◌, ◌++◌, ◌==◌, ==_refl, ==_iff, if◌then◌else◌, arith,
}
use ndlcom.Prelude.Counts.{occurrences, keep, occurrences-append, occurrences-keep}
use ndlcom.Routing.{
  Destination, all_interfaces, the_bridge, interface_at, same_destination, get_destination,
}
use ndlcom.LinkedList.{LinkedList}
use ndlcom.ExternalInterface.{is_mirror}
use ndlcom.Bridge.{Bridge, forwarding_suppressed}
use ndlcom.Routing.Laws.{same_destination_iff}

same_destination_ne : (d e : Destination) → d ≢ e → same_destination d e ≡ false
same_destination_ne d e other = elim (Bool-cases (same_destination d e)) [
  | inl same ↦ absurd (other ((same_destination_iff d e).0 same))
  | inr differs ↦ differs
]

not_the_bridge :
    (d : Destination) (a : ℕ)
    → same_destination d (interface_at a) ≡ true
    → same_destination d the_bridge ≡ false
not_the_bridge all_interfaces a e = refl
not_the_bridge the_bridge a e = cc
not_the_bridge (interface_at b) a e = refl

module _ {L W : Type 0} where
  abbrev pub gets_copy : Bridge L W → Destination → ℕ → Bool
  gets_copy s origin a =
      not (same_destination origin (interface_at a)) && is_mirror (s.interfaces a)

  abbrev pub gets_broadcast : Bridge L W → Destination → ℕ → Bool
  gets_broadcast s origin a =
      not (same_destination origin (interface_at a)) && not (is_mirror (s.interfaces a))

module _ {L W : Type 0} (list : LinkedList L) where
  -- Who is to get a message for the device `id` that came from `origin`.
  abbrev pub directed : Bridge L W → Destination → Destination → List ℕ
  directed s all_interfaces origin =
      keep (gets_broadcast s origin) (list.entries s.external_interface_list)
  directed s the_bridge origin = []
  directed s (interface_at a) origin =
      if same_destination (interface_at a) origin then [] else a ∷ []

  unfoldable pub recipients : Bridge L W → ℕ → Destination → List ℕ
  recipients s id origin =
      let destination = get_destination s.routing_table id in
      keep (gets_copy s origin) (list.entries s.external_interface_list)
      ++ (if forwarding_suppressed s origin destination then [] else directed s destination origin)

  recipients_count :
      (s : Bridge L W) (id a : ℕ) (origin : Destination)
      → occurrences a (recipients s id origin)
        ≡ (if gets_copy s origin a
            then occurrences a (list.entries s.external_interface_list)
            else 0)
          + (if forwarding_suppressed s origin (get_destination s.routing_table id)
              then 0
              else occurrences a (directed s (get_destination s.routing_table id) origin))
  unfolding recipients occurrences
  recipients_count s id a origin =
      let d = get_destination s.routing_table id in
      let suppressed = forwarding_suppressed s origin d in
      let entries = list.entries s.external_interface_list in
      occurrences-append a (keep (gets_copy s origin) entries)
        (if suppressed then [] else directed s d origin)
      ∙ ap₂ (◌+◌) (occurrences-keep a (gets_copy s origin) entries) (under_if suppressed)
    where
      under_if :
          (b : Bool)
          → occurrences a (if b then [] else directed s (get_destination s.routing_table id) origin)
            ≡ (if b
                then 0
                else occurrences a (directed s (get_destination s.routing_table id) origin))
      under_if true = refl
      under_if false = refl

  directed_count :
      (s : Bridge L W) (d origin : Destination) (a : ℕ)
      → occurrences a (directed s d origin) ≡ elim d [
        | all_interfaces ↦
            if gets_broadcast s origin a
            then occurrences a (list.entries s.external_interface_list)
            else 0
        | the_bridge ↦ 0
        | interface_at b ↦
            if same_destination (interface_at b) origin then 0 else if b == a then 1 else 0
      ]
  unfolding occurrences
  directed_count s all_interfaces origin a =
      occurrences-keep a (gets_broadcast s origin) (list.entries s.external_interface_list)
  directed_count s the_bridge origin a = refl
  directed_count s (interface_at b) origin a = ground arith

  directed-origin :
      (s : Bridge L W) (d : Destination) (a : ℕ) → occurrences a (directed s d (interface_at a)) ≡ 0
  directed-origin s all_interfaces a =
      ground (arith, directed_count s all_interfaces (interface_at a) a, ==_refl a)
  directed-origin s the_bridge a = directed_count s the_bridge (interface_at a) a
  directed-origin s (interface_at b) a =
      ground (arith, directed_count s (interface_at b) (interface_at a) a)

  directed-interface_at :
      (s : Bridge L W) (origin : Destination) (a b : ℕ)
      → origin ≢ interface_at a
      → occurrences a (directed s (interface_at b) origin) ≡ (if b == a then 1 else 0)
  directed-interface_at s origin a b other = elim (Bool-cases (b == a)) [
    | inl same ↦ rw (directed_count s (interface_at b) origin a) (
        rw ((==_iff b a).0 same)
          (rw (same_destination_ne (interface_at a) origin (λ e. other (sym e))) refl))
    | inr differs ↦ ground (arith, directed_count s (interface_at b) origin a)
  ]

  directed-mirror :
      (s : Bridge L W) (d origin : Destination) (a : ℕ)
      → is_mirror (s.interfaces a) ≡ true
      → origin ≢ interface_at a
      → occurrences a (directed s d origin) ≡ (if same_destination d (interface_at a) then 1 else 0)
  directed-mirror s all_interfaces origin a mirror other =
      ground (arith, directed_count s all_interfaces origin a)
  directed-mirror s the_bridge origin a mirror other = directed_count s the_bridge origin a
  directed-mirror s (interface_at b) origin a mirror other =
      directed-interface_at s origin a b other

  directed-ordinary :
      (s : Bridge L W) (d origin : Destination) (a : ℕ)
      → is_mirror (s.interfaces a) ≡ false
      → origin ≢ interface_at a
      → occurrences a (directed s d origin) ≡ elim d [
        | all_interfaces ↦ occurrences a (list.entries s.external_interface_list)
        | the_bridge ↦ 0
        | interface_at b ↦ if b == a then 1 else 0
      ]
  directed-ordinary s all_interfaces origin a ordinary other = ground (
    arith,
    directed_count s all_interfaces origin a,
    same_destination_ne origin (interface_at a) other,
  )
  directed-ordinary s the_bridge origin a ordinary other = directed_count s the_bridge origin a
  directed-ordinary s (interface_at b) origin a ordinary other =
      directed-interface_at s origin a b other

  pub recipients-no_echo :
      (s : Bridge L W) (id a : ℕ) → occurrences a (recipients s id (interface_at a)) ≡ 0
  unfolding recipients occurrences
  recipients-no_echo s id a = ground (
    arith,
    recipients_count s id a (interface_at a),
    ==_refl a,
    directed-origin s (get_destination s.routing_table id) a,
  )

  pub recipients-mirror :
      (s : Bridge L W) (id a : ℕ) (origin : Destination)
      → is_mirror (s.interfaces a) ≡ true
      → origin ≢ interface_at a
      → occurrences a (recipients s id origin)
        ≡ occurrences a (list.entries s.external_interface_list)
          + (if same_destination (get_destination s.routing_table id) (interface_at a)
                && not (forwarding_suppressed s origin (interface_at a))
              then 1
              else 0)
  unfolding recipients occurrences
  recipients-mirror s id a origin mirror other =
      let d = get_destination s.routing_table id in
      ground (
        arith,
        recipients_count s id a origin,
        same_destination_ne origin (interface_at a) other,
        directed-mirror s d origin a mirror other,
        not_the_bridge d a,
      )

  pub recipients-ordinary :
      (s : Bridge L W) (id a : ℕ) (origin : Destination)
      → is_mirror (s.interfaces a) ≡ false
      → origin ≢ interface_at a
      → occurrences a (recipients s id origin) ≡ (
          if forwarding_suppressed s origin (get_destination s.routing_table id)
          then 0
          else elim (get_destination s.routing_table id) [
            | all_interfaces ↦ occurrences a (list.entries s.external_interface_list)
            | the_bridge ↦ 0
            | interface_at b ↦ if b == a then 1 else 0
          ])
  unfolding recipients occurrences
  recipients-ordinary s id a origin ordinary other =
      rw
        (
          recipients_count s id a origin,
          same_destination_ne origin (interface_at a) other,
          directed-ordinary s (get_destination s.routing_table id) origin a ordinary other,
          ordinary,
        )
        (omega arith)
