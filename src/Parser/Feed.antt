-- ===== src/Parser/Feed.antt =====
-- The `switch` of `ndlcomParserReceive` keeps the invariant, case by case.
use ndlcom.Prelude.{
  ℕ, suc, ◌+◌, ◌<◌, ◌≡◌, refl, sym, ap, ◌∙◌, Bool-cases, inl, inr, false, List, [], ◌∷◌, ◌++◌,
  append-nil, append_assoc, take, set, length-set, take-set_end, take-length, All-set, get_or-All,
  ltb, ◌==◌, ==_iff, arith,
}
use mathlib.Core.Path.{subst}
use ndlcom.Crc.{IsByte, do_crc, do_crc_all, crc_initial_value}
use ndlcom.Wire.{max_payload_size}
use ndlcom.Parser.{
  Parser, ParserState, mc_error, mc_wait_header, mc_wait_data, mc_wait_first_crc_byte,
  mc_wait_second_crc_byte, mc_complete, mc_number_of_states, destroy_packet, fail_crc,
  take_header_byte, take_data_byte, take_first_crc_byte, take_second_crc_byte, after_switch,
  switch_on, switch,
}
use ndlcom.Parser.Invariant.{
  IsShaped, announced, stored, Holds, Represents, IsOpen, Feeds, grows, completes, fails,
  Summed-snoc,
}

module _ (p : Parser) (xs : List ℕ) (d : ℕ) (v : IsShaped p) (byte : IsByte d) where
  abbrev grown : Parser
  grown = record p {
    raw = set p.raw p.header_write_pos d;
    header_write_pos = p.header_write_pos + 1;
    data_crc = do_crc p.data_crc d;
  }

  grown-IsShaped : IsShaped grown
  grown-IsShaped = record {
    raw_size = length-set p.raw p.header_write_pos d ∙ v.raw_size;
    payload_size = v.payload_size;
    raw_bytes = All-set IsByte p.raw p.header_write_pos d v.raw_bytes byte;
  }

  reshaped : (s : ParserState) → IsShaped (record grown { state = s })
  reshaped s = record {
    raw_size = grown-IsShaped.raw_size;
    payload_size = grown-IsShaped.payload_size;
    raw_bytes = grown-IsShaped.raw_bytes;
  }

  grown_content : Holds mc_wait_header p xs → take (p.header_write_pos + 1) grown.raw ≡ xs ++ d ∷ []
  grown_content (inside, at_start, content, summed) =
      let e : p.header_write_pos + 1 ≡ suc p.header_write_pos = omega arith in
      rw e (
        take-set_end p.raw p.header_write_pos d (omega (arith, v.raw_size))
        ∙ ap (λ t. t ++ d ∷ []) content)

  -- With four bytes the header is the whole array.
  full_content :
      Holds mc_wait_header p xs
      → p.header_write_pos + 1 ≡ 4
      → grown.raw ++ take p.data_write_pos p.payload ≡ xs ++ d ∷ []
  full_content h full = rw h.1 (
      append-nil grown.raw
      ∙ sym (take-length grown.raw)
      ∙ ap (λ n. take n grown.raw) (grown-IsShaped.raw_size ∙ sym full)
      ∙ grown_content h)

  feed_header :
      p.state ≡ mc_wait_header
      → Holds mc_wait_header p xs
      → Feeds p xs d (after_switch (take_header_byte p d))
  unfolding after_switch take_header_byte
  feed_header e h = elim (Bool-cases (p.header_write_pos + 1 == 4)) [
    | inr more ↦
        let q : Parser = record grown { state = mc_wait_header } in
        let is : take_header_byte p d ≡ q = rw more (λ i. record grown { state = e i }) in
        subst (λ t. Feeds p xs d (after_switch t)) (sym is)
          (grows q
            (record {
              shape = reshaped mc_wait_header;
              holds = (ground arith, h.1, grown_content h, Summed-snoc p xs d h.3);
            })
            tt refl refl)
    | inl full ↦ elim (Bool-cases (announced grown == 0)) [
      | inl empty ↦
          let q : Parser = record grown { state = mc_wait_first_crc_byte } in
          let is : take_header_byte p d ≡ q = rw (full, small, empty) in
          subst (λ t. Feeds p xs d (after_switch t)) (sym is)
            (grows q
              (record {
                shape = reshaped mc_wait_first_crc_byte;
                holds = (
                  ground arith,
                  ground arith,
                  full_content h (ground arith),
                  Summed-snoc p xs d h.3,
                );
              })
              tt refl refl)
      | inr filled ↦
          let q : Parser = record grown { state = mc_wait_data } in
          let is : take_header_byte p d ≡ q = rw (full, small, filled) in
          subst (λ t. Feeds p xs d (after_switch t)) (sym is)
            (grows q
              (record {
                shape = reshaped mc_wait_data;
                holds = (
                  ground arith,
                  ground arith,
                  full_content h (ground arith),
                  Summed-snoc p xs d h.3,
                );
              })
              tt refl refl)
    ]
  ]
    where
      small : ltb max_payload_size (announced grown) ≡ false
      small =
          let b : announced grown < 256 =
            get_or-All IsByte grown.raw 3 0 grown-IsShaped.raw_bytes (omega arith) in
          ground arith

  feed_data :
      p.state ≡ mc_wait_data
      → Holds mc_wait_data p xs
      → Feeds p xs d (after_switch (take_data_byte p d))
  unfolding after_switch take_data_byte
  feed_data e (positions, before_end, content, summed) =
      elim (Bool-cases (p.data_write_pos + 1 == announced p)) [
        | inr more ↦
            let q : Parser = record written { state = mc_wait_data } in
            let is : take_data_byte p d ≡ q = rw more (λ i. record written { state = e i }) in
            subst (λ t. Feeds p xs d (after_switch t)) (sym is)
              (grows q
                (record {
                  shape = written-IsShaped mc_wait_data;
                  holds = (positions, ground arith, content', Summed-snoc p xs d summed);
                })
                tt refl refl)
        | inl last ↦
            let q : Parser = record written { state = mc_wait_first_crc_byte } in
            let is : take_data_byte p d ≡ q = rw last in
            subst (λ t. Feeds p xs d (after_switch t)) (sym is)
              (grows q
                (record {
                  shape = written-IsShaped mc_wait_first_crc_byte;
                  holds = (positions, ground arith, content', Summed-snoc p xs d summed);
                })
                tt refl refl)
      ]
    where
      written : Parser
      written = record p {
        payload = set p.payload p.data_write_pos d;
        data_write_pos = p.data_write_pos + 1;
        data_crc = do_crc p.data_crc d;
      }

      written-IsShaped : (s : ParserState) → IsShaped (record written { state = s })
      written-IsShaped s = record {
        raw_size = v.raw_size;
        payload_size = length-set p.payload p.data_write_pos d ∙ v.payload_size;
        raw_bytes = v.raw_bytes;
      }

      announced_byte : announced p < 256
      announced_byte = get_or-All IsByte p.raw 3 0 v.raw_bytes (omega arith)

      content' : stored written ≡ xs ++ d ∷ []
      content' =
          let e : p.data_write_pos + 1 ≡ suc p.data_write_pos = omega arith in
          rw
            (
              e,
              take-set_end p.payload p.data_write_pos d
                  (omega (arith, v.payload_size, announced_byte)),
            )
            (sym (append_assoc p.raw (take p.data_write_pos p.payload) (d ∷ []))
              ∙ ap (λ t. t ++ d ∷ []) content)

  feed_first :
      Holds mc_wait_first_crc_byte p xs → Feeds p xs d (after_switch (take_first_crc_byte p d))
  unfolding after_switch take_first_crc_byte
  feed_first (positions, at_end, content, summed) =
      grows (take_first_crc_byte p d)
        (record {
          shape = record {
            raw_size = v.raw_size;
            payload_size = v.payload_size;
            raw_bytes = v.raw_bytes;
          };
          holds = (d, byte, at_end, ap (λ t. t ++ d ∷ []) content, Summed-snoc p xs d summed);
        })
        tt refl refl

  feed_second :
      p.state ≡ mc_wait_second_crc_byte
      → Holds mc_wait_second_crc_byte p xs
      → Feeds p xs d (after_switch (take_second_crc_byte p d))
  unfolding after_switch take_second_crc_byte
  feed_second e (x, x_byte, at_end, content, summed) =
      elim (Bool-cases (do_crc p.data_crc d == 0)) [
        | inl good ↦
            let q : Parser = record p { data_crc = do_crc p.data_crc d; state = mc_complete } in
            let is : take_second_crc_byte p d ≡ q = rw good in
            subst (λ t. Feeds p xs d (after_switch t)) (sym is)
              (completes q
                (record {
                  shape = record {
                    raw_size = v.raw_size;
                    payload_size = v.payload_size;
                    raw_bytes = v.raw_bytes;
                  };
                  holds = (x, d, x_byte, byte, at_end, content', sym total ∙ (==_iff _ 0).0 good);
                })
                refl refl)
        | inr bad ↦
            let q : Parser = fail_crc (record p { data_crc = do_crc p.data_crc d }) in
            let is : take_second_crc_byte p d ≡ q = rw bad in
            unfold fail_crc destroy_packet in
            subst (λ t. Feeds p xs d (after_switch t)) (sym is)
              (fails q refl e
                (λ zero_sum. cc ((==_iff (do_crc p.data_crc d) 0).1 (total ∙ zero_sum))))
      ]
    where
      total : do_crc p.data_crc d ≡ do_crc_all crc_initial_value (xs ++ d ∷ [])
      total = Summed-snoc p xs d summed

      content' : stored p ++ x ∷ d ∷ [] ≡ xs ++ d ∷ []
      content' = sym (append_assoc (stored p) (x ∷ []) (d ∷ [])) ∙ ap (λ t. t ++ d ∷ []) content

feed_on :
    (s : ParserState) (p : Parser) (xs : List ℕ) (d : ℕ)
    → IsShaped p
    → IsByte d
    → p.state ≡ s
    → IsOpen s
    → Holds s p xs
    → Feeds p xs d (switch_on s p d)
unfolding switch_on
feed_on mc_wait_header p xs d v b e is_open h = feed_header p xs d v b e h
feed_on mc_wait_data p xs d v b e is_open h = feed_data p xs d v b e h
feed_on mc_wait_first_crc_byte p xs d v b e is_open h = feed_first p xs d v b h
feed_on mc_wait_second_crc_byte p xs d v b e is_open h = feed_second p xs d v b e h
feed_on mc_complete p xs d v b e is_open h = absurd is_open
feed_on mc_error p xs d v b e is_open h = absurd is_open
feed_on mc_number_of_states p xs d v b e is_open h = absurd is_open

-- One unescaped byte at an open packet: the packet grows by it, or it is completed by it with a good
-- checksum, or the checksum is not the good one and the packet is dropped and counted.
pub switch-Feeds :
    (p : Parser) (xs : List ℕ) (d : ℕ)
    → Represents p xs
    → IsOpen p.state
    → IsByte d
    → Feeds p xs d (switch p d)
switch-Feeds p xs d r is_open b = feed_on p.state p xs d r.shape b refl is_open r.holds
