-- ===== src/Tests/Arrivals.antt =====
-- A message that arrives at an interface.
use ndlcom.Prelude.{ℕ, ◌≡◌, refl, some, List, [], ◌∷◌, ◌++◌, length, arith}
use ndlcom.Wire.{little_endian}
use ndlcom.Encoder.Frame.{frame, escape_all, frame_body}
use ndlcom.Encoder.{escape, crc_bytes}
use ndlcom.Crc.{do_crc, do_crc_all, crc16_table}
use ndlcom.Parser.{Parser, has_packet}
use ndlcom.Bridge.{Bridge, Callbacks}
use ndlcom.Bridge.Reading.{process_external_interface}
use ndlcom.Bridge.Reading.Packets.{IsPassive}
use ndlcom.Bridge.Reading.Draining.{IsSettled, process_external_interface-IsSettled}
use ndlcom.Tests.Addresses.{addresses, links, behind, first_of}
use ndlcom.Tests.Office.{to_nine, office, noting, four_five-IsDistinct}

-- Every read gives the frame of one message.
abbrev sending : Callbacks (List (ℕ × List ℕ))
sending = record {
  write_bytes = λ f context bytes log. log ++ (context, bytes) ∷ [];
  read_bytes = λ f context count log. (frame little_endian to_nine (7 ∷ []), log);
}

noting-IsPassive : IsPassive noting
noting-IsPassive = record {
  keeps_handlers = λ f context h payload origin s. refl;
  keeps_list = λ f context h payload origin s. refl;
  keeps_interfaces = λ f context h payload origin s. refl;
}

sent_size : length (frame little_endian to_nine (7 ∷ [])) ≡ 9
unfolding frame escape_all escape frame_body crc_bytes do_crc do_crc_all crc16_table
sent_size = refl

process_external_interface-IsSettled_example :
    (t : Bridge (List ℕ) (List (ℕ × List ℕ))) × (process_external_interface addresses sending noting
        little_endian 3 20 office 0
      ≡ some (t, length (frame little_endian to_nine (7 ∷ []))))
    × IsSettled office 0 t
unfolding links behind first_of has_packet
process_external_interface-IsSettled_example =
    process_external_interface-IsSettled addresses sending noting little_endian 3 20 office 0
      noting-IsPassive four_five-IsDistinct (omega arith) refl refl (omega (arith, sent_size))
