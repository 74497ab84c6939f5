-- ===== src/HeaderPrepare.antt =====
-- src/HeaderPrepare.c and include/ndlcom/HeaderPrepare.h. `*header` is the header in the memory of
-- the caller: a field that the function does not write keeps what that memory held.
pub mod Counters
use ndlcom.Prelude.{ℕ, ◌+◌, ◌%◌, ◌^◌, List, ltb, if◌then◌else◌, get_or, set, replicate}
use ndlcom.Wire.{Header, max_number_of_devices}

pub record HeaderConfig : Type 0 where
  pub counter_for_receiver : List ℕ
  pub own_sender_id : ℕ

-- The `memset` covers `sizeof` of the array over `sizeof` of one entry, in bytes: with entries of one
-- byte that is the whole array, whatever it held.
unfoldable pub header_prepare_init : ℕ → HeaderConfig
header_prepare_init own_sender_id = record {
  counter_for_receiver = replicate max_number_of_devices 0;
  own_sender_id = own_sender_id;
}

unfoldable pub header_prepare : HeaderConfig → Header → ℕ → ℕ → HeaderConfig × Header
header_prepare config header receiver_id data_length =
    let filled : Header = record header {
      receiver_id = receiver_id;
      sender_id = config.own_sender_id;
      data_len = data_length;
    } in
    let counter = get_or config.counter_for_receiver receiver_id 0 in
    if ltb receiver_id max_number_of_devices
    then (
      record config {
        counter_for_receiver = set config.counter_for_receiver receiver_id ((counter + 1) % 2 ^ 8);
      },
      record filled { counter = counter },
    )
    else (config, filled)
