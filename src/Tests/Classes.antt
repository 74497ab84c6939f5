-- ===== src/Tests/Classes.antt =====
-- The class Bridge: interfaces from texts, nodes and handlers, and their end.
use ndlcom.Prelude.{
  ℕ, zero, All, ◌≡◌, ◌+◌, refl, Bool, true, false, Option, none, some, List, [], ◌∷◌, ◌++◌,
  if◌then◌else◌, arith,
}
use ndlcom.Prelude.Counts.{has, occurrences, without}
use ndlcom.Wire.{addr_broadcast}
use ndlcom.HeaderPrepare.{header_prepare_init}
use ndlcom.Routing.{get_destination, interface_at}
use ndlcom.Ids.{split_string_into_strings}
use ndlcom.Ids.Routes.{text_of, all_numbers}
use ndlcom.Node.{System, node_at}
use ndlcom.BridgeClass.{BridgeClass, Wrappers, bridge_class_init, bridge_destructor, and_then}
use ndlcom.BridgeClass.Lookup.{get_interface_by_origin}
use ndlcom.BridgeClass.Uris.{
  InterfaceType, serial, udp, fpga, pipe, can, pty, tcp_client, created, throws, Drivers,
  create_interface, create_interface-first_match, from_match, first_match, lock_or_throw,
}
use ndlcom.BridgeClass.Ownership.{IsOwned, bridge_class_init-IsOwned}
use ndlcom.BridgeClass.Opened.{create_interface-all_numbers, create_interface-text_of}
use ndlcom.BridgeClass.Printing.{print_routing_table, shown_for, interface_of}
use ndlcom.BridgeClass.Teardown.{IsTornDown}
use ndlcom.BridgeClass.Lifetime.{
  ClassCall, creates_interface, creates_handler, creates_node, creates_node_handler,
  destroys_handler, routes_by, renames, AreAllowed, perform_all, perform_all-IsOwned,
  bridge_destructor-perform_all, get_interface_by_origin-perform_all,
  print_routing_table-perform_all,
}
use ndlcom.Tests.Addresses.{addresses}
use ndlcom.Tests.Office.{fresh_parser}

abbrev Log : Type 0
Log = List (ℕ × List ℕ)

-- The memory before anything is made.
abbrev bare : System (List ℕ) Log
bare = record {
  routing_table = [];
  bridge_handler_list = [];
  external_interface_list = [];
  flags = 0;
  interfaces = λ a. record {
    has_bridge = false;
    context = 0;
    flags = 0;
    parser = fresh_parser;
    read = 0;
    write = 0;
  };
  handlers = λ b. record { has_bridge = false; context = 0; flags = 0; handler = 0 };
  world = record {
    nodes = λ n. record {
      header_config = header_prepare_init 0;
      node_handler_list = [];
      bridge_handler = n + 100;
    };
    node_handlers = λ a. record { node_pointer = none; context = 0; flags = 0; handler = 0 };
    outside = [];
  };
}

abbrev place : ℕ → ℕ
place n = n + 100

abbrev wrappers : Wrappers
wrappers = record {
  write_wrapper = 1;
  read_wrapper = 2;
  bridge_handle_wrapper = 3;
  node_handle_wrapper = 4;
  node_message_handler = 5;
  sizeof_parser = 300;
}

-- A text that starts with a zero is one of UDP, and what follows is the list of ids.
abbrev groups_of : InterfaceType → List ℕ → Option (List (List ℕ))
groups_of udp (zero ∷ ids) = some ((0 ∷ ids) ∷ ids ∷ [])
groups_of _ _ = none

abbrev drivers : Drivers Log
drivers = record { matches = groups_of; opens = λ type groups v. (true, v) }

abbrev fresh_bridge : BridgeClass (List ℕ) Log
fresh_bridge = bridge_class_init addresses bare

fresh_bridge-IsOwned : IsOwned addresses place fresh_bridge
fresh_bridge-IsOwned =
    bridge_class_init-IsOwned addresses place bare (λ a. refl) (λ b. refl) (λ n. refl)

-- The ids 3, 255 and 66.
abbrev three_ids : List ℕ
three_ids = 3 ∷ 255 ∷ 66 ∷ []

create_interface-text_of_example :
    (let (outcome, d) =
        create_interface addresses wrappers drivers 9 0 (0 ∷ text_of three_ids) fresh_bridge in
      (outcome ≡ created 9)
      × (get_interface_by_origin d 9 ≡ some 9)
      × ((other : ℕ)
          → get_destination d.bridge.routing_table other ≡ (
              if has other (without addr_broadcast three_ids)
              then interface_at 9
              else get_destination fresh_bridge.bridge.routing_table other)))
unfolding bridge_class_init occurrences
create_interface-text_of_example =
    create_interface-text_of addresses wrappers drivers 9 0 place (0 ∷ text_of three_ids) three_ids
      fresh_bridge udp ((0 ∷ text_of three_ids) ∷ text_of three_ids ∷ []) fresh_bridge-IsOwned refl
      refl refl refl (omega arith, (omega arith, (omega arith, tt)))

-- The text `7,x`.
abbrev no_number : List ℕ
no_number = 0 ∷ 55 ∷ 44 ∷ 120 ∷ []

create_interface-all_numbers_example :
    (let (outcome, d) = create_interface addresses wrappers drivers 9 0 no_number fresh_bridge in
      (outcome ≡ (
        if all_numbers (split_string_into_strings (55 ∷ 44 ∷ 120 ∷ []) 44)
        then created 9
        else throws))
      × (d.external_interfaces ≡ fresh_bridge.external_interfaces ++ 9 ∷ [])
      × ((d.bridge.interfaces 9).has_bridge ≡ true))
unfolding bridge_class_init occurrences
create_interface-all_numbers_example =
    create_interface-all_numbers addresses wrappers drivers 9 0 place no_number fresh_bridge udp
      (no_number ∷ (55 ∷ 44 ∷ 120 ∷ []) ∷ []) fresh_bridge-IsOwned refl refl refl

create_interface-first_match_example :
    create_interface addresses wrappers drivers 9 0 no_number fresh_bridge ≡ (
      let (outcome, d) =
        from_match addresses wrappers drivers 9 0
          (first_match addresses wrappers drivers 9 0
            (serial ∷ udp ∷ fpga ∷ pipe ∷ can ∷ pty ∷ tcp_client ∷ [])
            no_number)
          fresh_bridge in
      (lock_or_throw outcome, d))
create_interface-first_match_example =
    create_interface-first_match addresses wrappers drivers 9 0 no_number fresh_bridge

abbrev busy_day : List ClassCall
busy_day =
    creates_interface 9 0 (0 ∷ text_of three_ids)
    ∷ creates_handler 50
    ∷ creates_node 3 2
    ∷ creates_node_handler 3 10
    ∷ routes_by 9 (55 ∷ [])
    ∷ renames 3 5
    ∷ destroys_handler 50
    ∷ []

busy_day-AreAllowed : AreAllowed addresses place wrappers drivers fresh_bridge busy_day
unfolding AreAllowed occurrences bridge_class_init ndlcom.BridgeClass.Lifetime.perform
    create_interface ndlcom.BridgeClass.Uris.create_interface_by_match
    ndlcom.BridgeClass.Uris.create_matched ndlcom.BridgeClass.create_external_interface
    ndlcom.BridgeClass.set_routing ndlcom.BridgeClass.create_bridge_handler
    ndlcom.BridgeClass.create_node ndlcom.Node.node_register
    ndlcom.Bridge.Handling.register_bridge_handler ndlcom.Bridge.Handling.check_bridge_handler has
    ndlcom.Node.node_init ndlcom.Node.set_node ndlcom.BridgeClass.construct_bridge_handler
    ndlcom.Bridge.Handling.deregister_bridge_handler ndlcom.Bridge.add_routing_information
    ndlcom.Bridge.bridge_init ndlcom.Bridge.check_external_interface
    ndlcom.Bridge.clear_internal_device_id ndlcom.Bridge.mark_device_id_as_internal
    ndlcom.Bridge.register_external_interface ndlcom.Bridge.set_bridge
    ndlcom.Bridge.set_routing_for_device_id ndlcom.BridgeClass.construct_interface
    ndlcom.BridgeClass.construct_node_handler ndlcom.BridgeClass.create_node_handler
    ndlcom.BridgeClass.destroy_bridge_handler ndlcom.BridgeClass.set_all_handler
    ndlcom.BridgeClass.set_own_device_id header_prepare_init ndlcom.Ids.set_routing_by_string
    ndlcom.Ids.set_converted ndlcom.Ids.set_routes ndlcom.Node.register_node_handler
    ndlcom.Node.set_node_pointer ndlcom.Node.set_own_sender_id without ndlcom.Prelude.Counts.keep
    ndlcom.Ids.convert_string_to_ids ndlcom.Ids.convert_loop split_string_into_strings
    ndlcom.Ids.split_loop ndlcom.Ids.getline ndlcom.Ids.Pieces.join ndlcom.Ids.Decimals.decimal
    ndlcom.Ids.up_to ndlcom.Ids.stoi ndlcom.Ids.after_spaces ndlcom.Ids.skip_spaces
    ndlcom.Ids.number_of ndlcom.Ids.digits_value ndlcom.Ids.convert_number
busy_day-AreAllowed = (
  refl,
  (refl, ((omega arith, refl, refl), ((refl, refl), (refl, ((refl, omega arith), (refl, tt)))))),
)

perform_all-IsOwned_example :
    (c : BridgeClass (List ℕ) Log) × (perform_all addresses wrappers drivers fresh_bridge busy_day
      ≡ some c)
    × IsOwned addresses place c
perform_all-IsOwned_example =
    perform_all-IsOwned addresses place wrappers drivers bare busy_day (λ a. refl) (λ b. refl)
      (λ n. refl) busy_day-AreAllowed

bridge_destructor-perform_all_example :
    (d : BridgeClass (List ℕ) Log) × (and_then
        (perform_all addresses wrappers drivers fresh_bridge busy_day)
        (bridge_destructor addresses)
      ≡ some d)
    × IsTornDown addresses place d
bridge_destructor-perform_all_example =
    bridge_destructor-perform_all addresses place wrappers drivers bare busy_day (λ a. refl)
      (λ b. refl) (λ n. refl) busy_day-AreAllowed

get_interface_by_origin-perform_all_example :
    (c : BridgeClass (List ℕ) Log) × (perform_all addresses wrappers drivers fresh_bridge busy_day
      ≡ some c)
    × All
        (λ a. get_interface_by_origin c a ≡ some a)
        (interface_of (get_destination c.bridge.routing_table 7))
get_interface_by_origin-perform_all_example =
    get_interface_by_origin-perform_all addresses place wrappers drivers bare busy_day 7 (λ a. refl)
      (λ b. refl) (λ n. refl) busy_day-AreAllowed

print_routing_table-perform_all_example :
    (c : BridgeClass (List ℕ) Log) × (perform_all addresses wrappers drivers fresh_bridge busy_day
      ≡ some c)
    × (shown_for 7 (print_routing_table addresses c)
        ≡ interface_of (get_destination c.bridge.routing_table 7))
print_routing_table-perform_all_example =
    print_routing_table-perform_all addresses place wrappers drivers bare busy_day 7 (λ a. refl)
      (λ b. refl) (λ n. refl) busy_day-AreAllowed
