-- ===== src/Tests/Traffic.antt =====
-- The base of the drivers with a driver that keeps a log, and its flags.
use ndlcom.Prelude.{ℕ, refl, true, false, some, List, [], ◌∷◌, ◌++◌}
use ndlcom.ExternalInterfaceBase.{Driver}
use ndlcom.ExternalInterfaceBase.Traffic.{
  writes, reads, Call, Run, IsCounted, call_all, call_all-IsCounted,
}

-- Every write returns, every read gives two bytes.
abbrev log_driver : Driver (List (List ℕ))
log_driver = record {
  write_escaped_bytes = λ bytes log. (true, log ++ bytes ∷ []);
  read_escaped_bytes = λ count log. (some (1 ∷ 2 ∷ []), log ++ [] ∷ []);
}

abbrev fresh : Run (List (List ℕ))
fresh = record {
  base = record { paused = false; bytes_transmitted = 0; bytes_received = 0 };
  world = [];
  went_out = 0;
  came_in = 0;
}

abbrev on_hold : Run (List (List ℕ))
on_hold = record fresh {
  base = record { paused = true; bytes_transmitted = 0; bytes_received = 0 };
}

abbrev some_calls : List Call
some_calls = writes (5 ∷ 6 ∷ 7 ∷ []) ∷ reads 9 ∷ []

call_all-IsCounted_example : IsCounted log_driver (call_all log_driver fresh some_calls)
call_all-IsCounted_example = call_all-IsCounted log_driver fresh some_calls (refl, refl)
