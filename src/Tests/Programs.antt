-- ===== src/Tests/Programs.antt =====
-- The sample programs on a channel that brings two frames whenever a scan is waited for.
use cqut_lgv.Common.{
  ℕ, ◌≡◌, refl, inr, Bool, true, false, none, some, List, [], ◌∷◌, map, length, arith,
}
use cqut_lgv.Common.Int.{ℤ, pos}
use cqut_lgv.Floats.Fixed.{fixed}
use cqut_lgv.Crc.{crc8}
use cqut_lgv.Protocol.{frame_of_bytes}
use cqut_lgv.Protocol.Layout.{frame_bytes}
use cqut_lgv.Driver.{System}
use cqut_lgv.Driver.Session.{connect}
use cqut_lgv.Driver.Answers.{FitsReads, IsServing}
use cqut_lgv.Driver.Answers.Connected.{connect_ends}
use cqut_lgv.Driver.Receive.{IsQuiet}
use cqut_lgv.Reader.Total.{init_reader-IsValid}
use cqut_lgv.CApi.{null}
use cqut_lgv.CApi.Calls.{
  Call, connects, disconnects, grabs_full, grabs_full_blocking, gets_timestamp, run_program,
}
use cqut_lgv.CApi.Calls.Programs.{run_program_ends}
use cqut_lgv.Samples.{
  Line, connect_succuss, count_point_num, new_device, blocking_main, polling_main, c_main,
}
use cqut_lgv.Samples.Ends.{Closes, blocking_main-Closes, polling_main-Closes}
use cqut_lgv.Samples.Same.{c_line, c_main-blocking_main}
use cqut_lgv.Tests.Sessions.{state_of}
use cqut_lgv.Tests.Threads.{scanning}

scanning-FitsReads : FitsReads scanning
unfolding frame_bytes
scanning-FitsReads = record {
  fits_arrivals = λ ms w. (tt, tt);
  fits_awaited = λ ms w. (omega arith, (omega arith, tt));
  fits_last = λ w. tt;
}

abbrev blocking_result : List Line × System ℕ ℤ ℤ
blocking_result = elim (blocking_main {F = ℤ} {D = ℤ} scanning 2 0) [
  | none ↦ ([], new_device 0)
  | some result ↦ result
]

blocking_main_runs : blocking_main scanning 2 0 ≡ some blocking_result
unfolding blocking_main frame_bytes crc8 frame_of_bytes
blocking_main_runs = refl

blocking_main_prints : blocking_result.0 ≡ connect_succuss ∷ count_point_num 1 12 ∷ []
unfolding blocking_main frame_bytes crc8 frame_of_bytes
blocking_main_prints = refl

blocking_main-Closes_example :
    Closes scanning scanning-FitsReads (blocking_main {F = ℤ} {D = ℤ} scanning 2 0)
blocking_main-Closes_example = blocking_main-Closes scanning scanning-FitsReads 2 0

abbrev connected_device : System ℕ ℤ ℤ
connected_device = state_of (new_device 0) (connect scanning (new_device 0))

connect_runs : connect scanning (new_device 0) ≡ some (true, connected_device)
unfolding connect new_device
connect_runs = refl

c_main-blocking_main_example :
    (said : List Line) × (left : ℕ) × (blocking_result.0 ≡ connect_succuss ∷ said)
    × (c_main {F = ℤ} {D = ℤ} scanning 1 0 ≡ some (map c_line said, null, some left))
c_main-blocking_main_example =
    c_main-blocking_main scanning 1 0 connected_device blocking_result.1 blocking_result.0
      connect_runs blocking_main_runs

new_device-IsQuiet : IsQuiet {F = ℤ} {D = ℤ} (new_device {W = ℕ} 0).driver
unfolding new_device
new_device-IsQuiet = record { valid = init_reader-IsValid; quiet = refl }

connect_ends_example :
    (b : Bool) × (t : System ℕ ℤ ℤ) × (connect scanning (new_device 0) ≡ some (b, t))
    × (b ≡ t.driver.is_connected)
    × IsServing scanning scanning-FitsReads t
unfolding new_device
connect_ends_example =
    connect_ends scanning scanning-FitsReads (new_device 0) new_device-IsQuiet (inr (refl, refl))

-- A program in C that fetches scans, connects again, and goes on after the end.
abbrev c_calls : List Call
c_calls = grabs_full_blocking 1000 ∷ disconnects ∷ grabs_full ∷ connects ∷ []

abbrev late_calls : List Call
late_calls = connects ∷ gets_timestamp ∷ []

c_calls_run :
    (run_program {F = ℤ} {D = ℤ} scanning (47 ∷ []) (pos 230400) c_calls late_calls 0)
    ≡ some (true ∷ true ∷ false ∷ true ∷ [], some 0, false ∷ false ∷ [], null)
unfolding run_program frame_bytes crc8 frame_of_bytes
c_calls_run = refl

run_program_ends_example :
    (answers : List Bool) × (left : ℕ) × (run_program {F = ℤ} {D = ℤ} scanning
        (47 ∷ [])
        (pos 230400)
        c_calls
        late_calls
        0
      ≡ some (answers, some left, map (λ c. false) late_calls, null))
    × (length answers ≡ length c_calls)
run_program_ends_example =
    run_program_ends scanning scanning-FitsReads (47 ∷ []) (pos 230400) c_calls late_calls 0

polling_main-Closes_example :
    Closes scanning scanning-FitsReads (polling_main {F = ℤ} {D = ℤ} scanning 2 0)
polling_main-Closes_example = polling_main-Closes scanning scanning-FitsReads 2 0
