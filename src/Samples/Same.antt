-- ===== src/Samples/Same.antt =====
-- The program in C and the blocking one in C++ (oradar_ros/sdk/samples) do the same.
use cqut_lgv.Common.{
  ℕ, zero, suc, ◌≡◌, refl, ap, ◌∙◌, true, Option, none, some, List, [], ◌∷◌, ◌++◌, ◌>>=◌, >>=-some,
  >>=-at, some_subst, map,
}
use cqut_lgv.Floats.{Floats}
use cqut_lgv.Protocol.{ScanData}
use cqut_lgv.Driver.{System}
use cqut_lgv.Driver.Device.{ChannelDevice}
use cqut_lgv.Driver.Session.{connect, disconnect, destroy}
use cqut_lgv.Driver.Grab.{grab_full_scan_blocking}
use cqut_lgv.CApi.{
  null, handle, with_driver, oradar_lidar_create, oradar_lidar_destroy, oradar_set_serial_port,
  oradar_connect, oradar_get_grabfullscan_blocking,
}
use cqut_lgv.Samples.{
  Line, connect_succuss, port_connect_fail, connect_fail, count_point_num, fail_get_full_scan,
  port_name_set_fail, serial_connect_fail, vailtidy_point_num, fail_to_get_lidar_data, new_device,
  report, report_points, connect_loop, blocking_loop, blocking_main, c_loop, c_connect, c_main,
}

-- What blocking_c_api_test.c prints where blocking_test.cpp prints a line of its loop: another text, with the
-- same count of points and without the number of the scan. Other lines are no lines of the loop.
abbrev pub c_line : Line → Line
c_line (count_point_num n points) = vailtidy_point_num points
c_line fail_get_full_scan = fail_to_get_lidar_data
c_line connect_succuss = connect_succuss
c_line port_connect_fail = port_connect_fail
c_line connect_fail = connect_fail
c_line port_name_set_fail = port_name_set_fail
c_line serial_connect_fail = serial_connect_fail
c_line (vailtidy_point_num points) = vailtidy_point_num points
c_line fail_to_get_lidar_data = fail_to_get_lidar_data

c_line-report :
    {F D : Type 0} (count : ℕ) (scan : Option (ScanData F D)) (lines : List Line)
    → report_points scan ∷ map c_line lines ≡ map c_line ((report count scan).0 ++ lines)
unfolding report report_points
c_line-report count none lines = refl
c_line-report count (some scan) lines = refl

module _ {W F D : Type 0} ⦃fl : Floats F D⦄ (dev : ChannelDevice W) where
  c_loop-blocking_loop :
      (rounds count : ℕ) (s u : System W F D) (lines : List Line)
      → blocking_loop dev rounds count s ≡ some (lines, u)
      → c_loop dev rounds (handle (some s)) ≡ some (map c_line lines, handle (some u))
  unfolding blocking_loop c_loop oradar_get_grabfullscan_blocking with_driver
  c_loop-blocking_loop zero count s u lines h =
      ap (λ m. m >>= λ (ls, v). some (map c_line ls, handle (some v))) h
  c_loop-blocking_loop (suc rounds) count s u lines h =
      let ((scan, t), e, h1) = >>=-some (grab_full_scan_blocking dev 1000 s) _ (lines, u) h in
      let ((more, v), e', h2) =
        >>=-some (blocking_loop dev rounds (report count scan).1 t) _ (lines, u) h1 in
      let again = c_loop-blocking_loop rounds (report count scan).1 t v more e' in
      rw e (
        ap (λ m. m >>= λ (ls, g). some (report_points scan ∷ ls, g)) again
        ∙ (ap (λ ls. some (ls, handle (some v))) (c_line-report count scan more)
            ∙ ap (λ m. m >>= λ (ls, g). some (map c_line ls, handle (some g))) h2))

  connect_loop_first :
      (rounds : ℕ) (s t : System W F D)
      → connect dev s ≡ some (true, t)
      → connect_loop dev port_connect_fail (suc rounds) s ≡ some (connect_succuss ∷ [], rounds, t)
  unfolding connect_loop
  connect_loop_first rounds s t h = rw h refl

  c_connect_first :
      (rounds : ℕ) (s t : System W F D)
      → connect dev s ≡ some (true, t)
      → c_connect dev rounds (handle (some s)) ≡ c_loop dev rounds (handle (some t))
  unfolding c_connect oradar_connect with_driver
  c_connect_first rounds s t h = rw h refl

  -- The port is set on the new handle, and the loop of the program follows.
  c_main_lem :
      (rounds : ℕ) (w : W)
      → c_main {F = F} {D = D} dev rounds w ≡ (
          c_connect dev rounds (handle (some (new_device w))) >>= λ (lines, h).
          oradar_lidar_destroy dev h >>= λ (gone, left). some (lines, gone, left))
  unfolding c_main oradar_lidar_create oradar_set_serial_port with_driver new_device
  c_main_lem rounds w = refl

  destroy-disconnect :
      (s t : System W F D)
      → disconnect dev s ≡ some t
      → oradar_lidar_destroy dev (handle (some s)) ≡ some (null, some t.world)
  unfolding oradar_lidar_destroy destroy
  destroy-disconnect s t h = rw h refl

  -- If the first attempt to connect succeeds and blocking_test.cpp comes to an end, then
  -- blocking_c_api_test.c comes to an end on the same channel, and leaves no driver. The first line of
  -- blocking_test.cpp is that of the connection, for which the other prints none; after it the two print
  -- line by line for the same answers: a count of points where the first prints its number and the same
  -- count, and a failure, in its own words, where the first prints a failure.
  pub c_main-blocking_main :
      (rounds : ℕ) (w : W) (t s : System W F D) (lines : List Line)
      → connect dev (new_device w) ≡ some (true, t)
      → blocking_main dev (suc rounds) w ≡ some (lines, s)
      → (said : List Line) × (left : W) × (lines ≡ connect_succuss ∷ said)
        × (c_main {F = F} {D = D} dev rounds w ≡ some (map c_line said, null, some left))
  unfolding blocking_main
  c_main-blocking_main rounds w t s lines h run =
      let h1 =
        >>=-at (connect_loop dev port_connect_fail (suc rounds) (new_device w)) _
          (connect_succuss ∷ [], rounds, t) (some (lines, s))
          (connect_loop_first rounds (new_device w) t h) run in
      let ((said, s2), e2, h2) = >>=-some (blocking_loop dev rounds 0 t) _ (lines, s) h1 in
      let (s3, e3, h3) = >>=-some (disconnect dev s2) _ (lines, s) h2 in
      let (s4, e4, h4) = >>=-some (destroy dev s3) _ (lines, s) h3 in
      (
        said,
        s3.world,
        some_subst (λ v. v.0 ≡ connect_succuss ∷ said) (connect_succuss ∷ said, s4) (lines, s) h4
            refl,
        c_main_lem rounds w
            ∙ rw
                (
                  c_connect_first rounds (new_device w) t h,
                  c_loop-blocking_loop rounds 0 t s2 said e2,
                  destroy-disconnect s2 s3 e3,
                )
                refl,
      )
