-- ===== src/SelfTest/Sleepers.antt =====
-- The test of the sleep device in c/init.c. The six PCBs, which the test has on its stack, are
-- those with the indices from 0 to 5.
use cs415_a.Base.{ℕ, ◌+◌, none, some, Option, Run, ok, out_of_fuel, ◌>>=◌}
use cs415_a.Kernel.{Kernel, set_pcb}
use cs415_a.Queue.{next}
use cs415_a.Sleep.{sleep, tick}
use cs415_a.SelfTest.{assert_equals}

-- `process[i].pid = i+1;`
abbrev pub number_process : Kernel → (i : ℕ) → Kernel
number_process k i = set_pcb k i (record (k.pcb_table i) { pid = i + 1 })

unfoldable pub number_processes : Kernel → Kernel
number_processes k =
    number_process
      (number_process (number_process (number_process (number_process (number_process k 0) 1) 2) 3)
        4)
      5

-- `assertEquals(p, …); assertEquals(p->delta, …);`, and the next one
unfoldable pub assert_sleeper : Kernel → Option ℕ → (process delta : ℕ) → Run (Option ℕ)
assert_sleeper k none process delta = out_of_fuel
assert_sleeper k (some p) process delta = do
  _ ← assert_equals p process
  _ ← assert_equals (k.pcb_table p).delta delta
  ok (k.pcb_table p).next

unfoldable pub assert_none : Option ℕ → Run {0} Unit
assert_none none = ok tt
assert_none (some p) = out_of_fuel

-- The six calls of `sleep`.
unfoldable pub sleep_six : Kernel → Run Kernel
unfolding sleep
sleep_six k = do
  k1 ← sleep k 0 70
  k2 ← sleep k1 1 20
  k3 ← sleep k2 5 19
  k4 ← sleep k3 2 40
  k5 ← sleep k4 3 1
  sleep k5 4 119

unfoldable pub assert_six : Kernel → Run {0} Unit
unfolding assert_sleeper assert_none
assert_six k = do
  p1 ← assert_sleeper k k.sleep_list 3 1
  p2 ← assert_sleeper k p1 1 1
  p3 ← assert_sleeper k p2 5 0
  p4 ← assert_sleeper k p3 2 2
  p5 ← assert_sleeper k p4 0 3
  p6 ← assert_sleeper k p5 4 5
  assert_none p6

unfoldable pub test_sleep_list : Kernel → Run Kernel
unfolding number_processes sleep_six assert_six assert_sleeper assert_none tick next
test_sleep_list k = do
  k1 ← sleep_six (number_processes k)
  _ ← assert_six k1
  k2 ← tick k1
  _ ← assert_sleeper k2 k2.sleep_list 1 1
  k3 ← tick k2
  _ ← assert_sleeper k3 k3.sleep_list 2 2
  let (p, k4) = next (record k3 { sleep_list = none; ready_queue = none })
  _ ← assert_none p
  ok k4
