-- ===== src/Tests/SelfRuns.antt =====
-- The kernel's own tests of c/init.c, run on the model.
use cs415_a.Base.{
  Bool, true, false, ◌≡◌, refl, Run, ok, aborted, fault, out_of_fuel, none, [], ◌∷◌, ◌>>=◌,
}
use cs415_a.Heap.{kmeminit, kmalloc, kfree}
use cs415_a.PidMap.{leaf, lookup}
use cs415_a.Queue.{ready}
use cs415_a.SelfTest.Lists.{test_free_list}
use cs415_a.SelfTest.Pids.{test_pid_map, insert_each}
use cs415_a.SelfTest.Sleepers.{test_sleep_list}
use cs415_a.Tests.{kernel, empty_heap}

abbrev passes {ℓ} : {A : Type ℓ} → Run A → Bool
passes (ok a) = true
passes aborted = false
passes fault = false
passes out_of_fuel = false

test_free_list-passes : passes (test_free_list (kmeminit 0x9005 empty_heap)) ≡ true
unfolding test_free_list kmeminit
test_free_list-passes = refl

test_pid_map-passes : passes (test_pid_map leaf (kmeminit 0x9005 empty_heap)) ≡ true
unfolding test_pid_map kmeminit kmalloc kfree
test_pid_map-passes = refl

test_sleep_list-passes :
    passes (test_sleep_list (record kernel { sleep_list = none; ready_queue = none })) ≡ true
unfolding test_sleep_list ready
test_sleep_list-passes = refl

-- After three of the test's insertions the first PID is not in the map, which the test does not ask.
lookup_lost :
    (insert_each (3 ∷ 0 ∷ 2 ∷ []) leaf (kmeminit 0x9005 empty_heap) >>= λ (t, h). ok (lookup t 3))
    ≡ ok none
unfolding insert_each kmeminit kmalloc kfree lookup
lookup_lost = refl
