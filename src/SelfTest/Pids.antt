-- ===== src/SelfTest/Pids.antt =====
-- The test of the map of the PIDs in c/init.c.
use cs415_a.Base.{
  ℕ, leb, if◌then◌else◌, none, some, List, [], ◌∷◌, Run, ok, fault, out_of_fuel, ◌>>=◌,
}
use cs415_a.Heap.{Heap}
use cs415_a.PidMap.{Tree, leaf, node, insert, delete, lookup}
use cs415_a.SelfTest.{assert_equals}

-- The calls of `pidMapInsert` for these PIDs, each mapped to the same number.
unfoldable pub insert_each : List ℕ → Tree → Heap → Run (Tree × Heap)
unfolding insert
insert_each [] t h = ok (t, h)
insert_each (pid ∷ pids) t h = insert h t pid pid >>= λ (t', h'). insert_each pids t' h'

unfoldable pub delete_each : List ℕ → Tree → Heap → Run (Tree × Heap)
unfolding delete
delete_each [] t h = ok (t, h)
delete_each (pid ∷ pids) t h = delete h t pid >>= λ (t', h'). delete_each pids t' h'

-- `assert(pidMap->height <= …)`
unfoldable pub assert_height : Tree → (most : ℕ) → Run {0} Unit
assert_height leaf most = fault
assert_height (node at pid index l r h) most = if leb h most then ok tt else out_of_fuel

-- The result is OK, and the value the PID.
unfoldable pub assert_mapped : List ℕ → Tree → Run {0} Unit
unfolding lookup
assert_mapped [] t = ok tt
assert_mapped (pid ∷ pids) t = elim (lookup t pid) [
  | none ↦ out_of_fuel
  | some value ↦ assert_equals value pid >>= λ _. assert_mapped pids t
]

-- The result is 0.
unfoldable pub assert_unmapped : List ℕ → Tree → Run {0} Unit
unfolding lookup
assert_unmapped [] t = ok tt
assert_unmapped (pid ∷ pids) t = elim (lookup t pid) [
  | none ↦ assert_unmapped pids t
  | some value ↦ out_of_fuel
]

-- `assertEquals(pidMap, NULL)`
unfoldable pub assert_empty : Tree → Run {0} Unit
assert_empty leaf = ok tt
assert_empty (node at pid index l r h) = out_of_fuel

abbrev pub inserted_pids : List ℕ
inserted_pids = 3 ∷ 0 ∷ 2 ∷ 4 ∷ 1 ∷ 5 ∷ 6 ∷ 7 ∷ 8 ∷ 9 ∷ 10 ∷ 11 ∷ 12 ∷ 13 ∷ 14 ∷ 15 ∷ []

abbrev pub low_pids : List ℕ
low_pids = 0 ∷ 1 ∷ 2 ∷ 3 ∷ 4 ∷ 5 ∷ 6 ∷ 7 ∷ []

abbrev pub high_pids : List ℕ
high_pids = 7 ∷ 7 ∷ 7 ∷ 8 ∷ 9 ∷ 10 ∷ 11 ∷ 12 ∷ 13 ∷ 14 ∷ 15 ∷ []

unfoldable pub test_pid_map : Tree → Heap → Run (Tree × Heap)
unfolding insert_each delete_each assert_height assert_mapped assert_unmapped assert_empty
test_pid_map t h = do
  (t1, h1) ← insert_each inserted_pids t h
  _ ← assert_height t1 5
  (t2, h2) ← delete_each low_pids t1 h1
  _ ← assert_height t2 4
  _ ← assert_mapped (8 ∷ 10 ∷ 12 ∷ 14 ∷ []) t2
  _ ← assert_unmapped (7 ∷ 5 ∷ 3 ∷ 1 ∷ []) t2
  (t3, h3) ← delete_each high_pids t2 h2
  _ ← assert_empty t3
  ok (t3, h3)
