-- ===== src/Process/Tree.antt =====
-- crates/chassis-core/src/process.rs: `collect_descendants`, from the list of processes with their
-- parents that was read from /proc. The top of the vector `queue` is the head of the list.
pub mod Closure
use ai_garage.Common.{
  ℕ, zero, suc, Bool, true, false, not, ◌&&◌, ◌||◌, List, [], ◌∷◌, ◌++◌, length, ◌==◌,
  if◌then◌else◌,
}

-- `contains`
abbrev pub mem : ℕ → List ℕ → Bool
mem x [] = false
mem x (y ∷ ys) = y == x || mem x ys

-- The loop over the processes for one parent: what was found, and the queue.
unfoldable pub visit : ℕ → List (ℕ × ℕ) → List ℕ → List ℕ → List ℕ × List ℕ
visit current [] descendants queue = (descendants, queue)
visit current ((pid, ppid) ∷ rest) descendants queue =
    let fresh = ppid == current && not (mem pid descendants) in
    visit current rest (if fresh then descendants ++ pid ∷ [] else descendants)
      (if fresh then pid ∷ queue else queue)

-- The loop `while let Some(current) = queue.pop()`, for as many rounds as the fuel has.
unfoldable pub search_loop : ℕ → List (ℕ × ℕ) → List ℕ → List ℕ → List ℕ × List ℕ
search_loop zero ppid_map descendants queue = (descendants, queue)
search_loop (suc f) ppid_map descendants [] = (descendants, [])
search_loop (suc f) ppid_map descendants (current ∷ queue) =
    let (descendants', queue') = visit current ppid_map descendants queue in
    search_loop f ppid_map descendants' queue'

-- One round for the root and one for each process are enough.
unfoldable pub collect_descendants : List (ℕ × ℕ) → ℕ → List ℕ
collect_descendants ppid_map root_pid =
    (search_loop (suc (length ppid_map)) ppid_map [] (root_pid ∷ [])).0
