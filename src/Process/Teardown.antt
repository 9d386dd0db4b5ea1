-- ===== src/Process/Teardown.antt =====
-- crates/chassis-core/src/process.rs: `shutdown`, `force_kill` and `kill_process_tree`, with the reading of
-- /proc in `collect_descendants`. What happens to the process is a parameter; an operation returns
-- the list of what it did.
use ai_garage.Common.{
  ℕ, ◌+◌, ◌*◌, ◌-◌, ◌^◌, ◌==◌, ltb, leb, ◌≡◌, ◌↔◌, refl, Bool, true, false, not, ◌&&◌, ◌||◌, List,
  [], ◌∷◌, ◌++◌, map, any, any-append, Option, none, some, Text, text, trim_start, is_whitespace,
  Result, ok, err, if◌then◌else◌, arith,
}
use ai_garage.Json.{Json}
use ai_garage.Error.{CoreError}
use ai_garage.Protocol.Lifecycle.{method_kernel_shutdown}
use ai_garage.Process.{Mux, send_request}
use ai_garage.Process.Tree.{mem, collect_descendants}
use ai_garage.Process.Tree.Closure.{Descendant, collect_descendants_iff}

-- An entry of /proc: its name if it is Unicode, and its file `stat` if it can be read.
pub record ProcEntry : Type 0 where
  pub name : Option Text
  pub stat : Option Text

-- What stands behind the last occurrence: `rfind`.
unfoldable pub after_last : ℕ → Text → Option Text
after_last c [] = none
after_last c (x ∷ s) = elim (after_last c s) [
  | some r ↦ some r
  | none ↦ if x == c then some s else none
]

abbrev keep_word : Text × List Text → List Text
keep_word ([], ws) = ws
keep_word (c ∷ w, ws) = (c ∷ w) ∷ ws

-- The word at the start, if any, and the words behind it.
unfoldable pub split_word : Text → Text × List Text
unfolding is_whitespace
split_word [] = ([], [])
split_word (c ∷ s) =
    let (w, ws) = split_word s in if is_whitespace c then ([], keep_word (w, ws)) else (c ∷ w, ws)

unfoldable pub split_whitespace : Text → List Text
unfolding split_word
split_whitespace s = keep_word (split_word s)

unfoldable pub parse_digits : ℕ → Text → Option ℕ
parse_digits n [] = some n
parse_digits n (c ∷ s) =
    let rest = parse_digits (n * 10 + (c - 48)) s in if leb 48 c && leb c 57 then rest else none

abbrev in_u32 : Option ℕ → Option ℕ
in_u32 none = none
in_u32 (some n) = if ltb n (2 ^ 32) then some n else none

-- `parse::<u32>().ok()`, which takes a plus sign
unfoldable pub parse_u32 : Text → Option ℕ
unfolding parse_digits
parse_u32 [] = none
parse_u32 (c ∷ []) = in_u32 (parse_digits 0 (c ∷ []))
parse_u32 (c ∷ d ∷ s) =
    in_u32 (if c == b'+' then parse_digits 0 (d ∷ s) else parse_digits 0 (c ∷ d ∷ s))

-- `parts[1].parse()`, where there are two parts
unfoldable pub second_number : List Text → Option ℕ
unfolding parse_u32
second_number (state ∷ ppid ∷ rest) = parse_u32 ppid
second_number _ = none

-- `if let Some(a) = o`
infixl 5 ◌>>=◌
abbrev ◌>>=◌ : {A B : Type 0} → Option A → (A → Option B) → Option B
none >>= f = none
some a >>= f = f a

unfoldable pub process_entry : ProcEntry → Option (ℕ × ℕ)
unfolding after_last split_whitespace parse_u32 second_number trim_start
process_entry entry = do
  file_name ← entry.name
  pid ← parse_u32 file_name
  content ← entry.stat
  rest ← after_last b')' content
  ppid ← second_number (split_whitespace (trim_start rest))
  some (pid, ppid)

unfoldable pub collect_entries : List ProcEntry → List (ℕ × ℕ)
unfolding process_entry
collect_entries [] = []
collect_entries (entry ∷ rest) = elim (process_entry entry) [
  | none ↦ collect_entries rest
  | some p ↦ p ∷ collect_entries rest
]

-- The processes with their parents; none where /proc cannot be read.
unfoldable pub read_processes : Option (List ProcEntry) → List (ℕ × ℕ)
unfolding collect_entries
read_processes none = []
read_processes (some entries) = collect_entries entries

-- `wait_briefly` waits 500 ms, `waited` until the process has ended; `killed_child` is the kill of the
-- handle, `reaped` the loop of `waitpid`.
pub data TeardownAction : Type 0 where
  wait_briefly waited killed_child reaped : TeardownAction
  killed_group killed_process : ℕ → TeardownAction

unfoldable pub kill_process_tree : Option (List ProcEntry) → ℕ → List TeardownAction
unfolding read_processes collect_descendants
kill_process_tree proc root_pid =
    killed_group root_pid
      ∷ map (λ pid. killed_process pid) (collect_descendants (read_processes proc) root_pid)
    ++ reaped ∷ []

unfoldable pub force_kill : Option (List ProcEntry) → Option ℕ → List TeardownAction
unfolding kill_process_tree
force_kill proc none = killed_child ∷ []
force_kill proc (some pid) = kill_process_tree proc pid ++ killed_child ∷ []

-- Whether the request ended in time, an error included: `replies` is that its waiter got an answer.
unfoldable pub attempt_is_ok : Bool → Result CoreError ℕ → Bool
attempt_is_ok replies (err e) = true
attempt_is_ok replies (ok waiter) = replies

module _ (j : Json) where
  -- `timeout` is in milliseconds; `accepted`, `replies` and `exits` are that the writer task takes the
  -- request, that the plugin answers it in time and that the process then ends within 500 ms.
  unfoldable pub shutdown :
      Option (List ProcEntry)
      → Option ℕ
      → ℕ
      → Bool
      → Bool
      → Bool
      → Mux j.Value
      → Result CoreError (Unit {0}) × List TeardownAction × Mux j.Value
  unfolding send_request attempt_is_ok force_kill
  shutdown proc pid timeout accepted replies exits s =
      let (attempt, s') =
        send_request accepted method_kernel_shutdown
          (some (
            j.object (
              (text "grace_timeout_ms", j.number timeout)
              ∷ (text "reason", j.string (text "kernel_shutdown"))
              ∷ [])))
          s in
      let graceful = attempt_is_ok replies attempt in
      let brief = if graceful then wait_briefly ∷ [] else [] in
      if graceful && exits
      then (ok tt, brief, s')
      else (ok tt, brief ++ force_kill proc pid ++ waited ∷ [], s')

-- Whether the action is the kill of this process, and of this group.
abbrev pub hits_process : ℕ → TeardownAction → Bool
hits_process x (killed_process pid) = pid == x
hits_process x _ = false

abbrev pub hits_group : ℕ → TeardownAction → Bool
hits_group x (killed_group pid) = pid == x
hits_group x _ = false

hits-map :
    (x : ℕ) (pids : List ℕ)
    → any (hits_process x) (map (λ pid. killed_process pid) pids) ≡ mem x pids
hits-map x [] = refl
hits-map x (pid ∷ pids) = ground (arith, hits-map x pids)

group-map :
    (x : ℕ) (pids : List ℕ) → any (hits_group x) (map (λ pid. killed_process pid) pids) ≡ false
group-map x [] = refl
group-map x (pid ∷ pids) = group-map x pids

killed-process :
    (proc : Option (List ProcEntry)) (root x : ℕ)
    → any (hits_process x) (force_kill proc (some root) ++ waited ∷ [])
      ≡ mem x (collect_descendants (read_processes proc) root)
unfolding force_kill kill_process_tree
killed-process proc root x =
    let pids = collect_descendants (read_processes proc) root in
    let each = map (λ pid. killed_process pid) pids in
    ground (
      arith,
      any-append (hits_process x) ((each ++ reaped ∷ []) ++ killed_child ∷ []) (waited ∷ []),
      any-append (hits_process x) (each ++ reaped ∷ []) (killed_child ∷ []),
      any-append (hits_process x) each (reaped ∷ []),
      hits-map x pids,
    )

killed-group :
    (proc : Option (List ProcEntry)) (root x : ℕ)
    → any (hits_group x) (force_kill proc (some root) ++ waited ∷ []) ≡ (root == x)
unfolding force_kill kill_process_tree
killed-group proc root x =
    let pids = collect_descendants (read_processes proc) root in
    let each = map (λ pid. killed_process pid) pids in
    ground (
      arith,
      any-append (hits_group x) ((each ++ reaped ∷ []) ++ killed_child ∷ []) (waited ∷ []),
      any-append (hits_group x) (each ++ reaped ∷ []) (killed_child ∷ []),
      any-append (hits_group x) each (reaped ∷ []),
      group-map x pids,
    )

module _ (j : Json) (proc : Option (List ProcEntry)) (pid : Option ℕ) (timeout : ℕ)
    (s : Mux j.Value) (p : TeardownAction → Bool) where
  -- A shutdown does what `force_kill` does, unless the process ended by itself.
  any-shutdown :
      (accepted replies exits : Bool)
      → p wait_briefly ≡ false
      → ((shutdown j proc pid timeout accepted replies exits s).0 ≡ ok tt)
        × (any p (shutdown j proc pid timeout accepted replies exits s).1 ≡ (
            not ((not accepted || replies) && exits) && any p (force_kill proc pid ++ waited ∷ [])))
  unfolding shutdown send_request attempt_is_ok
  any-shutdown true true true h = (refl, rw h refl)
  any-shutdown true true false h = (refl, rw h refl)
  any-shutdown true false exits h = (refl, refl)
  any-shutdown false replies true h = (refl, rw h refl)
  any-shutdown false replies false h = (refl, rw h refl)

module _ (j : Json) (proc : Option (List ProcEntry)) (root timeout : ℕ)
    (accepted replies exits : Bool) (s : Mux j.Value) where
  -- A shutdown always succeeds. It kills the group of the process, and no other, and kills one by one
  -- the descendants of the process that /proc shows, and no other process, unless the request ended
  -- in time, be it because it could not be sent, and the process then ended within its time of grace:
  -- in that case it kills nothing.
  pub shutdown_lem :
      (x : ℕ)
      → let (r, acts, s') = shutdown j proc (some root) timeout accepted replies exits s in
        let left = (not accepted || replies) && exits in
        (r ≡ ok tt)
        × ((any (hits_group x) acts ≡ true) ↔ ((left ≡ false) × (root ≡ x)))
        × ((any (hits_process x) acts ≡ true)
            ↔ ((left ≡ false) × Descendant (read_processes proc) root x))
  unfolding shutdown
  shutdown_lem x =
      let (r, g) =
        any-shutdown j proc (some root) timeout s (hits_group x) accepted replies exits refl in
      let (_, e) =
        any-shutdown j proc (some root) timeout s (hits_process x) accepted replies exits refl in
      let (found, complete) = collect_descendants_iff (read_processes proc) root x in
      let left = (not accepted || replies) && exits in
      (
        r,
        (
          λ h. ground (arith, g, killed-group proc root x),
          λ (h, k). ground (arith, g, killed-group proc root x),
        ),
        (
          λ h. (ground (arith, e), found (ground (arith, e, killed-process proc root x))),
          λ (h, k). ground (arith, e, killed-process proc root x, complete k),
        ),
      )
