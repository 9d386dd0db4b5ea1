-- ===== src/Process/Tree/Closure.antt =====
-- crates/chassis-core/src/process.rs: what `collect_descendants` finds.
use ai_garage.Common.{
  ℕ, zero, suc, ◌+◌, ◌≤◌, ◌≡◌, ◌↔◌, ◌⊎◌, inl, inr, refl, Bool, true, false, not, ◌&&◌, ◌||◌, List,
  [], ◌∷◌, ◌++◌, length, ◌==◌, Bool-cases, if◌then◌else◌, arith,
}
use ai_garage.Process.Tree.{mem, visit, search_loop, collect_descendants}

-- The process `pid` stands in the list with the parent `ppid`.
abbrev pub is_child : List (ℕ × ℕ) → ℕ → ℕ → Bool
is_child [] pid ppid = false
is_child ((p, q) ∷ rest) pid ppid = (p == pid && q == ppid) || is_child rest pid ppid

-- `pid` is a child of the root, or a child of a descendant of it.
pub data Descendant (ppid_map : List (ℕ × ℕ)) (root : ℕ) : ℕ → Type 0 where
  child : {pid : ℕ} → is_child ppid_map pid root ≡ true → Descendant ppid_map root pid
  below :
      {pid ppid : ℕ}
      → Descendant ppid_map root ppid
      → is_child ppid_map pid ppid ≡ true
      → Descendant ppid_map root pid

mem-append_one : (x y : ℕ) (ys : List ℕ) → mem x (ys ++ y ∷ []) ≡ (mem x ys || y == x)
mem-append_one x y [] = ground arith
mem-append_one x y (z ∷ zs) = ground (arith, mem-append_one x y zs)

-- How many of the processes were not found yet.
abbrev unseen : List (ℕ × ℕ) → List ℕ → ℕ
unseen [] d = 0
unseen ((p, q) ∷ rest) d = (if mem p d then 0 else 1) + unseen rest d

unseen-append : (x : ℕ) (t : List (ℕ × ℕ)) (d : List ℕ) → unseen t (d ++ x ∷ []) ≤ unseen t d
unseen-append x [] d = ground arith
unseen-append x ((p, q) ∷ t) d = ground (arith, mem-append_one p x d, unseen-append x t d)

unseen-found :
    (x c : ℕ) (t : List (ℕ × ℕ)) (d : List ℕ)
    → is_child t x c ≡ true
    → mem x d ≡ false
    → unseen t (d ++ x ∷ []) + 1 ≤ unseen t d
unseen-found x c [] d h k = cc
unseen-found x c ((p, q) ∷ t) d h k =
    ground (arith, mem-append_one p x d, unseen-append x t d, unseen-found x c t d)

module _ (t : List (ℕ × ℕ)) where
  -- The rest of the list that a loop has before it.
  abbrev Within : List (ℕ × ℕ) → Type 0
  Within rest = (x c : ℕ) → is_child rest x c ≡ true → is_child t x c ≡ true

  visit-measure :
      (cur : ℕ) (rest : List (ℕ × ℕ)) (d q : List ℕ)
      → Within rest
      → unseen t (visit cur rest d q).0 + length (visit cur rest d q).1 ≤ unseen t d + length q
  unfolding visit
  visit-measure cur [] d q w = ground arith
  visit-measure cur ((p, c) ∷ rest) d q w =
      let later : Within rest = λ x y h. w x y (ground arith) in
      elim (Bool-cases (c == cur && not (mem p d))) [
        | inr e ↦ ground (arith, e, visit-measure cur rest d q later)
        | inl e ↦ ground (
          arith,
          e,
          unseen-found p c t d (w p c (ground arith)) (ground arith),
          visit-measure cur rest (d ++ p ∷ []) (p ∷ q) later,
        )
      ]

  loop-measure : (f : ℕ) (d q : List ℕ) → unseen t d + length q ≤ f → (search_loop f t d q).1 ≡ []
  unfolding search_loop
  loop-measure zero d [] h = refl
  loop-measure zero d (c ∷ q) h = absurd (ground arith)
  loop-measure (suc f) d [] h = refl
  loop-measure (suc f) d (c ∷ q) h =
      loop-measure f (visit c t d q).0 (visit c t d q).1
        (ground (arith, visit-measure c t d q (λ x y e. e)))

  visit-keeps :
      (cur x : ℕ) (rest : List (ℕ × ℕ)) (d q : List ℕ)
      → (mem x d ≡ true → mem x (visit cur rest d q).0 ≡ true)
        × (mem x q ≡ true → mem x (visit cur rest d q).1 ≡ true)
  unfolding visit
  visit-keeps cur x [] d q = (λ h. h, λ h. h)
  visit-keeps cur x ((p, c) ∷ rest) d q = elim (Bool-cases (c == cur && not (mem p d))) [
    | inr e ↦
        let (a, b) = visit-keeps cur x rest d q in (ground (arith, e, a), ground (arith, e, b))
    | inl e ↦
        let (a, b) = visit-keeps cur x rest (d ++ p ∷ []) (p ∷ q) in
        (ground (arith, e, a, mem-append_one x p d), ground (arith, e, b))
  ]

  -- What a visit adds are children of the process, and stands in the queue.
  visit-adds :
      (cur x : ℕ) (rest : List (ℕ × ℕ)) (d q : List ℕ)
      → (mem x (visit cur rest d q).0 ≡ true
          → (mem x d || (is_child rest x cur && mem x (visit cur rest d q).1)) ≡ true)
        × (mem x (visit cur rest d q).1 ≡ true → (mem x q || is_child rest x cur) ≡ true)
  unfolding visit
  visit-adds cur x [] d q = (λ h. ground arith, λ h. ground arith)
  visit-adds cur x ((p, c) ∷ rest) d q = elim (Bool-cases (c == cur && not (mem p d))) [
    | inr e ↦ let (a, b) = visit-adds cur x rest d q in (ground (arith, e, a), ground (arith, e, b))
    | inl e ↦
        let (a, b) = visit-adds cur x rest (d ++ p ∷ []) (p ∷ q) in
        let (u, v) = visit-keeps cur x rest (d ++ p ∷ []) (p ∷ q) in
        (ground (arith, e, a, v, mem-append_one x p d), ground (arith, e, b))
  ]

  visit-children :
      (cur x : ℕ) (rest : List (ℕ × ℕ)) (d q : List ℕ)
      → is_child rest x cur ≡ true
      → mem x (visit cur rest d q).0 ≡ true
  unfolding visit
  visit-children cur x [] d q h = cc
  visit-children cur x ((p, c) ∷ rest) d q h = elim (Bool-cases (c == cur && not (mem p d))) [
    | inr e ↦
        let (a, b) = visit-keeps cur x rest d q in
        ground (arith, e, a, visit-children cur x rest d q)
    | inl e ↦
        let (a, b) = visit-keeps cur x rest (d ++ p ∷ []) (p ∷ q) in
        ground (arith, e, a, mem-append_one x p d, visit-children cur x rest (d ++ p ∷ []) (p ∷ q))
  ]

  module _ (root : ℕ) where
    -- Only descendants were found, and the queue holds the root and descendants.
    abbrev Found : List ℕ → List ℕ → Type 0
    Found d q =
        ((x : ℕ) → mem x d ≡ true → Descendant t root x)
        × ((x : ℕ) → mem x q ≡ true → (x ≡ root) ⊎ Descendant t root x)

    child-Found :
        (c x : ℕ) → (c ≡ root) ⊎ Descendant t root c → is_child t x c ≡ true → Descendant t root x
    child-Found c x (inl e) h = child (ground arith)
    child-Found c x (inr k) h = below k h

    visit-Found :
        (c : ℕ) (d q : List ℕ) → Found d (c ∷ q) → Found (visit c t d q).0 (visit c t d q).1
    visit-Found c d q (a, b) =
        let from : (x : ℕ) → is_child t x c ≡ true → Descendant t root x =
          λ x h. child-Found c x (b c (ground arith)) h in
        (
          λ x h. elim (Bool-cases (mem x d)) [
            | inl e ↦ a x e
            | inr e ↦ let (u, v) = visit-adds c x t d q in from x (ground (arith, u))
          ],
          λ x h. elim (Bool-cases (mem x q)) [
            | inl e ↦ b x (ground arith)
            | inr e ↦ let (u, v) = visit-adds c x t d q in inr (from x (ground (arith, v)))
          ],
        )

    loop-Found :
        (f : ℕ) (d q : List ℕ) → Found d q → Found (search_loop f t d q).0 (search_loop f t d q).1
    unfolding search_loop
    loop-Found zero d q h = h
    loop-Found (suc f) d [] h = h
    loop-Found (suc f) d (c ∷ q) h =
        loop-Found f (visit c t d q).0 (visit c t d q).1 (visit-Found c d q h)

    -- A child of the root or of a process that was found was found itself, unless its parent is still
    -- in the queue.
    abbrev Closed : List ℕ → List ℕ → Type 0
    Closed d q =
        (x y : ℕ)
        → is_child t x y ≡ true
        → (y == root || mem y d) ≡ true
        → (mem x d || mem y q) ≡ true

    visit-Closed :
        (c : ℕ) (d q : List ℕ) → Closed d (c ∷ q) → Closed (visit c t d q).0 (visit c t d q).1
    visit-Closed c d q h x y k l =
        let (a, b) = visit-keeps c x t d q in
        let (a', b') = visit-keeps c y t d q in
        let (u, v) = visit-adds c y t d q in
        elim (Bool-cases (c == y)) [
          | inl e ↦
              let same : c ≡ y = ground arith in
              ground (arith, visit-children c x t d q (rw same k))
          | inr e ↦ ground (arith, h x y k, a, b', u)
        ]

    loop-Closed :
        (f : ℕ) (d q : List ℕ) → Closed d q → Closed (search_loop f t d q).0 (search_loop f t d q).1
    unfolding search_loop
    loop-Closed zero d q h = h
    loop-Closed (suc f) d [] h = h
    loop-Closed (suc f) d (c ∷ q) h =
        loop-Closed f (visit c t d q).0 (visit c t d q).1 (visit-Closed c d q h)

    unseen-length : (s : List (ℕ × ℕ)) → unseen s [] ≤ length s
    unseen-length [] = ground arith
    unseen-length ((p, c) ∷ s) = ground (arith, unseen-length s)

    all_found :
        (x y : ℕ)
        → is_child t x y ≡ true
        → (y == root || mem y (collect_descendants t root)) ≡ true
        → mem x (collect_descendants t root) ≡ true
    unfolding collect_descendants
    all_found x y k l =
        let done = loop-measure (suc (length t)) [] (root ∷ []) (ground (arith, unseen-length t)) in
        let closed =
          loop-Closed (suc (length t)) [] (root ∷ []) (λ x y k l. ground arith) x y k l in
        ground (arith, done, closed)

    found_complete : (x : ℕ) → Descendant t root x → mem x (collect_descendants t root) ≡ true
    found_complete x (child h) = all_found x root h (ground arith)
    found_complete x (below k h) = all_found x _ h (ground (arith, found_complete _ k))

    -- The search finds exactly the children of the root, their children and so on, also where the
    -- list has a cycle: its fuel is enough.
    pub collect_descendants_iff :
        (x : ℕ) → (mem x (collect_descendants t root) ≡ true) ↔ Descendant t root x
    unfolding collect_descendants
    collect_descendants_iff x = (
      λ h.
          (loop-Found (suc (length t)) [] (root ∷ [])
              (λ x h. ground arith, λ x h. inl (ground arith))).0
            x h,
      λ k. found_complete x k,
    )
