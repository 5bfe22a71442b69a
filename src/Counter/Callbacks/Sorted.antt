-- ===== src/Counter/Callbacks/Sorted.antt =====
-- The order of the callbacks in `addCallback` and `removeCallback` of o3d-webgl/counter.js.
use toolbox.Base.{
  ℕ, ◌≡◌, refl, ◌≢◌, inl, inr, Bool, true, false, Option, none, some, List, [], ◌∷◌, arith,
  if◌then◌else◌, All, All-mono, Bool-cases,
}
use toolbox.Base.Int.{ℤ, ltb_ℤ, eqb_ℤ, ◌≤ℤ◌, ◌<ℤ◌, eq_of_eqb_ℤ, lt_of_ltb_ℤ}
use toolbox.Counter.Callbacks.{
  CallbackInfo, Callbacks, insert_callback, add_callback, delete_callback, remove_callback,
}

abbrev pub Above : ℤ → List CallbackInfo → Type 0
Above n = All (λ c. n <ℤ c.count)

abbrev pub IsSorted : List CallbackInfo → Type 0
IsSorted [] = Unit
IsSorted (c ∷ cs) = Above c.count cs × IsSorted cs

-- The callback function at a count.
unfoldable pub find_callback : ℤ → List CallbackInfo → Option ℕ
find_callback n [] = none
find_callback n (c ∷ cs) = if eqb_ℤ c.count n then some c.callback else find_callback n cs

module _ (n : ℤ) (f : ℕ) where
  insert_callback-Above :
      (m : ℤ) (cs : List CallbackInfo) → m <ℤ n → Above m cs → Above m (insert_callback n f cs)
  unfolding insert_callback
  insert_callback-Above m [] lt h = (lt, tt)
  insert_callback-Above m (c ∷ cs) lt h = ground (arith, insert_callback-Above m cs lt h.1)

  insert_callback-IsSorted :
      (cs : List CallbackInfo) → IsSorted cs → IsSorted (insert_callback n f cs)
  unfolding insert_callback
  insert_callback-IsSorted [] h = (tt, tt)
  insert_callback-IsSorted (c ∷ cs) h = elim (Bool-cases (eqb_ℤ c.count n)) [
    | inl same ↦ rw same h
    | inr other ↦ rw other (elim (Bool-cases (ltb_ℤ n c.count)) [
      | inl lt ↦ rw lt ((lt_of_ltb_ℤ n c.count lt, All-mono cs (λ d k. ground arith) h.0), h)
      | inr ge ↦
          rw ge
            (insert_callback-Above c.count cs (ground arith) h.0, insert_callback-IsSorted cs h.1)
    ])
  ]

  find_callback-insert :
      (m : ℤ) (cs : List CallbackInfo)
      → find_callback m (insert_callback n f cs)
        ≡ (if eqb_ℤ n m then some f else find_callback m cs)
  unfolding insert_callback find_callback
  find_callback-insert m [] = refl
  find_callback-insert m (c ∷ cs) = ground (arith, find_callback-insert m cs)

-- `addCallback` keeps the list sorted, maps the count to the function, leaves every other count as
-- it was, and forgets both remembered places.
find_callback-add_callback :
    (count : ℤ) (callback : ℕ) (c : Callbacks)
    → IsSorted c.callbacks
    → IsSorted (add_callback count callback c).callbacks
      × ((m : ℤ)
          → find_callback m (add_callback count callback c).callbacks
            ≡ (if eqb_ℤ count m then some callback else find_callback m c.callbacks))
      × ((add_callback count callback c).next_callback ≡ none)
      × ((add_callback count callback c).prev_callback ≡ 0)
unfolding add_callback
find_callback-add_callback count callback c h = (
  insert_callback-IsSorted count callback c.callbacks h,
  λ m. find_callback-insert count callback m c.callbacks,
  refl,
  refl,
)

find_callback-Above :
    (n m : ℤ) (cs : List CallbackInfo) → m ≤ℤ n → Above n cs → find_callback m cs ≡ none
unfolding find_callback
find_callback-Above n m [] le h = refl
find_callback-Above n m (c ∷ cs) le h = ground (arith, find_callback-Above n m cs le h.1)

-- What `removeCallback` promises, for the outcome of its loop.
abbrev Deleted : ℤ → List CallbackInfo → Option (List CallbackInfo) → Type 0
Deleted n cs none = find_callback n cs ≡ none
Deleted n cs (some left) =
    (find_callback n cs ≢ none)
    × IsSorted left
    × ((m : ℤ) → find_callback m left ≡ (if eqb_ℤ n m then none else find_callback m cs))
    × ((m : ℤ) → Above m cs → Above m left)

Deleted-cons :
    (n : ℤ) (c : CallbackInfo) (cs : List CallbackInfo) (o : Option (List CallbackInfo))
    → eqb_ℤ c.count n ≡ false
    → Above c.count cs
    → Deleted n cs o
    → Deleted n (c ∷ cs) (elim o [ none ↦ none | some left ↦ some (c ∷ left) ])
unfolding find_callback
Deleted-cons n c cs none other a h = rw other h
Deleted-cons n c cs (some left) other a h =
    (rw other h.0, (h.3 c.count a, h.1), λ m. ground (arith, h.2 m), λ m k. (k.0, h.3 m k.1))

delete_callback-Deleted :
    (n : ℤ) (cs : List CallbackInfo) → IsSorted cs → Deleted n cs (delete_callback n cs)
unfolding delete_callback find_callback
delete_callback-Deleted n [] h = refl
delete_callback-Deleted n (c ∷ cs) h = elim (Bool-cases (eqb_ℤ c.count n)) [
  | inl same ↦
      rw same
        (rw same (λ e. cc), h.1, λ m. ground (arith, find_callback-Above c.count m cs), λ m k. k.1)
  | inr other ↦
      rw other
        (Deleted-cons n c cs (delete_callback n cs) other h.0 (delete_callback-Deleted n cs h.1))
]

abbrev pub is_found : Option ℕ → Bool
is_found none = false
is_found (some f) = true

abbrev pub Removed : ℤ → Callbacks → Callbacks × Bool → Type 0
Removed n c (c', found) =
    IsSorted c'.callbacks
    × (found ≡ is_found (find_callback n c.callbacks))
    × ((m : ℤ)
        → find_callback m c'.callbacks ≡ (if eqb_ℤ n m then none else find_callback m c.callbacks))

-- `removeCallback` keeps the list sorted, returns whether there was a callback at the count, takes
-- it away and leaves every other count as it was.
find_callback-remove_callback :
    (n : ℤ) (c : Callbacks) → IsSorted c.callbacks → Removed n c (remove_callback n c)
unfolding remove_callback
find_callback-remove_callback n c h =
    go (delete_callback n c.callbacks) (delete_callback-Deleted n c.callbacks h)
  where
    go :
        (o : Option (List CallbackInfo))
        → Deleted n c.callbacks o
        → Removed n c (elim o [
          | none ↦ (c, false)
          | some left ↦
              (record c { callbacks = left; next_callback = none; prev_callback = 0 }, true)
        ])
    go none d = (
      h,
      rw d refl,
      λ m. elim (Bool-cases (eqb_ℤ n m)) [
        | inl same ↦ rw same (rw (← eq_of_eqb_ℤ n m same) d)
        | inr other ↦ rw other refl
      ],
    )
    go (some left) d = (d.1, ground (arith, d.0), d.2)

-- On a sorted list `addCallback` keeps the list sorted, maps the count to the function, leaves every
-- other count as it was, and forgets both remembered places. `removeCallback` keeps the list
-- sorted, returns whether there was a callback at the count, takes it away and leaves every other
-- count as it was.
pub find_callback-callbacks :
    (count : ℤ) (callback : ℕ) (c : Callbacks)
    → IsSorted c.callbacks
    → IsSorted (add_callback count callback c).callbacks
      × ((m : ℤ)
          → find_callback m (add_callback count callback c).callbacks
            ≡ (if eqb_ℤ count m then some callback else find_callback m c.callbacks))
      × ((add_callback count callback c).next_callback ≡ none)
      × ((add_callback count callback c).prev_callback ≡ 0)
      × Removed count c (remove_callback count c)
find_callback-callbacks count callback c h =
    let added = find_callback-add_callback count callback c h in
    (added.0, added.1, added.2, added.3, find_callback-remove_callback count c h)
