-- ===== src/Buffer/Loops.antt =====
-- Counting loops, and the arrays that they read and write, for o3d-webgl/buffer.js and field.js.
use toolbox.Base.{
  ℕ, zero, suc, ◌+◌, ◌*◌, ◌≤◌, ◌<◌, ◌≡◌, ◌≢◌, refl, sym, ap, ◌∙◌, some, List, [], ◌∷◌, ◌++◌, arith,
  length, length-append, ◌-◌, ◌/◌, get_elem?, set, length-set, get_elem?-set_self, get_elem?-set_ne,
  ◌==◌, Bool-cases, inl, inr,
}
use native.Mathlib.Nat.{zero-add, suc-add, mul-suc, mul-le-mul_left, mul-add-div, div-eq_of_lt}

-- `for (var i = 0; i < n; ++i)`: the rounds 0, 1, ..., n - 1 in this order.
unfoldable pub for_up {ℓ} : {A : Type ℓ} → ℕ → (ℕ → A → A) → A → A
for_up zero f a = a
for_up (suc n) f a = f n (for_up n f a)

-- Such a loop that pushes to an array.
unfoldable pub collect {ℓ} : {A : Type ℓ} → ℕ → (ℕ → List A) → List A
collect zero f = []
collect (suc n) f = collect n f ++ f n

module _ {ℓ} {A : Type ℓ} where
  pub collect-ext :
      (n : ℕ) (f g : ℕ → List A) → ((i : ℕ) → i < n → f i ≡ g i) → collect n f ≡ collect n g
  unfolding collect
  collect-ext zero f g h = refl
  collect-ext (suc n) f g h =
      rw (collect-ext n f g (λ i lt. h i (omega arith)), h n (omega arith)) refl

  -- What every round keeps.
  pub for_up-invariant {κ} :
      (P : A → Type κ) (n : ℕ) (f : ℕ → A → A) (a : A)
      → P a
      → ((i : ℕ) (b : A) → i < n → P b → P (f i b))
      → P (for_up n f a)
  unfolding for_up
  for_up-invariant P zero f a h keep = h
  for_up-invariant P (suc n) f a h keep =
      keep n (for_up n f a) (omega arith)
        (for_up-invariant P n f a h (λ i b lt. keep i b (omega arith)))

module _ {ℓ} {A : Type ℓ} where
  -- A loop that writes one place in each round.
  abbrev pub write : ℕ → (ℕ → ℕ) → (ℕ → A) → List A → List A
  write n place value = for_up n (λ c a. set a (place c) (value c))

  pub length-write :
      (n : ℕ) (place : ℕ → ℕ) (value : ℕ → A) (a : List A)
      → length (write n place value a) ≡ length a
  length-write n place value a =
      for_up-invariant (λ b. length b ≡ length a) n (λ c b. set b (place c) (value c)) a refl
        (λ i b lt h. length-set b (place i) (value i) ∙ h)

  pub write-other :
      (n : ℕ) (place : ℕ → ℕ) (value : ℕ → A) (a : List A) (p : ℕ)
      → ((c : ℕ) → c < n → place c ≢ p)
      → get_elem? (write n place value a) p ≡ get_elem? a p
  write-other n place value a p away =
      for_up-invariant (λ b. get_elem? b p ≡ get_elem? a p) n (λ c b. set b (place c) (value c)) a
        refl (λ i b lt h. get_elem?-set_ne b (value i) (away i lt) ∙ h)

  pub write-at :
      (n : ℕ) (place : ℕ → ℕ) (value : ℕ → A) (a : List A) (c : ℕ)
      → c < n
      → place c < length a
      → ((c' : ℕ) → c' < n → c' ≢ c → place c' ≢ place c)
      → get_elem? (write n place value a) (place c) ≡ some (value c)
  unfolding for_up
  write-at zero place value a c lt in_range apart = absurd (omega arith)
  write-at (suc n) place value a c lt in_range apart = elim (Bool-cases (n == c)) [
    | inl t ↦
        let same : n ≡ c = ground arith in
        rw same (
          get_elem?-set_self (write c place value a) (place c) (value c)
            (omega (arith, length-write c place value a)))
    | inr f ↦
        let other : n ≢ c = ground arith in
        get_elem?-set_ne (write n place value a) (value n) (apart n (omega arith) other)
        ∙ write-at n place value a c (ground arith) in_range (λ c' lt'. apart c' (omega arith))
  ]

pub get_elem?-append_left {ℓ} :
    {A : Type ℓ} (xs ys : List A) (i : ℕ) → i < length xs → get_elem? (xs ++ ys) i ≡ get_elem? xs i
get_elem?-append_left [] ys i h = absurd (omega arith)
get_elem?-append_left (x ∷ xs) ys zero h = refl
get_elem?-append_left (x ∷ xs) ys (suc i) h = get_elem?-append_left xs ys i (omega arith)

get_elem?-append_right {ℓ} :
    {A : Type ℓ} (xs ys : List A) (i : ℕ) → get_elem? (xs ++ ys) (length xs + i) ≡ get_elem? ys i
get_elem?-append_right [] ys i = rw (zero-add i) refl
get_elem?-append_right (x ∷ xs) ys i = rw (suc-add (length xs) i) (get_elem?-append_right xs ys i)

-- Two nested loops that push one value a round.
module _ {ℓ} {A : Type ℓ} where
  abbrev pub grid : ℕ → ℕ → (ℕ → ℕ → A) → List A
  grid m n h = collect m (λ i. collect n (λ c. h i c ∷ []))

  length-line : (n : ℕ) (h : ℕ → A) → length (collect n (λ c. h c ∷ [])) ≡ n
  unfolding collect
  length-line zero h = refl
  length-line (suc n) h =
      omega (arith, length-append (collect n (λ c. h c ∷ [])) (h n ∷ []), length-line n h)

  line-at :
      (n : ℕ) (h : ℕ → A) (c : ℕ) → c < n → get_elem? (collect n (λ c. h c ∷ [])) c ≡ some (h c)
  unfolding collect
  line-at zero h c lt = absurd (omega arith)
  line-at (suc n) h c lt = elim (Bool-cases (c == n)) [
    | inl t ↦
        let same : c ≡ length (collect n (λ c. h c ∷ [])) + 0 = ground (arith, length-line n h) in
        let e : c ≡ n = ground arith in
        ap (get_elem? (collect n (λ c. h c ∷ []) ++ h n ∷ [])) same
        ∙ get_elem?-append_right (collect n (λ c. h c ∷ [])) (h n ∷ []) 0
        ∙ ap (λ k. some (h k)) (sym e)
    | inr f ↦
        get_elem?-append_left (collect n (λ c. h c ∷ [])) (h n ∷ []) c
          (ground (arith, length-line n h))
        ∙ line-at n h c (ground arith)
  ]

  pub length-grid : (m n : ℕ) (h : ℕ → ℕ → A) → length (grid m n h) ≡ n * m
  unfolding collect
  length-grid zero n h = omega arith
  length-grid (suc m) n h = omega (
    arith,
    length-append (grid m n h) (collect n (λ c. h m c ∷ [])),
    length-grid m n h,
    length-line n (h m),
    mul-suc n m,
  )

  pub grid-at :
      (m n : ℕ) (h : ℕ → ℕ → A) (i c : ℕ)
      → i < m
      → c < n
      → get_elem? (grid m n h) (n * i + c) ≡ some (h i c)
  unfolding collect
  grid-at zero n h i c lt lt' = absurd (omega arith)
  grid-at (suc m) n h i c lt lt' = elim (Bool-cases (i == m)) [
    | inl t ↦
        let e : i ≡ m = ground arith in
        let at_end : n * i + c ≡ length (grid m n h) + c =
          omega (arith, length-grid m n h, ap (n *◌) e) in
        ap (get_elem? (grid m n h ++ collect n (λ c. h m c ∷ []))) at_end
        ∙ get_elem?-append_right (grid m n h) (collect n (λ c. h m c ∷ [])) c
        ∙ line-at n (h m) c lt'
        ∙ ap (λ k. some (h k c)) (sym e)
    | inr f ↦
        let before : suc i ≤ m = ground arith in
        get_elem?-append_left (grid m n h) (collect n (λ c. h m c ∷ [])) (n * i + c)
          (omega (arith, length-grid m n h, mul-suc n i, mul-le-mul_left n before))
        ∙ grid-at m n h i c before lt'
  ]

-- A whole number of elements takes as many rounds.
pub rounds_exact : (n m : ℕ) → 0 < n → (n * m + n - 1) / n ≡ m
rounds_exact n m h =
    let e : n * m + n - 1 ≡ n * m + (n - 1) = omega arith in
    let small : n - 1 < n = omega arith in
    rw e (mul-add-div h m (n - 1) ∙ omega (arith, div-eq_of_lt small))
