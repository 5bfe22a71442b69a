-- ===== src/Drawing/Grows.antt =====
-- What a step of the traversal of o3d-webgl/transform.js may change: it appends to the draw lists and
-- sets world matrices.
use toolbox.Base.{ℕ, ◌≡◌, ◌↔◌, inl, inr, refl, sym, ap, ◌∙◌, List, [], ◌∷◌, ◌++◌, Option, some}
use mathlib.Core.List.Memᴰ
use mathlib.Core.List.{Memᴰ, append-nil, append_assoc}
use mathlib.Core.Path.{subst}
use toolbox.Transform.Tree.{Heap, Node}
use toolbox.Drawing.{DrawElementInfo, Drawing, each}
use toolbox.Drawing.Traverse.{each_call}

-- All of a transform but its world matrix.
abbrev pub strip : {N : Type 0} → Node N → Node N
strip node = record node { world_matrix = node.local_matrix }

-- The lists for each x of a list, one behind the other.
abbrev pub flat : {A B : Type 0} → List A → (A → List B) → List B
flat [] g = []
flat (x ∷ xs) g = g x ++ flat xs g

pub flat-nil : {A B : Type 0} (xs : List A) (g : A → List B) → ((x : A) → g x ≡ []) → flat xs g ≡ []
flat-nil [] g e = refl
flat-nil (x ∷ xs) g e = rw (e x) (flat-nil xs g e)

-- What is in them is in one of them.
pub flat-Memᴰ :
    {A B : Type 0} (y : B) (xs : List A) (g : A → List B)
    → Memᴰ y (flat xs g) ↔ ((x : A) × Memᴰ x xs × Memᴰ y (g x))
flat-Memᴰ y [] g = (λ m. absurd (Memᴰ.not-nil m), λ (x, m, n). absurd (Memᴰ.not-nil m))
flat-Memᴰ y (z ∷ zs) g = (
  λ m. elim (Memᴰ.append_cases (g z) m) [
    | inl here ↦ (z, Memᴰ.head refl, here)
    | inr later ↦ let (x, n, k) = (flat-Memᴰ y zs g).0 later in (x, Memᴰ.tail n, k)
  ],
  λ (x, m, n). elim (Memᴰ.cases_cons m) [
    | inl same ↦ Memᴰ.append_left (flat zs g) (subst (λ u. Memᴰ y (g u)) same n)
    | inr k ↦ Memᴰ.append_right (g z) ((flat-Memᴰ y zs g).1 (x, k, n))
  ],
)

-- For each draw list the entries that it gets.
abbrev pub Entries : Type 0 → Type 0
Entries N = ℕ → List (DrawElementInfo N)

module _ {N : Type 0} where
  abbrev pub SameNodes : Heap N → Heap N → Type 0
  SameNodes h h' = (i : ℕ) → strip (h' i) ≡ strip (h i)

  -- From `s` to `s'` just these entries are appended to the draw lists.
  abbrev pub Grows : Drawing N → Drawing N → Entries N → Type 0
  Grows s s' P = SameNodes s.transforms s'.transforms × ((l : ℕ) → s'.lists l ≡ s.lists l ++ P l)

  -- The entries for each x of a list, in order.
  abbrev pub each_of : {A : Type 0} → List A → (A → Entries N) → Entries N
  each_of xs P l = flat xs (λ x. P x l)

  abbrev pub both : Entries N → Entries N → Entries N
  both P Q l = P l ++ Q l

  -- No more entries.
  pub grow_none :
      (s s' : Drawing N) (P : Entries N)
      → SameNodes s.transforms s'.transforms
      → ((l : ℕ) → s'.lists l ≡ s.lists l)
      → ((l : ℕ) → P l ≡ [])
      → Grows s s' P
  grow_none s s' P same lists nothing =
      (same, λ l. lists l ∙ sym (append-nil (s.lists l)) ∙ ap (s.lists l ++◌) (sym (nothing l)))

  pub grow_both :
      (s s' t : Drawing N) (P Q : Entries N) → Grows s s' P → Grows s' t Q → Grows s t (both P Q)
  grow_both s s' t P Q g h = (
    λ i. h.0 i ∙ g.0 i,
    λ l. h.1 l ∙ ap (λ x. x ++ Q l) (g.1 l) ∙ append_assoc (s.lists l) (P l) (Q l),
  )

  -- A loop, with the drawing in its state at `get`.
  pub each-Grows :
      {A S : Type 0} (get : S → Drawing N) (g : A → S → S) (P : A → Entries N)
      → ((a : A) (s : S) → Grows (get s) (get (g a s)) (P a))
      → (xs : List A) (s : S) → Grows (get s) (get (each g xs s)) (each_of xs P)
  unfolding each
  each-Grows get g P step [] s =
      grow_none (get s) (get s) (each_of [] P) (λ i. refl) (λ l. refl) (λ l. refl)
  each-Grows get g P step (a ∷ xs) s =
      grow_both (get s) (get (g a s)) (get (each g xs (g a s))) (P a) (each_of xs P) (step a s)
        (each-Grows get g P step xs (g a s))

  -- A run returns, and appends just these entries.
  abbrev pub Draws : Drawing N → Option (Drawing N) → Entries N → Type 0
  Draws s run P = (s' : Drawing N) × (run ≡ some s') × Grows s s' P

  -- A loop over calls, each on a drawing with the nodes of `h`.
  pub each_call-Draws :
      (h : Heap N) (g : ℕ → Drawing N → Option (Drawing N)) (P : ℕ → Entries N) (xs : List ℕ)
      → ((a : ℕ) (s : Drawing N) → Memᴰ a xs → SameNodes h s.transforms → Draws s (g a s) (P a))
      → (s : Drawing N) → SameNodes h s.transforms
      → Draws s (each_call g xs (some s)) (each_of xs P)
  unfolding each_call
  each_call-Draws h g P [] step s same =
      (s, refl, grow_none s s (each_of [] P) (λ i. refl) (λ l. refl) (λ l. refl))
  each_call-Draws h g P (a ∷ xs) step s same =
      let (s', e, now) = step a s (Memᴰ.head refl) same in
      let (t, e', rest) =
        each_call-Draws h g P xs (λ b u m. step b u (Memᴰ.tail m)) s' (λ i. now.0 i ∙ same i) in
      (t, ap (each_call g xs) e ∙ e', grow_both s s' t (P a) (each_of xs P) now rest)
