-- ===== src/BoundingBox/Fitted.antt =====
-- fitBoxToPoints_ and add of o3d-webgl/bounding_box.js: what the boxes contain.
use toolbox.Base.{◌≡◌, refl, Bool, true, false, List, [], ◌∷◌, Bool-cases, inl, inr}
use toolbox.Math.{Array3}
use toolbox.BoundingBox.{Box, min, max, min3, max3, widen, fit_box_to_points, add}

-- A total order, by its test for less.
pub record IsOrder {N : Type 0} (less : N → N → Bool) : Type 0 where
  pub irreflexive : (a : N) → less a a ≡ false
  pub not_both : (a b : N) → less a b ≡ true → less b a ≡ false
  -- a ≤ b and b ≤ c.
  pub transitive : (a b c : N) → less b a ≡ false → less c b ≡ false → less c a ≡ false

module _ {N : Type 0} (less : N → N → Bool) where
  -- `p` is in the box.
  abbrev pub Contains : Box N → Array3 N → Type 0
  Contains b p =
      (less p.at0 b.min_extent.at0 ≡ false)
      × (less p.at1 b.min_extent.at1 ≡ false)
      × (less p.at2 b.min_extent.at2 ≡ false)
      × (less b.max_extent.at0 p.at0 ≡ false)
      × (less b.max_extent.at1 p.at1 ≡ false)
      × (less b.max_extent.at2 p.at2 ≡ false)

  abbrev pub ContainsAll : Box N → List (Array3 N) → Type 0
  ContainsAll b [] = record {}
  ContainsAll b (p ∷ points) = Contains b p × ContainsAll b points

  -- A box that reaches at least as far on each side.
  abbrev pub Covers : Box N → Box N → Type 0
  Covers big small =
      (less small.min_extent.at0 big.min_extent.at0 ≡ false)
      × (less small.min_extent.at1 big.min_extent.at1 ≡ false)
      × (less small.min_extent.at2 big.min_extent.at2 ≡ false)
      × (less big.max_extent.at0 small.max_extent.at0 ≡ false)
      × (less big.max_extent.at1 small.max_extent.at1 ≡ false)
      × (less big.max_extent.at2 small.max_extent.at2 ≡ false)

module _ {N : Type 0} (less : N → N → Bool) (o : IsOrder less) where
  min_below_left : (a b : N) → less a (min less a b) ≡ false
  min_below_left a b = elim (Bool-cases (less b a)) [
    | inl t ↦ rw t (o.not_both b a t)
    | inr t ↦ rw t (o.irreflexive a)
  ]

  min_below_right : (a b : N) → less b (min less a b) ≡ false
  min_below_right a b = elim (Bool-cases (less b a)) [
    | inl t ↦ rw t (o.irreflexive b)
    | inr t ↦ rw t t
  ]

  max_above_left : (a b : N) → less (max less a b) a ≡ false
  max_above_left a b = elim (Bool-cases (less a b)) [
    | inl t ↦ rw t (o.not_both a b t)
    | inr t ↦ rw t (o.irreflexive a)
  ]

  max_above_right : (a b : N) → less (max less a b) b ≡ false
  max_above_right a b = elim (Bool-cases (less a b)) [
    | inl t ↦ rw t (o.irreflexive b)
    | inr t ↦ rw t t
  ]

  Contains-Covers :
      (big small : Box N) (p : Array3 N)
      → Covers less big small
      → Contains less small p
      → Contains less big p
  Contains-Covers big small p c d = (
    o.transitive big.min_extent.at0 small.min_extent.at0 p.at0 c.0 d.0,
    o.transitive big.min_extent.at1 small.min_extent.at1 p.at1 c.1 d.1,
    o.transitive big.min_extent.at2 small.min_extent.at2 p.at2 c.2 d.2,
    o.transitive p.at0 small.max_extent.at0 big.max_extent.at0 d.3 c.3,
    o.transitive p.at1 small.max_extent.at1 big.max_extent.at1 d.4 c.4,
    o.transitive p.at2 small.max_extent.at2 big.max_extent.at2 d.5 c.5,
  )

  Covers-self : (b : Box N) → Covers less b b
  Covers-self b = (
    o.irreflexive b.min_extent.at0,
    o.irreflexive b.min_extent.at1,
    o.irreflexive b.min_extent.at2,
    o.irreflexive b.max_extent.at0,
    o.irreflexive b.max_extent.at1,
    o.irreflexive b.max_extent.at2,
  )

  Covers-through : (a b c : Box N) → Covers less a b → Covers less b c → Covers less a c
  Covers-through a b c g h = (
    o.transitive a.min_extent.at0 b.min_extent.at0 c.min_extent.at0 g.0 h.0,
    o.transitive a.min_extent.at1 b.min_extent.at1 c.min_extent.at1 g.1 h.1,
    o.transitive a.min_extent.at2 b.min_extent.at2 c.min_extent.at2 g.2 h.2,
    o.transitive c.max_extent.at0 b.max_extent.at0 a.max_extent.at0 h.3 g.3,
    o.transitive c.max_extent.at1 b.max_extent.at1 a.max_extent.at1 h.4 g.4,
    o.transitive c.max_extent.at2 b.max_extent.at2 a.max_extent.at2 h.5 g.5,
  )

  -- The box of the extents of two, as `add` and a round of the loop make it.
  abbrev joined : Array3 N → Array3 N → Array3 N → Array3 N → Bool → Box N
  joined lo lo' hi hi' v = record {
    min_extent = min3 less lo lo';
    max_extent = max3 less hi hi';
    valid = v;
  }

  joined-Covers_left :
      (a b : Box N) (v : Bool)
      → Covers less (joined a.min_extent b.min_extent a.max_extent b.max_extent v) a
  joined-Covers_left a b v = (
    min_below_left a.min_extent.at0 b.min_extent.at0,
    min_below_left a.min_extent.at1 b.min_extent.at1,
    min_below_left a.min_extent.at2 b.min_extent.at2,
    max_above_left a.max_extent.at0 b.max_extent.at0,
    max_above_left a.max_extent.at1 b.max_extent.at1,
    max_above_left a.max_extent.at2 b.max_extent.at2,
  )

  joined-Covers_right :
      (a b : Box N) (v : Bool)
      → Covers less (joined a.min_extent b.min_extent a.max_extent b.max_extent v) b
  joined-Covers_right a b v = (
    min_below_right a.min_extent.at0 b.min_extent.at0,
    min_below_right a.min_extent.at1 b.min_extent.at1,
    min_below_right a.min_extent.at2 b.min_extent.at2,
    max_above_right a.max_extent.at0 b.max_extent.at0,
    max_above_right a.max_extent.at1 b.max_extent.at1,
    max_above_right a.max_extent.at2 b.max_extent.at2,
  )

  min_least : (a b c : N) → less a c ≡ false → less b c ≡ false → less (min less a b) c ≡ false
  min_least a b c h g = elim (Bool-cases (less b a)) [ inl t ↦ rw t g | inr t ↦ rw t h ]

  max_greatest : (a b c : N) → less c a ≡ false → less c b ≡ false → less c (max less a b) ≡ false
  max_greatest a b c h g = elim (Bool-cases (less a b)) [ inl t ↦ rw t g | inr t ↦ rw t h ]

  -- The joined box is the smallest that covers both.
  joined_least :
      (a b c : Box N) (v : Bool)
      → Covers less c a
      → Covers less c b
      → Covers less c (joined a.min_extent b.min_extent a.max_extent b.max_extent v)
  joined_least a b c v g h = (
    min_least a.min_extent.at0 b.min_extent.at0 c.min_extent.at0 g.0 h.0,
    min_least a.min_extent.at1 b.min_extent.at1 c.min_extent.at1 g.1 h.1,
    min_least a.min_extent.at2 b.min_extent.at2 c.min_extent.at2 g.2 h.2,
    max_greatest a.max_extent.at0 b.max_extent.at0 c.max_extent.at0 g.3 h.3,
    max_greatest a.max_extent.at1 b.max_extent.at1 c.max_extent.at1 g.4 h.4,
    max_greatest a.max_extent.at2 b.max_extent.at2 c.max_extent.at2 g.5 h.5,
  )

  -- A point as a box.
  abbrev point_box : Array3 N → Box N
  point_box p = record { min_extent = p; max_extent = p; valid = false }

  ContainsAll-Covers :
      (big small : Box N) (points : List (Array3 N))
      → Covers less big small
      → ContainsAll less small points
      → ContainsAll less big points
  ContainsAll-Covers big small [] c d = record {}
  ContainsAll-Covers big small (p ∷ points) c d =
      (Contains-Covers big small p c d.0, ContainsAll-Covers big small points c d.1)

  widen-Covers : (b : Box N) (points : List (Array3 N)) → Covers less (widen less b points) b
  unfolding widen
  widen-Covers b [] = Covers-self b
  widen-Covers b (p ∷ points) =
      let next = joined b.min_extent p b.max_extent p b.valid in
      Covers-through (widen less next points) next b (widen-Covers next points)
        (joined-Covers_left b (point_box p) b.valid)

  widen-ContainsAll :
      (b : Box N) (points : List (Array3 N)) → ContainsAll less (widen less b points) points
  unfolding widen
  widen-ContainsAll b [] = record {}
  widen-ContainsAll b (p ∷ points) =
      let next = joined b.min_extent p b.max_extent p b.valid in
      (
        Covers-through (widen less next points) next (point_box p) (widen-Covers next points)
            (joined-Covers_right b (point_box p) b.valid),
        widen-ContainsAll next points,
      )

  widen_least :
      (b c : Box N) (points : List (Array3 N))
      → Covers less c b
      → ContainsAll less c points
      → Covers less c (widen less b points)
  unfolding widen
  widen_least b c [] g h = g
  widen_least b c (p ∷ points) g h =
      let next = joined b.min_extent p b.max_extent p b.valid in
      widen_least next c points (joined_least b (point_box p) c b.valid g h.0) h.1

  -- For a test `less` of a total order, the box of fitBoxToPoints_ contains all the points and is the
  -- smallest that does: every box that contains them reaches at least as far on each side. The box
  -- of `add` is in the same way the smallest that covers both boxes. Both are valid.
  pub fitted-Covers :
      (p : Array3 N) (points : List (Array3 N)) (a b : Box N)
      → ContainsAll less (fit_box_to_points less p points) (p ∷ points)
        × ((c : Box N)
            → ContainsAll less c (p ∷ points)
            → Covers less c (fit_box_to_points less p points))
        × Covers less (add less a b) a
        × Covers less (add less a b) b
        × ((c : Box N) → Covers less c a → Covers less c b → Covers less c (add less a b))
        × ((fit_box_to_points less p points).valid ≡ true)
        × ((add less a b).valid ≡ true)
  unfolding fit_box_to_points add
  fitted-Covers p points a b = (
    (widen-Covers (point_box p) points, widen-ContainsAll (point_box p) points),
    λ c h. widen_least (point_box p) c points h.0 h.1,
    joined-Covers_right b a true,
    joined-Covers_left b a true,
    λ c g h. joined_least b a c true h g,
    refl,
    refl,
  )
