-- ===== src/Curve/Edits/Counted.antt =====
-- The number of step keys of a curve, `num_step_keys_` of o3d-webgl/curve.js, through its edits.
use toolbox.Base.{
  ℕ, zero, suc, ◌+◌, ◌≡◌, ◌≤◌, length, ◌↔◌, refl, sym, ap, ◌∙◌, not, Option, none, some, List, [],
  ◌∷◌, ◌++◌, arith, get_elem?, set, Bool-cases, if-both, inl, inr,
}
use mathlib.Core.Option.{some-injective}
use mathlib.Core.Path.{subst}
use toolbox.Base.Int.{ℤ, pos, ltb_ℤ, eqb_ℤ, ◌+ℤ◌, ◌-ℤ◌}
use toolbox.Curve.Keys.{
  CurveKey, KeyType, step, linear, bezier, Curve, Outputs, new_key, create_key, add_key, add_all,
  pairs_to_keys, groups_to_keys, add_linear_keys, add_step_keys, add_bezier_keys, invalidate_cache,
  insert_key, sort_keys, resort, update_curve_info,
}
use toolbox.Curve.Edits.{
  remove_key, KeyRef, standing, gone, with_key, set_input, set_output, uncount_step, destroy_key,
  Edit, create, add_linear, add_step, add_bezier, move, change, destroy, update, apply, run,
}

module _ (o : Outputs) where
  open o use {Output, of_ℤ, same}

  -- The number of step keys.
  abbrev is_step : KeyType → ℕ
  is_step step = 1
  is_step linear = 0
  is_step bezier = 0

  abbrev pub count_steps : List (CurveKey Output) → ℕ
  count_steps [] = 0
  count_steps (k ∷ ks) = is_step k.key_type + count_steps ks

  count_steps-append :
      (ks ls : List (CurveKey Output)) → count_steps (ks ++ ls) ≡ count_steps ks + count_steps ls
  count_steps-append [] ls = omega arith
  count_steps-append (k ∷ ks) ls = omega (arith, count_steps-append ks ls)

  count_steps-set :
      (ks : List (CurveKey Output)) (i : ℕ) (k l : CurveKey Output)
      → get_elem? ks i ≡ some k
      → l.key_type ≡ k.key_type
      → count_steps (set ks i l) ≡ count_steps ks
  count_steps-set [] i k l e h = refl
  count_steps-set (m ∷ ms) zero k l e h =
      let same_type : l.key_type ≡ m.key_type =
        h ∙ ap (λ n. n.key_type) (sym (some-injective m k e)) in
      rw same_type refl
  count_steps-set (m ∷ ms) (suc i) k l e h =
      ap (is_step m.key_type +◌) (count_steps-set ms i k l e h)

  count_steps-remove_key :
      (ks : List (CurveKey Output)) (i : ℕ) (k : CurveKey Output)
      → get_elem? ks i ≡ some k
      → count_steps ks ≡ is_step k.key_type + count_steps (remove_key o ks i)
  unfolding remove_key
  count_steps-remove_key [] i k e = cc
  count_steps-remove_key (m ∷ ms) zero k e =
      ap (λ n. is_step n.key_type + count_steps ms) (some-injective m k e)
  count_steps-remove_key (m ∷ ms) (suc i) k e = omega (arith, count_steps-remove_key ms i k e)

  count_steps-insert_key :
      (k : CurveKey Output) (ls : List (CurveKey Output))
      → count_steps (insert_key o k ls) ≡ is_step k.key_type + count_steps ls
  unfolding insert_key
  count_steps-insert_key k [] = refl
  count_steps-insert_key k (l ∷ ls) = elim (Bool-cases (ltb_ℤ l.input k.input)) [
    | inl t ↦ rw t (omega (arith, count_steps-insert_key k ls))
    | inr f ↦ rw f refl
  ]

  count_steps-sort_keys :
      (ks : List (CurveKey Output)) → count_steps (sort_keys o ks) ≡ count_steps ks
  unfolding sort_keys
  count_steps-sort_keys [] = refl
  count_steps-sort_keys (k ∷ ks) =
      count_steps-insert_key k (sort_keys o ks)
      ∙ ap (is_step k.key_type +◌) (count_steps-sort_keys ks)

  -- The curve counts its step keys, and `n` more.
  abbrev CountsBut : ℕ → Curve Output → Type 0
  CountsBut n c = c.num_step_keys +ℤ pos n ≡ pos (count_steps c.keys)

  abbrev pub CountsSteps : Curve Output → Type 0
  CountsSteps c = c.num_step_keys ≡ pos (count_steps c.keys)

  -- No more than there are keys.
  pub count_steps-le : (ks : List (CurveKey Output)) → count_steps ks ≤ length ks
  count_steps-le [] = omega arith
  count_steps-le (k ∷ ks) = let one = is_step_small k.key_type in omega (arith, count_steps-le ks)
    where
      is_step_small : (t : KeyType) → is_step t ≤ 1
      is_step_small step = omega arith
      is_step_small linear = omega arith
      is_step_small bezier = omega arith

  -- How often an edit destroys a step key that has been destroyed before.
  abbrev pub stale : Edit o → ℕ
  stale (create t) = 0
  stale (add_linear values) = 0
  stale (add_step values) = 0
  stale (add_bezier values) = 0
  stale (move k n) = 0
  stale (change k v) = 0
  stale (destroy (standing i)) = 0
  stale (destroy (gone k)) = is_step k.key_type
  stale update = 0

  abbrev pub stales : List (Edit o) → ℕ
  stales [] = 0
  stales (e ∷ es) = stale e + stales es

  step_more :
      (t : KeyType) (m : ℤ) (n k l : ℕ)
      → m +ℤ pos n ≡ pos k
      → l ≡ is_step t + k
      → ◌≡◌ {A = ℤ} (elim t [ step ↦ m +ℤ pos 1 | _ ↦ m ] +ℤ pos n) (pos l)
  unfolding ◌+ℤ◌
  step_more step m n k l h e = ground arith
  step_more linear m n k l h e = ground arith
  step_more bezier m n k l h e = ground arith

  step_less :
      (t : KeyType) (m : ℤ) (n k l : ℕ)
      → m +ℤ pos n ≡ pos k
      → k ≡ is_step t + l
      → ◌≡◌ {A = ℤ} (elim t [ step ↦ m -ℤ pos 1 | _ ↦ m ] +ℤ pos n) (pos l)
  unfolding ◌+ℤ◌ ◌-ℤ◌
  step_less step m n k l h e = ground arith
  step_less linear m n k l h e = ground arith
  step_less bezier m n k l h e = ground arith

  step_again :
      (t : KeyType) (m : ℤ) (n k : ℕ)
      → m +ℤ pos n ≡ pos k
      → ◌≡◌ {A = ℤ} (elim t [ step ↦ m -ℤ pos 1 | _ ↦ m ] +ℤ pos (is_step t + n)) (pos k)
  unfolding ◌+ℤ◌ ◌-ℤ◌
  step_again step m n k h = ground arith
  step_again linear m n k h = ground arith
  step_again bezier m n k h = ground arith

  none_stale_here : (n : ℕ) (c : Curve Output) → CountsBut n c → CountsBut (0 + n) c
  none_stale_here n c h = let same : n ≡ 0 + n = omega arith in subst (λ m. CountsBut m c) same h

  module _ (n : ℕ) where
    add_key-CountsBut :
        (k : CurveKey Output) (c : Curve Output) → CountsBut n c → CountsBut n (add_key o k c)
    unfolding add_key create_key
    add_key-CountsBut k c h =
        step_more k.key_type c.num_step_keys n (count_steps c.keys) (count_steps (c.keys ++ k ∷ []))
          h (omega (arith, count_steps-append c.keys (k ∷ [])))

    create_key-CountsBut :
        (t : KeyType) (c : Curve Output) → CountsBut n c → CountsBut n (create_key o t c)
    unfolding create_key
    create_key-CountsBut t c h =
        let k = new_key o t (pos 0) (of_ℤ (pos 0)) in
        step_more t c.num_step_keys n (count_steps c.keys) (count_steps (c.keys ++ k ∷ [])) h
          (omega (arith, count_steps-append c.keys (k ∷ [])))

    add_all-CountsBut :
        (ks : List (CurveKey Output)) (c : Curve Output)
        → CountsBut n c
        → CountsBut n (add_all o ks c)
    unfolding add_all
    add_all-CountsBut [] c h = h
    add_all-CountsBut (k ∷ ks) c h = add_all-CountsBut ks (add_key o k c) (add_key-CountsBut k c h)

    with_key-CountsBut :
        (found : Option (CurveKey Output)) (f : CurveKey Output → Curve Output) (c : Curve Output)
        → CountsBut n c
        → ((k : CurveKey Output) → found ≡ some k → CountsBut n (f k))
        → CountsBut n (with_key o found f c)
    unfolding with_key
    with_key-CountsBut none f c h keep = h
    with_key-CountsBut (some k) f c h keep = keep k refl

    set_input-CountsBut :
        (k : KeyRef o) (v : ℤ) (c : Curve Output) → CountsBut n c → CountsBut n (set_input o k v c)
    unfolding set_input invalidate_cache
    set_input-CountsBut (gone k) v c h = if-both (CountsBut n) (not (eqb_ℤ v k.input)) h h
    set_input-CountsBut (standing i) v c h = with_key-CountsBut (get_elem? c.keys i) _ c h (λ k e.
        if-both (CountsBut n) (not (eqb_ℤ v k.input))
          (h ∙ ap pos (sym (count_steps-set c.keys i k (record k { input = v }) e refl))) h)

    set_output-CountsBut :
        (k : KeyRef o) (v : Output) (c : Curve Output)
        → CountsBut n c
        → CountsBut n (set_output o k v c)
    unfolding set_output invalidate_cache
    set_output-CountsBut (gone k) v c h = if-both (CountsBut n) (not (same v k.output)) h h
    set_output-CountsBut (standing i) v c h = with_key-CountsBut (get_elem? c.keys i) _ c h (λ k e.
        if-both (CountsBut n) (not (same v k.output))
          (h ∙ ap pos (sym (count_steps-set c.keys i k (record k { output = v }) e refl))) h)

    destroy_key-CountsBut :
        (k : KeyRef o) (c : Curve Output)
        → CountsBut n c
        → CountsBut (stale (destroy k) + n) (destroy_key o k c)
    unfolding destroy_key invalidate_cache uncount_step
    destroy_key-CountsBut (gone k) c h =
        step_again k.key_type c.num_step_keys n (count_steps c.keys) h
    destroy_key-CountsBut (standing i) c h = none_stale_here n (destroy_key o (standing i) c) (
        with_key-CountsBut (get_elem? c.keys i) _ c h (λ k e.
          step_less k.key_type c.num_step_keys n (count_steps c.keys)
            (count_steps (remove_key o c.keys i)) h (count_steps-remove_key c.keys i k e)))

    resort-CountsBut : (c : Curve Output) → CountsBut n c → CountsBut n (resort o c)
    unfolding resort invalidate_cache
    resort-CountsBut c h =
        if-both (CountsBut n) c.sorted h (h ∙ ap pos (sym (count_steps-sort_keys c.keys)))

    update_curve_info-CountsBut :
        (c : Curve Output) → CountsBut n c → CountsBut n (update_curve_info o c)
    unfolding update_curve_info
    update_curve_info-CountsBut c h =
        if-both (CountsBut n) ((resort o c).check_discontinuity) (resort-CountsBut c h)
          (resort-CountsBut c h)

    apply-CountsBut :
        (e : Edit o) (c : Curve Output) → CountsBut n c → CountsBut (stale e + n) (apply o e c)
    unfolding apply add_linear_keys add_step_keys add_bezier_keys
    apply-CountsBut (create t) c h =
        none_stale_here n (apply o (create t) c) (create_key-CountsBut t c h)
    apply-CountsBut (add_linear values) c h =
        none_stale_here n (apply o (add_linear values) c)
          (add_all-CountsBut (pairs_to_keys o linear values) c h)
    apply-CountsBut (add_step values) c h =
        none_stale_here n (apply o (add_step values) c)
          (add_all-CountsBut (pairs_to_keys o step values) c h)
    apply-CountsBut (add_bezier values) c h =
        none_stale_here n (apply o (add_bezier values) c)
          (add_all-CountsBut (groups_to_keys o values) c h)
    apply-CountsBut (move k v) c h =
        none_stale_here n (apply o (move k v) c) (set_input-CountsBut k v c h)
    apply-CountsBut (change k v) c h =
        none_stale_here n (apply o (change k v) c) (set_output-CountsBut k v c h)
    apply-CountsBut (destroy k) c h = destroy_key-CountsBut k c h
    apply-CountsBut update c h =
        none_stale_here n (apply o update c) (update_curve_info-CountsBut c h)

  counts_exactly : (c : Curve Output) → CountsSteps c ↔ CountsBut 0 c
  unfolding ◌+ℤ◌
  counts_exactly c = (λ h. ground arith, λ h. ground arith)

  pub update_curve_info-CountsSteps :
      (c : Curve Output) → CountsSteps c → CountsSteps (update_curve_info o c)
  update_curve_info-CountsSteps c h =
      (counts_exactly (update_curve_info o c)).1
        (update_curve_info-CountsBut 0 c ((counts_exactly c).0 h))

  run-CountsBut :
      (es : List (Edit o)) (n : ℕ) (c : Curve Output)
      → CountsBut n c
      → CountsBut (stales es + n) (run o es c)
  unfolding run
  run-CountsBut [] n c h = none_stale_here n c h
  run-CountsBut (e ∷ es) n c h =
      let rest = run-CountsBut es (stale e + n) (apply o e c) (apply-CountsBut n e c h) in
      let same : stales es + (stale e + n) ≡ stale e + stales es + n = omega arith in
      ap (λ m. (run o es (apply o e c)).num_step_keys +ℤ pos m) (sym same) ∙ rest

  -- Any series of creations, additions, moves, changes and destructions of keys, also of keys that
  -- have been destroyed before, and of updates, on a curve that remembers the number of its step
  -- keys: afterwards the number that it remembers is the number of step keys that it has, less one
  -- for each time that a step key was destroyed which had been destroyed before. Where that does not
  -- happen, the number is right.
  pub run-CountsSteps :
      (es : List (Edit o)) (c : Curve Output)
      → CountsSteps c
      → ((run o es c).num_step_keys +ℤ pos (stales es) ≡ pos (count_steps (run o es c).keys))
        × (stales es ≡ 0 → CountsSteps (run o es c))
  run-CountsSteps es c h =
      let counted = run-CountsBut es 0 c ((counts_exactly c).0 h) in
      let same : stales es + 0 ≡ stales es = omega arith in
      (
        ap (λ m. (run o es c).num_step_keys +ℤ pos m) (sym same) ∙ counted,
        λ none_stale.
            (counts_exactly (run o es c)).1
              (ap (λ m. (run o es c).num_step_keys +ℤ pos (m + 0)) (sym none_stale) ∙ counted),
      )
