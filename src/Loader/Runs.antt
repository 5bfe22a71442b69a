-- ===== src/Loader/Runs.antt =====
-- Runs of a loader of o3djs/loader.js.
use toolbox.Base.{
  ℕ, zero, suc, ◌+◌, ◌<◌, ◌≡◌, refl, sym, ap, ◌∙◌, Bool, true, false, Option, none, some, List, [],
  ◌∷◌, ◌++◌, arith, if◌then◌else◌, length, length-append, Bool-cases, inl, inr,
}
use mathlib.Core.Option.{some-injective}
use native.Mathlib.Nat.{suc-add}
use toolbox.Base.Int.{ℤ, pos, pos_part, neg_part, ◌-ℤ◌, eqb_ℤ, int_laws, eq_of_parts}
use toolbox.Loader.{
  LoadKind, is_optional, Call, loaded, finished, Loader, count_down, finish, start_load, end_load,
  Load, Loading, Step, starts, ends, closes, Run, begins, goes_on,
}

-- How often `onFinished` was called.
abbrev pub count_finished : List Call → ℕ
count_finished [] = 0
count_finished (loaded n ∷ cs) = count_finished cs
count_finished (finished ∷ cs) = suc (count_finished cs)

-- `onFinished` is the last call.
abbrev pub EndsFinished : List Call → Type 0
EndsFinished [] = ⊥
EndsFinished (loaded n ∷ cs) = ⊥
EndsFinished (finished ∷ cs) = count_finished cs ≡ 0

abbrev open_call : Bool → ℕ
open_call true = 0
open_call false = 1

-- What is waited for: the loads under way, and the call of `finish`.
abbrev pub waits : Loading → ℕ
waits l = length l.under_way + open_call l.closed

-- While something is waited for `onFinished` was not called; then it was, once, at the end.
abbrev Told : ℕ → List Call → Type 0
Told zero calls = EndsFinished calls
Told (suc n) calls = count_finished calls ≡ 0

record Counts (l : Loading) : Type 0 where
  count : l.state.count ≡ pos (waits l)
  told : Told (waits l) l.state.calls

-- One countdown from a number that is not 0.
count_down-Told :
    (n : ℕ) (count : ℤ) (calls : List Call)
    → count ≡ pos (suc n)
    → count_finished calls ≡ 0
    → ((count_down (record { count = count; calls = calls })).count ≡ pos n)
      × Told n (count_down (record { count = count; calls = calls })).calls
unfolding count_down
count_down-Told n count calls e h =
    let down : count -ℤ pos 1 ≡ pos n =
      eq_of_parts _ _ (omega (int_laws, ap pos_part e, ap neg_part e)) in
    rw down (refl, told n)
  where
    told : (n : ℕ) → Told n (if eqb_ℤ (pos n) (pos 0) then finished ∷ calls else calls)
    told zero = h
    told (suc n) = let more : eqb_ℤ (pos (suc n)) (pos 0) ≡ false = ground arith in rw more h

end_load-Told :
    (n : ℕ) (kind : LoadKind) (callback : Option ℕ) (l l' : Loader)
    → l.count ≡ pos (suc n)
    → count_finished l.calls ≡ 0
    → end_load kind callback l ≡ some l'
    → (l'.count ≡ pos n) × Told n l'.calls
unfolding end_load
end_load-Told n kind (some callback) l l' e h e' =
    rw⁻¹ (some-injective _ l' e') (count_down-Told n l.count (loaded callback ∷ l.calls) e h)
end_load-Told n kind none l l' e h e' = elim (Bool-cases (is_optional kind)) [
  | inl t ↦
      let same : count_down l ≡ l' =
        some-injective (count_down l) l'
          (sym (ap (λ b. if b then some (count_down l) else none) t) ∙ e') in
      rw⁻¹ same (count_down-Told n l.count l.calls e h)
  | inr f ↦
      let wrong : none ≡ some l' = sym (ap (λ b. if b then some (count_down l) else none) f) ∙ e' in
      cc
]

-- Something is waited for, so `onFinished` was not called.
Told-waiting : (l : Loading) (n : ℕ) → Counts l → waits l ≡ suc n → count_finished l.state.calls ≡ 0
Told-waiting l n c e = rw e at c.told

start-Counts :
    (l : Loading) (load : Load)
    → Counts l
    → eqb_ℤ l.state.count (pos 0) ≡ false
    → (n : ℕ) → waits l ≡ n
    → Counts (record l { state = start_load l.state; under_way = load ∷ l.under_way })
unfolding start_load
start-Counts l load c waiting zero e =
    let done : eqb_ℤ l.state.count (pos 0) ≡ true =
      ap (λ k. eqb_ℤ k (pos 0)) (c.count ∙ ap pos e) in
    cc
start-Counts l load c waiting (suc n) e = record {
  count = eq_of_parts _ _ (omega (int_laws, ap pos_part c.count, ap neg_part c.count));
  told = rw (suc-add (length l.under_way) (open_call l.closed)) (Told-waiting l n c e);
}

close-Counts :
    (l : Loading)
    → Counts l
    → l.closed ≡ false
    → Counts (record l { state = finish l.state; closed = true })
unfolding finish
close-Counts l c still_open =
    let one_more : waits l ≡ suc (length l.under_way + 0) =
      omega (arith, ap open_call still_open) in
    let (count, told) =
      count_down-Told (length l.under_way + 0) l.state.count l.state.calls
        (c.count ∙ ap pos one_more) (Told-waiting l _ c one_more) in
    record { count = count; told = told }

Step-Counts : (l l' : Loading) → Step l l' → Counts l → Counts l'
Step-Counts l l' (starts m load waiting) c = start-Counts m load c waiting (waits m) refl
Step-Counts l l' (ends m before after load state at_load ended) c =
    let one_more : waits m ≡ suc (length (before ++ after) + open_call m.closed) =
      omega (
        arith,
        ap length at_load,
        length-append before (load ∷ after),
        length-append before after,
      ) in
    let (count, told) =
      end_load-Told (length (before ++ after) + open_call m.closed) load.kind load.callback m.state
        state (c.count ∙ ap pos one_more) (Told-waiting m _ c one_more) ended in
    record { count = count; told = told }
Step-Counts l l' (closes m still_open) c = close-Counts m c still_open

Run-Counts : (l : Loading) → Run l → Counts l
Run-Counts l begins = record { count = refl; told = refl }
Run-Counts l (goes_on m m' r s) = Step-Counts m m' s (Run-Counts m r)

-- In every run, in which loads start only while the loader waits for something, each load ends once
-- at most and `finish` is called once at most: `onFinished` was not called as long as a load is under
-- way or `finish` was not called; as soon as all loads have ended and `finish` was called, it was
-- called once, and no other function of the user after it. The count is the number of what is waited
-- for.
pub Run-finished :
    (l : Loading)
    → Run l
    → (l.state.count ≡ pos (waits l))
      × (0 < waits l → count_finished l.state.calls ≡ 0)
      × (waits l ≡ 0 → EndsFinished l.state.calls)
Run-finished l r =
    let c = Run-Counts l r in
    (c.count, (λ h. waiting (waits l) l.state.calls h c.told), λ e. rw e at c.told)
  where
    waiting : (n : ℕ) (calls : List Call) → 0 < n → Told n calls → count_finished calls ≡ 0
    waiting zero calls h told = absurd (omega arith)
    waiting (suc n) calls h told = told
