-- ===== src/Counter/Callbacks/Fired.antt =====
-- The two walks of `callCallbacks_` of o3d-webgl/counter.js over the list.
use toolbox.Base.{
  ℕ, ◌≡◌, refl, sym, ap, ◌∙◌, inl, inr, Bool, true, false, not, ◌&&◌, none, some, List, [], ◌∷◌,
  ◌++◌, arith, if◌then◌else◌, All, All-mono, All-append, All-reverse, All-select, Bool-cases,
  Option-cases, select, select-reverse, select-eq_self, select-eq_nil, length, length-reverse, ◌==◌,
}
use mathlib.Core.List.{reverse, reverse-cons}
use toolbox.Base.Int.{ℤ, ltb_ℤ, leb_ℤ, eqb_ℤ, ◌<ℤ◌, eq_of_eqb_ℤ}
use toolbox.Counter.Callbacks.{
  CallbackInfo, Callbacks, find_next, collect_next, find_prev, collect_prev, next_index, prev_index,
}
use toolbox.Counter.Callbacks.Sorted.{Above, IsSorted}

abbrev pub from : ℤ → CallbackInfo → Bool
from n c = leb_ℤ n c.count

abbrev pub after : ℤ → CallbackInfo → Bool
after n c = ltb_ℤ n c.count

abbrev pub upto : ℤ → CallbackInfo → Bool
upto n c = leb_ℤ c.count n

abbrev pub before : ℤ → CallbackInfo → Bool
before n c = ltb_ℤ c.count n

module _ (n : ℤ) where
  -- In a sorted list the callbacks before a count come first.
  pub split_before :
      (cs : List CallbackInfo) → IsSorted cs → cs ≡ select (before n) cs ++ select (from n) cs
  split_before [] h = refl
  split_before (c ∷ cs) h = elim (Bool-cases (ltb_ℤ c.count n)) [
    | inl lt ↦
        let out : leb_ℤ n c.count ≡ false = ground arith in
        rw (lt, out) (ap (c ∷◌) (split_before cs h.1))
    | inr ge ↦
        let none_before =
          select-eq_nil (before n) (c ∷ cs) (ge, All-mono cs (λ d k. ground arith) h.0) in
        let all_from =
          select-eq_self (from n) (c ∷ cs) (ground arith, All-mono cs (λ d k. ground arith) h.0) in
        rw (none_before, all_from) refl
  ]

  pub split_upto :
      (cs : List CallbackInfo) → IsSorted cs → cs ≡ select (upto n) cs ++ select (after n) cs
  split_upto [] h = refl
  split_upto (c ∷ cs) h = elim (Bool-cases (ltb_ℤ n c.count)) [
    | inr le ↦
        let keep : leb_ℤ c.count n ≡ true = ground arith in
        rw (le, keep) (ap (c ∷◌) (split_upto cs h.1))
    | inl gt ↦
        let none_upto =
          select-eq_nil (upto n) (c ∷ cs) (ground arith, All-mono cs (λ d k. ground arith) h.0) in
        let all_after =
          select-eq_self (after n) (c ∷ cs) (gt, All-mono cs (λ d k. ground arith) h.0) in
        rw (none_upto, all_after) refl
  ]

  find_next-length :
      (cs : List CallbackInfo) → IsSorted cs → find_next n cs ≡ length (select (before n) cs)
  unfolding find_next
  find_next-length [] h = refl
  find_next-length (c ∷ cs) h = elim (Bool-cases (ltb_ℤ c.count n)) [
    | inl lt ↦ rw (lt, find_next-length cs h.1)
    | inr ge ↦ rw (ge, select-eq_nil (before n) cs (All-mono cs (λ d k. ground arith) h.0))
  ]

  pub collect_next-select :
      (cs : List CallbackInfo) → IsSorted cs → collect_next n cs ≡ select (upto n) cs
  unfolding collect_next
  collect_next-select [] h = refl
  collect_next-select (c ∷ cs) h = elim (Bool-cases (ltb_ℤ n c.count)) [
    | inl lt ↦ rw lt (
        sym (select-eq_nil (upto n) (c ∷ cs) (ground arith, All-mono cs (λ d k. ground arith) h.0)))
    | inr ge ↦ rw ge (ground (arith, collect_next-select cs h.1))
  ]

-- The same of a list in falling order, which is what the walk backward sees.
abbrev pub Below : ℤ → List CallbackInfo → Type 0
Below n = All (λ c. c.count <ℤ n)

abbrev pub IsFalling : List CallbackInfo → Type 0
IsFalling [] = Unit
IsFalling (c ∷ cs) = Below c.count cs × IsFalling cs

IsFalling-snoc :
    (c : CallbackInfo) (cs : List CallbackInfo)
    → IsFalling cs
    → Above c.count cs
    → IsFalling (cs ++ c ∷ [])
IsFalling-snoc c [] f a = (tt, tt)
IsFalling-snoc c (d ∷ cs) f a =
    (All-append _ cs (c ∷ []) f.0 (a.0, tt), IsFalling-snoc c cs f.1 a.1)

pub IsSorted-reverse : (cs : List CallbackInfo) → IsSorted cs → IsFalling (reverse cs)
IsSorted-reverse [] h = tt
IsSorted-reverse (c ∷ cs) h =
    rw reverse-cons (IsFalling-snoc c (reverse cs) (IsSorted-reverse cs h.1) (All-reverse _ cs h.0))

pub IsSorted-select :
    (p : CallbackInfo → Bool) (cs : List CallbackInfo) → IsSorted cs → IsSorted (select p cs)
IsSorted-select p [] h = tt
IsSorted-select p (c ∷ cs) h = elim (Bool-cases (p c)) [
  | inl t ↦ rw t (All-select _ p cs h.0, IsSorted-select p cs h.1)
  | inr f ↦ rw f (IsSorted-select p cs h.1)
]

module _ (n : ℤ) where
  find_prev-length :
      (cs : List CallbackInfo) → IsFalling cs → find_prev n cs ≡ length (select (upto n) cs)
  unfolding find_prev
  find_prev-length [] h = refl
  find_prev-length (c ∷ cs) h = elim (Bool-cases (ltb_ℤ n c.count)) [
    | inl lt ↦
        let out : leb_ℤ c.count n ≡ false = ground arith in rw (lt, out) (find_prev-length cs h.1)
    | inr ge ↦
        let all = select-eq_self (upto n) cs (All-mono cs (λ d k. ground arith) h.0) in
        let keep : leb_ℤ c.count n ≡ true = ground arith in rw (ge, keep, all) refl
  ]

  pub collect_prev-select :
      (cs : List CallbackInfo) → IsFalling cs → collect_prev n cs ≡ select (from n) cs
  unfolding collect_prev
  collect_prev-select [] h = refl
  collect_prev-select (c ∷ cs) h = elim (Bool-cases (ltb_ℤ c.count n)) [
    | inl lt ↦ rw lt (
        sym (select-eq_nil (from n) (c ∷ cs) (ground arith, All-mono cs (λ d k. ground arith) h.0)))
    | inr ge ↦ rw ge (ground (arith, collect_prev-select cs h.1))
  ]

-- The list is sorted, and each remembered place counts the callbacks that the walk has passed.
pub record IsCached (c : Callbacks) : Type 0 where
  pub sorted : IsSorted c.callbacks
  pub next :
      (n : ℕ)
      → c.next_callback ≡ some n
      → n ≡ length (select (upto c.last_call_callbacks_end_count) c.callbacks)
  pub prev :
      (c.prev_callback == 0) ≡ false
      → c.prev_callback ≡ length (select (before c.last_call_callbacks_end_count) c.callbacks)

-- A walk goes on where the last one ended; otherwise it starts afresh.
abbrev pub resumes_forward : ℤ → Callbacks → Bool
resumes_forward s c = elim c.next_callback [
  | none ↦ false
  | some n ↦ eqb_ℤ s c.last_call_callbacks_end_count
]

abbrev pub resumes_backward : ℤ → Callbacks → Bool
resumes_backward s c = not (c.prev_callback == 0) && eqb_ℤ s c.last_call_callbacks_end_count

module _ {c : Callbacks} (v : IsCached c) (s : ℤ) where
  pub next_index-length : next_index s c ≡ (
      if resumes_forward s c
      then length (select (upto s) c.callbacks)
      else length (select (before s) c.callbacks))
  unfolding next_index
  next_index-length = elim (Option-cases c.next_callback) [
    | inl e ↦ rw e (find_next-length s c.callbacks v.sorted)
    | inr (n, e) ↦ rw e (elim (Bool-cases (eqb_ℤ s c.last_call_callbacks_end_count)) [
      | inl same ↦ rw same (
          v.next n e
          ∙ ap (λ (t : ℤ). length (select (upto t) c.callbacks)) (sym (eq_of_eqb_ℤ s _ same)))
      | inr other ↦ rw other (find_next-length s c.callbacks v.sorted)
    ])
  ]

  pub prev_index-length : prev_index s c ≡ (
      if resumes_backward s c
      then length (select (before s) c.callbacks)
      else length (select (upto s) c.callbacks))
  unfolding prev_index
  prev_index-length = elim (Bool-cases (c.prev_callback == 0)) [
    | inl e ↦ rw e afresh
    | inr e ↦ rw e (elim (Bool-cases (eqb_ℤ s c.last_call_callbacks_end_count)) [
      | inl same ↦ rw same (
          v.prev e
          ∙ ap (λ (t : ℤ). length (select (before t) c.callbacks)) (sym (eq_of_eqb_ℤ s _ same)))
      | inr other ↦ rw other afresh
    ])
  ]
    where
      afresh : find_prev s (reverse c.callbacks) ≡ length (select (upto s) c.callbacks)
      afresh =
          find_prev-length s (reverse c.callbacks) (IsSorted-reverse c.callbacks v.sorted)
          ∙ (rw (select-reverse, length-reverse) refl)
