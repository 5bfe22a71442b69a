-- ===== src/Events/Wired.antt =====
-- The arrays of listeners that the registry and the callbacks of o3djs/event.js share.
use toolbox.Base.{
  ℕ, ◌<◌, ◌≡◌, ◌≢◌, refl, sym, ap, ◌∙◌, none, some, List, [], ◌∷◌, ◌++◌, ◌==◌, arith, Bool-cases,
  Option-cases, inl, inr, ◌⊎◌,
}
use mathlib.Core.Option.{some-injective}
use mathlib.Core.List.{append-nil}
use toolbox.Events.{
  Handler, Plugin, put, set_event_callback, open_set, read_set, read_sets, dispatched,
}

-- Each type that is registered has an array of its own, which is not empty, and one callback, which
-- walks it; the other types have none.
pub record IsWired (p : Plugin) : Type 0 where
  pub in_use : (t s : ℕ) → p.registry t ≡ some s → s < p.next_address
  pub own : (t t' s : ℕ) → p.registry t ≡ some s → p.registry t' ≡ some s → t ≡ t'
  pub called : (t s : ℕ) → p.registry t ≡ some s → p.callbacks t ≡ s ∷ []
  pub full : (t s : ℕ) → p.registry t ≡ some s → p.listener_sets s ≢ []
  pub silent : (t : ℕ) → p.registry t ≡ none → p.callbacks t ≡ []

put_cases {ℓ} :
    {A : Type ℓ} (f : ℕ → A) (k : ℕ) (v : A) (n : ℕ)
    → ((n ≡ k) × (put f k v n ≡ v)) ⊎ ((n ≢ k) × (put f k v n ≡ f n))
put_cases f k v n = elim (Bool-cases (n == k)) [
  | inl t ↦ inl (ground arith, rw t refl)
  | inr e ↦ inr (ground arith, rw e refl)
]

pub put_other {ℓ} : {A : Type ℓ} (f : ℕ → A) (k : ℕ) (v : A) (n : ℕ) → n ≢ k → put f k v n ≡ f n
put_other f k v n h = elim (put_cases f k v n) [
  | inl (same, e) ↦ absurd (h same)
  | inr (other, e) ↦ e
]

pub put_self {ℓ} : {A : Type ℓ} (f : ℕ → A) (k : ℕ) (v : A) → put f k v k ≡ v
put_self f k v = elim (put_cases f k v k) [
  | inl (same, e) ↦ e
  | inr (other, e) ↦ absurd (other refl)
]

-- The handlers that are registered for a type.
abbrev pub listeners : Plugin → ℕ → List Handler
listeners p t = read_set p.listener_sets (p.registry t)

-- What an event of a type calls is what is registered for it.
pub dispatched-listeners : (p : Plugin) (t : ℕ) → IsWired p → dispatched t p ≡ listeners p t
dispatched-listeners p t w = elim (Option-cases (p.registry t)) [
  | inl e ↦ ap (read_sets p.listener_sets) (w.silent t e) ∙ ap (read_set p.listener_sets) (sym e)
  | inr (s, e) ↦
      ap (read_sets p.listener_sets) (w.called t s e)
      ∙ append-nil (p.listener_sets s)
      ∙ ap (read_set p.listener_sets) (sym e)
]

-- A write to an array in use changes the listeners of its type only, one to a new array none.
module _ (p : Plugin) (w : IsWired p) (hs : List Handler) where
  pub set_in_use :
      (t s : ℕ)
      → p.registry t ≡ some s
      → (t' s' : ℕ) → t' ≢ t
      → p.registry t' ≡ some s'
      → put p.listener_sets s hs s' ≡ p.listener_sets s'
  set_in_use t s e t' s' ne e' =
      put_other p.listener_sets s hs s' (λ same. ne (w.own t' t s' e' (e ∙ ap some (sym same))))

  pub set_new :
      (t s : ℕ)
      → p.registry t ≡ some s
      → put p.listener_sets p.next_address hs s ≡ p.listener_sets s
  set_new t s e =
      put_other p.listener_sets p.next_address hs s (λ same. omega (arith, w.in_use t s e))

-- A first handler for a type that is not registered.
pub open_set-IsWired :
    (t : ℕ) (h : Handler) (p : Plugin) → IsWired p → p.registry t ≡ none → IsWired (open_set t h p)
unfolding open_set set_event_callback
open_set-IsWired t h p w fresh = record {
  in_use = (λ t' s e. elim (put_cases p.registry t (some p.next_address) t') [
    | inl (same, e') ↦ omega (arith, some-injective p.next_address s (sym e' ∙ e))
    | inr (other, e') ↦ omega (arith, w.in_use t' s (sym e' ∙ e))
  ]);
  own = (λ t' t'' s e f. elim (put_cases p.registry t (some p.next_address) t') [
    | inl (same, e') ↦ elim (put_cases p.registry t (some p.next_address) t'') [
      | inl (same', f') ↦ same ∙ sym same'
      | inr (other', f') ↦
          absurd (
            omega
              (arith, some-injective p.next_address s (sym e' ∙ e), w.in_use t'' s (sym f' ∙ f)))
    ]
    | inr (other, e') ↦ elim (put_cases p.registry t (some p.next_address) t'') [
      | inl (same', f') ↦
          absurd (
            omega (arith, some-injective p.next_address s (sym f' ∙ f), w.in_use t' s (sym e' ∙ e)))
      | inr (other', f') ↦ w.own t' t'' s (sym e' ∙ e) (sym f' ∙ f)
    ]
  ]);
  called = (λ t' s e. elim (put_cases p.registry t (some p.next_address) t') [
    | inl (same, e') ↦
        let here : p.next_address ≡ s = some-injective p.next_address s (sym e' ∙ e) in
        ap (put p.callbacks t (p.callbacks t ++ p.next_address ∷ [])) same
        ∙ put_self p.callbacks t (p.callbacks t ++ p.next_address ∷ [])
        ∙ ap (λ l. l ++ p.next_address ∷ []) (w.silent t fresh)
        ∙ ap (λ n. n ∷ []) here
    | inr (other, e') ↦
        put_other p.callbacks t (p.callbacks t ++ p.next_address ∷ []) t' other
        ∙ w.called t' s (sym e' ∙ e)
  ]);
  full = (λ t' s e. elim (put_cases p.registry t (some p.next_address) t') [
    | inl (same, e') ↦
        let here : p.next_address ≡ s = some-injective p.next_address s (sym e' ∙ e) in
        let one =
          ap (put p.listener_sets p.next_address (h ∷ [])) (sym here)
          ∙ put_self p.listener_sets p.next_address (h ∷ []) in
        λ empty. let wrong : h ∷ [] ≡ [] = sym one ∙ empty in cc
    | inr (other, e') ↦
        λ empty. w.full t' s (sym e' ∙ e) (sym (set_new p w (h ∷ []) t' s (sym e' ∙ e)) ∙ empty)
  ]);
  silent = (λ t' e. elim (put_cases p.registry t (some p.next_address) t') [
    | inl (same, e') ↦ cc
    | inr (other, e') ↦
        put_other p.callbacks t (p.callbacks t ++ p.next_address ∷ []) t' other
        ∙ w.silent t' (sym e' ∙ e)
  ]);
}

-- A change of one array that leaves handlers in it.
pub rewire :
    (t s : ℕ) (hs : List Handler) (p : Plugin)
    → IsWired p
    → p.registry t ≡ some s
    → hs ≢ []
    → IsWired (record p { listener_sets = put p.listener_sets s hs })
rewire t s hs p w e some_left = record {
  in_use = w.in_use;
  own = w.own;
  called = w.called;
  full = (λ t' s' e'. elim (put_cases p.listener_sets s hs s') [
    | inl (same, u) ↦ λ empty.
        some_left (sym (ap (put p.listener_sets s hs) same ∙ put_self p.listener_sets s hs) ∙ empty)
    | inr (other, u) ↦ λ empty. w.full t' s' e' (sym u ∙ empty)
  ]);
  silent = w.silent;
}
