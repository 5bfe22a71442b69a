-- ===== src/Events/Listeners.antt =====
-- `addEventListener` and `removeEventListener` of o3djs/event.js against lists of handlers.
use toolbox.Base.{
  ℕ, suc, ◌≡◌, ◌≢◌, refl, sym, ap, ◌∙◌, Bool, true, false, ◌&&◌, Option, none, some, List, [], ◌∷◌,
  ◌++◌, ◌==◌, if◌then◌else◌, length, arith, Bool-cases, Option-cases, inl, inr,
}
use toolbox.Events.{
  Handler, is_handler, eqb_handler, Plugin, put, contains, remove_handler, set_event_callback,
  clear_event_callback, open_set, push_handler, add_to, add_event_listener, remove_from,
  remove_event_listener, read_set, dispatched,
}
use toolbox.Events.Wired.{
  IsWired, put_self, put_other, set_in_use, set_new, open_set-IsWired, rewire, listeners,
  dispatched-listeners,
}

-- What adding once makes of a list.
abbrev pub added : Handler → List Handler → List Handler
added h hs = if contains hs h then hs else hs ++ h ∷ []

-- The plug-in object is wired again, with these handlers for a type and the old ones for the others.
pub record Changed (t : ℕ) (hs : List Handler) (p p' : Plugin) : Type 0 where
  pub wired : IsWired p'
  pub here : dispatched t p' ≡ hs
  pub others : (t' : ℕ) → t' ≢ t → dispatched t' p' ≡ dispatched t' p

changed :
    (t : ℕ) (hs : List Handler) (p p' : Plugin)
    → IsWired p
    → IsWired p'
    → listeners p' t ≡ hs
    → ((t' : ℕ) → t' ≢ t → listeners p' t' ≡ listeners p t')
    → Changed t hs p p'
changed t hs p p' w w' here others = record {
  wired = w';
  here = dispatched-listeners p' t w' ∙ here;
  others =
      (λ t' ne. dispatched-listeners p' t' w' ∙ others t' ne ∙ sym (dispatched-listeners p t' w));
}

-- Where each array that is read has not changed, the listeners have not.
same_listeners :
    (p : Plugin) (sets : ℕ → List Handler) (t : ℕ)
    → ((s : ℕ) → p.registry t ≡ some s → sets s ≡ p.listener_sets s)
    → read_set sets (p.registry t) ≡ listeners p t
same_listeners p sets t h = elim (Option-cases (p.registry t)) [
  | inl e ↦ ap (read_set sets) e ∙ ap (read_set p.listener_sets) (sym e)
  | inr (s, e) ↦ ap (read_set sets) e ∙ h s e ∙ ap (read_set p.listener_sets) (sym e)
]

module _ (t : ℕ) (p : Plugin) (w : IsWired p) where
  open_set-Changed : (h : Handler) → p.registry t ≡ none → Changed t (h ∷ []) p (open_set t h p)
  unfolding open_set set_event_callback
  open_set-Changed h fresh =
      changed t (h ∷ []) p (open_set t h p) w (open_set-IsWired t h p w fresh)
        (ap (read_set (put p.listener_sets p.next_address (h ∷ [])))
            (put_self p.registry t (some p.next_address))
          ∙ put_self p.listener_sets p.next_address (h ∷ []))
        (λ t' ne.
          ap (read_set (put p.listener_sets p.next_address (h ∷ [])))
            (put_other p.registry t (some p.next_address) t' ne)
          ∙ same_listeners p _ t' (λ s e. set_new p w (h ∷ []) t' s e))

  rewire-Changed :
      (s : ℕ) (hs : List Handler)
      → p.registry t ≡ some s
      → hs ≢ []
      → Changed t hs p (record p { listener_sets = put p.listener_sets s hs })
  rewire-Changed s hs e some_left =
      changed t hs p _ w (rewire t s hs p w e some_left)
        (ap (read_set (put p.listener_sets s hs)) e ∙ put_self p.listener_sets s hs)
        (λ t' ne.
          same_listeners p (put p.listener_sets s hs) t'
            (λ s' e'. set_in_use p w hs t s e t' s' ne e'))

  same-Changed : (hs : List Handler) → dispatched t p ≡ hs → Changed t hs p p
  same-Changed hs e = record { wired = w; here = e; others = (λ t' ne. refl) }

  dispatched-some : (s : ℕ) → p.registry t ≡ some s → dispatched t p ≡ p.listener_sets s
  dispatched-some s e = dispatched-listeners p t w ∙ ap (read_set p.listener_sets) e

  add_some-Changed :
      (s : ℕ) (h : Handler) (hs : List Handler)
      → p.registry t ≡ some s
      → p.listener_sets s ≡ hs
      → Changed t (added h hs) p (add_to (some s) t h p)
  unfolding add_to push_handler
  add_some-Changed s h [] e sets = absurd (w.full t s e sets)
  add_some-Changed s h (k ∷ ks) e sets =
      let more : (suc (length ks) == 0) ≡ false = ground arith in
      elim (Bool-cases (contains (k ∷ ks) h)) [
        | inl t' ↦ rw (sets, more, t') (same-Changed (k ∷ ks) (dispatched-some s e ∙ sets))
        | inr f' ↦ rw (sets, more, f') (rewire-Changed s (k ∷ ks ++ h ∷ []) e (λ empty. cc))
      ]

  add_to-Changed :
      (found : Option ℕ) (h : Handler)
      → p.registry t ≡ found
      → Changed t (added h (dispatched t p)) p (add_to found t h p)
  unfolding add_to
  add_to-Changed none h e =
      let empty : dispatched t p ≡ [] =
        dispatched-listeners p t w ∙ ap (read_set p.listener_sets) e in
      rw empty (open_set-Changed h e)
  add_to-Changed (some s) h e =
      rw (dispatched-some s e) (add_some-Changed s h (p.listener_sets s) e refl)

remove_absent : (hs : List Handler) (h : Handler) → contains hs h ≡ false → remove_handler hs h ≡ hs
remove_absent [] h e = refl
remove_absent (k ∷ ks) h e = ground (arith, remove_absent ks h)

-- The handler is the only one.
abbrev pub is_last : List Handler → Handler → Bool
is_last hs h = contains hs h && length hs == 1

remove_one :
    (hs : List Handler) (h : Handler) → is_last hs h ≡ false → hs ≢ [] → remove_handler hs h ≢ []
remove_one [] h e full = full
remove_one (k ∷ []) h e full = elim (Bool-cases (eqb_handler k h)) [
  | inl t ↦ absurd (ground arith)
  | inr t ↦ rw t (λ empty. cc)
]
remove_one (k ∷ l ∷ ls) h e full = elim (Bool-cases (eqb_handler k h)) [
  | inl t ↦ rw t (λ empty. cc)
  | inr t ↦ rw t (λ empty. cc)
]

-- What `removeEventListener` does, for a type with these handlers.
abbrev pub Removed : ℕ → Handler → Plugin → Option Plugin → Type 0
Removed t h p o =
    (is_last (dispatched t p) h ≡ true → o ≡ none)
    × (is_last (dispatched t p) h ≡ false
        → (p' : Plugin) × (o ≡ some p') × Changed t (remove_handler (dispatched t p) h) p p')

module _ (t : ℕ) (p : Plugin) (w : IsWired p) where
  remove_from-Removed :
      (found : Option ℕ) (h : Handler)
      → p.registry t ≡ found
      → Removed t h p (remove_from found t h p)
  unfolding remove_from clear_event_callback
  remove_from-Removed none h e =
      let empty : dispatched t p ≡ [] =
        dispatched-listeners p t w ∙ ap (read_set p.listener_sets) e in
      (
        λ last. let wrong : is_last [] h ≡ true = rw empty at last in cc,
        λ other. (p, refl, same-Changed t p w (remove_handler (dispatched t p) h) (rw empty refl)),
      )
  remove_from-Removed (some s) h e =
      let here = dispatched-some t p w s e in
      rw here (elim (Bool-cases (contains (p.listener_sets s) h)) [
        | inl t' ↦ elim (Bool-cases (length (p.listener_sets s) == 1)) [
          | inl one ↦ rw (t', one) (λ last. refl, λ other. cc)
          | inr many ↦
              rw (t', many)
                (
                  λ last. cc,
                  λ other. (
                    _,
                    refl,
                    rewire-Changed t p w s (remove_handler (p.listener_sets s) h) e
                        (remove_one (p.listener_sets s) h (ground arith) (w.full t s e)),
                  ),
                )
        ]
        | inr f' ↦ rw f' (
          λ last. cc,
          λ other. (
            p,
            refl,
            same-Changed t p w (remove_handler (p.listener_sets s) h)
                (here ∙ sym (remove_absent (p.listener_sets s) h f')),
          ),
        )
      ])

-- Where every type that is registered has an array of its own with handlers in it, which its one
-- callback walks, `addEventListener` refuses what is no handler; otherwise afterwards an event of the type calls the
-- handlers that it called before, and the new one last if it was not among them. Events of other
-- types call what they called, and the arrays stay apart.
pub add_event_listener-Changed :
    (t : ℕ) (h : Handler) (p : Plugin)
    → IsWired p
    → (is_handler h ≡ false → add_event_listener t h p ≡ none)
      × (is_handler h ≡ true
          → (p' : Plugin) × (add_event_listener t h p ≡ some p')
            × Changed t (added h (dispatched t p)) p p')
unfolding add_event_listener
add_event_listener-Changed t h p w = (
  λ refused. rw refused refl,
  λ accepted.
      (add_to (p.registry t) t h p, rw accepted refl, add_to-Changed t p w (p.registry t) h refl),
)

-- Where every type that is registered has an array of its own with handlers in it, which its one
-- callback walks, `removeEventListener` throws when the handler is the only one of its type: the
-- client's `clearEventCallback`, which it calls before the handler is taken out, throws. Otherwise an event of the type calls afterwards the handlers that it called before, less
-- the first that is the one to remove. Events of other types call what they called, and the arrays
-- stay apart.
pub remove_event_listener-Changed :
    (t : ℕ) (h : Handler) (p : Plugin)
    → IsWired p
    → (is_last (dispatched t p) h ≡ true → remove_event_listener t h p ≡ none)
      × (is_last (dispatched t p) h ≡ false
          → (p' : Plugin) × (remove_event_listener t h p ≡ some p')
            × Changed t (remove_handler (dispatched t p) h) p p')
unfolding remove_event_listener
remove_event_listener-Changed t h p w = remove_from-Removed t p w (p.registry t) h refl
