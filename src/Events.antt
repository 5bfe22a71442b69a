-- ===== src/Events.antt =====
-- scalajs/o3d/src/main/javascript/o3djs/event.js: the listeners of a plug-in object.
pub mod Wired
pub mod Listeners
mod Tests
use toolbox.Base.{
  ℕ, zero, suc, ◌+◌, ◌≡◌, Bool, true, false, not, ◌||◌, Option, none, some, List, [], ◌∷◌, ◌++◌,
  ◌==◌, if◌then◌else◌, length,
}
use toolbox.Base.Arrays.{remove_from_array}

-- A handler is a function or an object with a function `handleEvent`; what is neither is refused.
-- Equal numbers stand for the same object.
pub data Handler : Type 0 where
  function_handler event_listener no_handler : ℕ → Handler

abbrev pub handler_id : Handler → ℕ
handler_id (function_handler n) = n
handler_id (event_listener n) = n
handler_id (no_handler n) = n

abbrev pub is_handler : Handler → Bool
is_handler (function_handler n) = true
is_handler (event_listener n) = true
is_handler (no_handler n) = false

abbrev pub eqb_handler : Handler → Handler → Bool
eqb_handler h k = handler_id h == handler_id k

-- The registry of a plug-in object, by event type, its arrays of listeners by address, and for each
-- type the arrays that the callbacks of the client walk, which are the listeners of the DOM in the
-- order they were added.
pub record Plugin : Type 0 where
  pub registry : ℕ → Option ℕ
  pub listener_sets : ℕ → List Handler
  pub next_address : ℕ
  pub callbacks : ℕ → List ℕ

abbrev pub new_plugin : Plugin
new_plugin = record {
  registry = (λ t. none);
  listener_sets = (λ s. []);
  next_address = 0;
  callbacks = (λ t. []);
}

abbrev pub put {ℓ} : {A : Type ℓ} → (ℕ → A) → ℕ → A → ℕ → A
put f k v n = if n == k then v else f n

abbrev pub contains : List Handler → Handler → Bool
contains [] h = false
contains (k ∷ ks) h = eqb_handler k h || contains ks h

-- The loop of `removeEventListener` over the handlers.
abbrev pub remove_handler : List Handler → Handler → List Handler
remove_handler [] h = []
remove_handler (k ∷ ks) h = if eqb_handler k h then ks else k ∷ remove_handler ks h

-- `setEventCallback` of o3d-webgl/client.js: one more listener of the DOM, and none goes.
unfoldable pub set_event_callback : ℕ → ℕ → Plugin → Plugin
set_event_callback event_type address p = record p {
  callbacks = put p.callbacks event_type (p.callbacks event_type ++ address ∷ []);
}

-- `clearEventCallback` of o3d-webgl/client.js: it calls the DOM's `removeEventListener` with the type
-- alone, for which the DOM throws a TypeError. `none` is the error.
unfoldable pub clear_event_callback : ℕ → Plugin → Option Plugin
clear_event_callback event_type p = none

-- A new array for a type, with one handler, and the callback that walks it.
unfoldable pub open_set : ℕ → Handler → Plugin → Plugin
unfolding set_event_callback
open_set event_type handler p = set_event_callback event_type p.next_address (record p {
  registry = put p.registry event_type (some p.next_address);
  listener_sets = put p.listener_sets p.next_address (handler ∷ []);
  next_address = suc p.next_address;
})

unfoldable pub push_handler : ℕ → Handler → Plugin → Plugin
push_handler address handler p = record p {
  listener_sets = put p.listener_sets address (p.listener_sets address ++ handler ∷ []);
}

unfoldable pub add_to : Option ℕ → ℕ → Handler → Plugin → Plugin
unfolding open_set push_handler
add_to none event_type handler p = open_set event_type handler p
add_to (some address) event_type handler p =
    if length (p.listener_sets address) == 0
    then open_set event_type handler p
    else if contains (p.listener_sets address) handler
    then p
    else push_handler address handler p

-- `addEventListener`; `none` is the error that is thrown for no handler.
unfoldable pub add_event_listener : ℕ → Handler → Plugin → Option Plugin
unfolding add_to
add_event_listener event_type handler p =
    if is_handler handler then some (add_to (p.registry event_type) event_type handler p) else none

-- The splice out of an array.
abbrev pub splice : ℕ → Handler → Plugin → Plugin
splice address handler p = record p {
  listener_sets = put p.listener_sets address (remove_handler (p.listener_sets address) handler);
}

unfoldable pub remove_from : Option ℕ → ℕ → Handler → Plugin → Option Plugin
unfolding clear_event_callback
remove_from none event_type handler p = some p
remove_from (some address) event_type handler p =
    if contains (p.listener_sets address) handler
    then (elim (if length (p.listener_sets address) == 1
        then clear_event_callback event_type p
        else some p) [ none ↦ none | some cleared ↦ some (splice address handler cleared) ])
    else some p

-- `removeEventListener`; `none` is the error that is thrown.
unfoldable pub remove_event_listener : ℕ → Handler → Plugin → Option Plugin
unfolding remove_from
remove_event_listener event_type handler p =
    remove_from (p.registry event_type) event_type handler p

-- The handlers in an array, by its address.
abbrev pub read_set : (ℕ → List Handler) → Option ℕ → List Handler
read_set listener_sets none = []
read_set listener_sets (some address) = listener_sets address

-- The handlers in some arrays, one array after the other.
abbrev pub read_sets : (ℕ → List Handler) → List ℕ → List Handler
read_sets listener_sets [] = []
read_sets listener_sets (a ∷ rest) = listener_sets a ++ read_sets listener_sets rest

-- The handlers that the functions of `createEventHandler` call for an event of a type, in order, where
-- none of them changes the listeners of the type.
abbrev pub dispatched : ℕ → Plugin → List Handler
dispatched event_type p = read_sets p.listener_sets (p.callbacks event_type)
