-- ===== src/Loader.antt =====
-- scalajs/o3d/src/main/javascript/o3djs/loader.js: a loader counts what is under way and calls
-- `onFinished` behind the last of it. The loading itself, of o3djs/io.js and o3djs/scene.js, is taken
-- as steps that call back once for each load.
pub mod Runs
mod Tests
use toolbox.Base.{
  ℕ, zero, suc, ◌+◌, ◌≡◌, Bool, true, false, ◌||◌, Option, none, some, List, [], ◌∷◌, ◌++◌, ◌==◌,
  if◌then◌else◌,
}
use toolbox.Base.Int.{ℤ, pos, ◌+ℤ◌, ◌-ℤ◌, eqb_ℤ}
use toolbox.Base.Arrays.{remove_from_array}

-- The functions that start a load, each with its callback. `loadTexture` and `loadScene` do without.
pub data LoadKind : Type 0 where
  texture raw_data bitmaps scene text_file loader : LoadKind

abbrev pub is_optional : LoadKind → Bool
is_optional texture = true
is_optional scene = true
is_optional raw_data = false
is_optional bitmaps = false
is_optional text_file = false
is_optional loader = false

-- The calls of the user's functions: the callback of a load, and `onFinished`.
pub data Call : Type 0 where
  loaded : ℕ → Call
  finished : Call

-- `calls` has the calls so far, the last one first.
pub record Loader : Type 0 where
  pub count : ℤ
  pub calls : List Call

abbrev pub new_loader : Loader
new_loader = record { count = pos 1; calls = [] }

unfoldable pub count_down : Loader → Loader
count_down l =
    let count = l.count -ℤ pos 1 in
    record { count = count; calls = (if eqb_ℤ count (pos 0) then finished ∷ l.calls else l.calls) }

unfoldable pub finish : Loader → Loader
unfolding count_down
finish l = count_down l

-- The start of a load of any kind.
unfoldable pub start_load : Loader → Loader
start_load l = record l { count = l.count +ℤ pos 1 }

-- Its end: the callback, if there is one, and then the count. `none` is a call of no function, which
-- throws before the count.
unfoldable pub end_load : LoadKind → Option ℕ → Loader → Option Loader
unfolding count_down
end_load kind none l = if is_optional kind then some (count_down l) else none
end_load kind (some callback) l = some (count_down (record l { calls = loaded callback ∷ l.calls }))

-- A load under way.
pub record Load : Type 0 where
  pub kind : LoadKind
  pub callback : Option ℕ

-- A loader with its loads under way, and whether `finish` was called.
pub record Loading : Type 0 where
  pub state : Loader
  pub under_way : List Load
  pub closed : Bool

abbrev pub new_loading : Loading
new_loading = record { state = new_loader; under_way = []; closed = false }

-- What may happen: a load starts while something is left to wait for; a load ends, whichever; `finish`
-- is called, once.
pub data Step : Loading → Loading → Type 0 where
  starts :
      (l : Loading) (load : Load)
      → eqb_ℤ l.state.count (pos 0) ≡ false
      → Step l (record l { state = start_load l.state; under_way = load ∷ l.under_way })
  ends :
      (l : Loading) (before after : List Load) (load : Load) (state : Loader)
      → l.under_way ≡ before ++ load ∷ after
      → end_load load.kind load.callback l.state ≡ some state
      → Step l (record l { state = state; under_way = before ++ after })
  closes :
      (l : Loading) → l.closed ≡ false → Step l (record l { state = finish l.state; closed = true })

pub data Run : Loading → Type 0 where
  begins : Run new_loading
  goes_on : (l l' : Loading) → Run l → Step l l' → Run l'
