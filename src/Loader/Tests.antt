-- ===== src/Loader/Tests.antt =====
-- A loader with two loads, and the theorem at its run.
use toolbox.Base.{◌≡◌, ◌<◌, refl, none, some, [], ◌∷◌, true}
use toolbox.Base.Int.{pos, ◌+ℤ◌, ◌-ℤ◌}
use toolbox.Loader.{
  texture, text_file, loaded, finished, count_down, finish, start_load, end_load, Load, Loading,
  starts, ends, closes, Run, begins, goes_on,
}
use toolbox.Loader.Runs.{waits, count_finished, EndsFinished, Run-finished}

abbrev picture : Load
picture = record { kind = texture; callback = none }

abbrev words : Load
words = record { kind = text_file; callback = some 5 }

abbrev at_end : Loading
at_end = record {
  state = record { count = pos 0; calls = finished ∷ loaded 5 ∷ [] };
  under_way = [];
  closed = true;
}

-- Both loads start, the text ends, `finish` is called, the texture ends.
at_end-Run : Run at_end
unfolding start_load finish end_load count_down ◌+ℤ◌ ◌-ℤ◌
at_end-Run =
    goes_on _ _
      (goes_on _ _
        (goes_on _ _
          (goes_on _ _ (goes_on _ _ begins (starts _ picture refl)) (starts _ words refl))
          (ends _ [] (picture ∷ []) words _ refl refl))
        (closes _ refl))
      (ends _ [] [] picture _ refl refl)

Run-finished_example :
    (at_end.state.count ≡ pos (waits at_end))
    × (0 < waits at_end → count_finished at_end.state.calls ≡ 0)
    × (waits at_end ≡ 0 → EndsFinished at_end.state.calls)
Run-finished_example = Run-finished at_end at_end-Run
