-- ===== src/Tests/Scripts.antt =====
-- The scripts of the desktop application at concrete inputs (src/ricochet-refresh/ui).
use mathlib.Core.List.{flat_map}
use ricochet_irc.Prelude.{◌≡◌, refl, true, List, [], ◌∷◌, ◌++◌, none, some, codes}
use ricochet_irc.Ui.Escape.{Units, html_escaped, replace_all}
use ricochet_irc.Ui.Escape.OnePass.{entity, html_escaped-flat_map}
use ricochet_irc.Ui.Escape.Decoding.{decode, decode-html_escaped}
use ricochet_irc.Ui.Escape.Markup.{scan, tags, tags-html_escaped}
use ricochet_irc.Ui.Windows
use ricochet_irc.Ui.Windows.{
  User, Ui, Key, Event, completes, asks, closes, returned, type_error, key_of, get_window,
  window_exists, window_at, new_ui, run, step, run_handlers, emit_closed, open_window,
}
use ricochet_irc.Ui.Windows.Handlers.{creator}
use ricochet_irc.Ui.Windows.Sharing.{get_window-shared}
use ricochet_irc.Ui.Windows.Spec.{ArePossible, new_spec, spec_run, spec_step}
use ricochet_irc.Ui.Windows.Refinement.{windows_refine, get_window-made_for}

abbrev name : Units
name = codes "a<b>&\"'"

name_escaped : html_escaped name ≡ codes "a&lt;b&gt;&amp;&quot;&apos;"
unfolding html_escaped replace_all
name_escaped = refl

html_escaped-flat_map_example : html_escaped name ≡ flat_map entity name
html_escaped-flat_map_example = html_escaped-flat_map name

decode-html_escaped_example : decode (html_escaped name) ≡ name
decode-html_escaped_example = decode-html_escaped name

tags-html_escaped_example :
    tags (codes "<i>" ++ (html_escaped name ++ codes "</i>")) ≡ tags (codes "<i>" ++ codes "</i>")
unfolding scan
tags-html_escaped_example = tags-html_escaped (codes "<i>") name (codes "</i>") refl

abbrev carol : User
carol = record { contact_id = 1; unique_id = some 5 }

abbrev dave : User
dave = record { contact_id = 2; unique_id = some 6 }

-- Contacts of a class that has no property `uniqueID`.
abbrev erin : User
erin = record { contact_id = 3; unique_id = none }

abbrev frank : User
frank = record { contact_id = 4; unique_id = none }

abbrev ready_ui : Ui
ready_ui = record new_ui { create_window = Windows.dialog }

-- Before main.qml is complete there is no window to be had.
too_early : (get_window carol new_ui).1 ≡ type_error
unfolding get_window open_window
too_early = refl

erin_opens : get_window erin ready_ui ≡ ((get_window erin ready_ui).0, returned 0)
unfolding get_window open_window
erin_opens = refl

-- Frank is shown the window of Erin.
get_window-shared_example :
    (get_window frank (get_window erin ready_ui).0 ≡ ((get_window erin ready_ui).0, returned 0))
    × (window_exists frank (get_window erin ready_ui).0 ≡ true)
get_window-shared_example =
    get_window-shared erin frank ready_ui (get_window erin ready_ui).0 0 refl erin_opens

-- Carol's window is opened, closed and opened again, beside Dave's.
abbrev visits : List Event
visits = completes ∷ asks carol ∷ asks dave ∷ closes 0 ∷ asks carol ∷ []

visits_possible : ArePossible visits new_spec
unfolding spec_step
visits_possible = (tt, (tt, (tt, ((some 5, refl), (tt, tt)))))

windows_refine_example :
    window_at (some 5) (run visits new_ui).windows
    ≡ (spec_run visits new_spec).open_window_of (some 5)
windows_refine_example = windows_refine visits (some 5) visits_possible

visits_end : window_at (some 5) (run visits new_ui).windows ≡ some 2
unfolding run step get_window open_window emit_closed run_handlers
visits_end = refl

carol_again :
    get_window carol (run visits new_ui) ≡ ((get_window carol (run visits new_ui)).0, returned 2)
unfolding run step get_window open_window emit_closed run_handlers
carol_again = refl

get_window-made_for_example :
    (owner : User) × (creator 0 2 (get_window carol (run visits new_ui)).0.created ≡ some owner)
    × (key_of owner ≡ key_of carol)
get_window-made_for_example =
    get_window-made_for visits carol (get_window carol (run visits new_ui)).0 2 visits_possible
      carol_again
