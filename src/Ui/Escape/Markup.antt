-- ===== src/Ui/Escape/Markup.antt =====
-- The tags of a rich text that an escaped text stands in.
use mathlib.Core.List.{flat_map}
use ricochet_irc.Prelude.{
  ℕ, ◌≡◌, refl, sym, ap, ◌∙◌, true, false, List, [], ◌∷◌, ◌++◌, if◌then◌else◌, ◌==◌, codes, arith,
  All, All-append,
}
use ricochet_irc.Ui.Escape.{Units, html_escaped, already_contact}
use ricochet_irc.Ui.Escape.OnePass.{entity, html_escaped-flat_map}

-- Reading tags: outside of any, or inside of one whose units so far are these.
pub data Place : Type 0 where
  outside : Place
  inside : Units → Place

-- The place behind the text, and the tags that were completed on the way.
unfoldable pub scan : Place → Units → Place × List Units
scan p [] = (p, [])
scan outside (x ∷ s) = scan (if x == b'<' then inside [] else outside) s
scan (inside tag) (x ∷ s) = elim (x == b'>') [
  | true ↦ let (p, tags) = scan outside s in (p, tag ∷ tags)
  | false ↦ scan (inside (tag ++ x ∷ [])) s
]

abbrev pub tags : Units → List Units
tags s = (scan outside s).1

abbrev pub ends_at : Units → Place
ends_at s = (scan outside s).0

scan-append :
    (p : Place) (s t : Units)
    → scan p (s ++ t) ≡ ((scan (scan p s).0 t).0, (scan p s).1 ++ (scan (scan p s).0 t).1)
unfolding scan
scan-append p [] t = refl
scan-append outside (x ∷ s) t = scan-append (if x == b'<' then inside [] else outside) s t
scan-append (inside tag) (x ∷ s) t =
    ground (arith, scan-append outside s t, scan-append (inside (tag ++ x ∷ [])) s t)

abbrev IsPlain : ℕ → Type 0
IsPlain x =
    ((x == b'<') ≡ false) × ((x == b'>') ≡ false) × ((x == b'"') ≡ false) × ((x == b'\'') ≡ false)

entity-IsPlain : (x : ℕ) → All IsPlain (entity x)
entity-IsPlain x = ground arith

flat_map-IsPlain : (s : Units) → All IsPlain (flat_map entity s)
unfolding flat_map
flat_map-IsPlain [] = tt
flat_map-IsPlain (x ∷ s) =
    All-append IsPlain (entity x) (flat_map entity s) (entity-IsPlain x) (flat_map-IsPlain s)

-- The escaped text has none of the units that begin or end a tag or a quoted value.
pub html_escaped-IsPlain : (s : Units) → All IsPlain (html_escaped s)
html_escaped-IsPlain s = rw (html_escaped-flat_map s) (flat_map-IsPlain s)

scan-IsPlain : (s : Units) → All IsPlain s → scan outside s ≡ (outside, [])
unfolding scan
scan-IsPlain [] h = refl
scan-IsPlain (x ∷ s) h = rw h.0.0 (scan-IsPlain s h.1)

scan-html_escaped :
    (name after : Units) → scan outside (html_escaped name ++ after) ≡ scan outside after
scan-html_escaped name after =
    scan-append outside (html_escaped name) after
    ∙ ap (λ r. ((scan r.0 after).0, r.1 ++ (scan r.0 after).1))
        (scan-IsPlain (html_escaped name) (html_escaped-IsPlain name))

scan-html_escaped_at :
    (p : Place) (name after : Units)
    → p ≡ outside
    → scan p (html_escaped name ++ after) ≡ scan p after
scan-html_escaped_at p name after h = rw h (scan-html_escaped name after)

-- An escaped name adds no tag to a rich text and takes none from it, wherever outside of a tag it
-- is put in.
pub tags-html_escaped :
    (before name after : Units)
    → ends_at before ≡ outside
    → tags (before ++ (html_escaped name ++ after)) ≡ tags (before ++ after)
tags-html_escaped before name after h =
    ap (λ (r : Place × List Units). r.1) (scan-append outside before (html_escaped name ++ after))
    ∙ ap (λ (r : Place × List Units). (scan outside before).1 ++ r.1)
        (scan-html_escaped_at (ends_at before) name after h)
    ∙ ap (λ (r : Place × List Units). r.1) (sym (scan-append outside before after))

-- The message on a contact's name is set in bold, and has no other tag, whatever the name.
pub tags-already_contact :
    (nickname : Units) → tags (already_contact nickname) ≡ codes "b" ∷ codes "/b" ∷ []
unfolding already_contact scan
tags-already_contact nickname =
    tags-html_escaped (codes "<b>") nickname (codes "</b> is already your contact") refl
