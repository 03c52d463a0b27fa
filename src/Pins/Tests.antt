-- ===== src/Pins/Tests.antt =====
-- The theorems on pinned buckets at concrete states.
use light_oss.Base.{number_key, ◌≡◌, refl, [], ◌∷◌, arith}
use light_oss.Base.Text.{codes}
use light_oss.Base.JsSet.{has}
use light_oss.Pins.Storage.{IsId}
use light_oss.Pins.{storage_key_of, render, update_pins, toggled}
use light_oss.Pins.Reading.{IsPins}
use light_oss.Pins.Updates.{IsCoherent, update_pins_lem, updated_ids}
use light_oss.Pins.Services.{
  toggle, drop, reconcile, Visits, visit_all, Pinned, visit_all_spec, last_key, Implements,
}
use light_oss.Pins.Refinement.{visit_all-Implements}
use light_oss.Pins.Unary.{unary, home, pinned, pinned-IsCoherent, any_read}

seven-IsId : IsId 7
seven-IsId = ground arith

seven_pinned : IsPins (toggled 7 (3 ∷ 5 ∷ []))
seven_pinned = ground arith

update_pins_lem_example :
    ((update_pins unary home (toggled 7) pinned).state.ids
      ≡ updated_ids unary home (toggled 7) pinned)
    × IsCoherent unary home (update_pins unary home (toggled 7) pinned)
update_pins_lem_example =
    update_pins_lem unary home (toggled 7) pinned pinned-IsCoherent seven_pinned

-- The same pins under each key.
abbrev everywhere : Pinned
everywhere = λ key j. has j (3 ∷ 5 ∷ [])

pinned-Implements : Implements unary home pinned everywhere
pinned-Implements = record {
  coherent = pinned-IsCoherent;
  writable = refl;
  stored = λ key. (3 ∷ 5 ∷ [], any_read key, λ j. refl);
}

-- A toggle for one service, then two commands for another one.
abbrev three_visits : Visits
three_visits =
    (codes "http://b/", toggle 7)
    ∷ (codes "http://a", drop 3)
    ∷ (codes "http://a", reconcile (5 ∷ []))
    ∷ []

visit_all-Implements_example :
    Implements unary
      (last_key home three_visits)
      (visit_all unary three_visits pinned)
      (visit_all_spec three_visits everywhere)
    × Implements unary
        (storage_key_of (codes "http://b/"))
        (render unary (codes "http://b/") (visit_all unary three_visits pinned))
        (visit_all_spec three_visits everywhere)
visit_all-Implements_example =
    visit_all-Implements unary three_visits home (codes "http://b/") pinned everywhere
      (seven-IsId, (tt, (tt, tt))) pinned-Implements
