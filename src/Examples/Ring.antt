-- ===== src/Examples/Ring.antt =====
-- Rings of a few nodes.
use dlna.Prelude.{ℕ, ◌≡◌, ◌≢◌, refl, true, false, some, List, [], ◌∷◌, arith}
use dlna.Ring.{Store, write, cg_list_header_init, cg_list_size, cg_list_get, cg_list_clear}
use dlna.Ring.Change.{IsRing}
use dlna.Ring.Walk.{get_or_null, clear-IsRing}
use dlna.Ring.Refine.{Op, add, remove, perform_all, perform_all-change_all}

-- memory before any list is made
abbrev blank : Store
blank p = record { head_flag = false; prev = 0; next = 0 }

-- A destructor that overwrites the node it releases.
abbrev scribble : Store → ℕ → Store
scribble s y = write s y (record { head_flag = true; prev = 0; next = 0 })

abbrev header : ℕ
header = 10

abbrev some_ops : List Op
some_ops = add 20 ∷ add 30 ∷ add 40 ∷ remove 30 ∷ add 30 ∷ remove 20 ∷ []

scribble-frame : (s : Store) (y q : ℕ) → q ≢ y → scribble s y q ≡ s q
scribble-frame s y q ne = ground arith

header-nonzero : header ≢ 0
header-nonzero e = absurd (omega arith)

perform_all-change_all_example :
    IsRing (perform_all header some_ops (cg_list_header_init blank header)) header (40 ∷ 30 ∷ [])
    × (cg_list_size 3 (perform_all header some_ops (cg_list_header_init blank header)) header
        ≡ some 2)
    × ((i : ℕ)
        → cg_list_get (perform_all header some_ops (cg_list_header_init blank header)) header i
          ≡ get_or_null (40 ∷ 30 ∷ []) i)
perform_all-change_all_example = perform_all-change_all blank header some_ops header-nonzero refl

clear-IsRing_example :
    (t : Store) × (cg_list_clear 3 scribble
        (perform_all header some_ops (cg_list_header_init blank header))
        header
      ≡ some t)
    × IsRing t header []
clear-IsRing_example =
    clear-IsRing scribble header scribble-frame 3
      (perform_all header some_ops (cg_list_header_init blank header)) (40 ∷ 30 ∷ [])
      perform_all-change_all_example.0 (omega arith)
