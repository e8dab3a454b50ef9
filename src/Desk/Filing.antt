-- ===== src/Desk/Filing.antt =====
-- The writes of crates/korg-core/src/repo/work_items.rs and areas.rs as one series, and the areas that
-- work items are filed under.
use korg.Base.{ℕ, String, Option, none, Bool, ◌≡◌}
use korg.Desk.Tables.{Desk, done, area_project}
use korg.Desk.Postgres.{Postgres}
use korg.Desk.WorkItems.Written.{Write}
use korg.Desk.WorkItems.Areas.{AreasFit, Write-AreasFit}
use korg.Desk.AreaEdits.{create_area, update_area, delete_area}
use korg.Desk.AreaEdits.Fits.{create_area-AreasFit, update_area-AreasFit, delete_area-AreasFit}

-- A new area gets an id that no area has.
pub data AreaWrite (d d' : Desk) : Type 0 where
  area_created :
      (fresh id : ℕ) (project name : String)
      → area_project d fresh ≡ none
      → create_area fresh project name d ≡ done (d', id)
      → AreaWrite d d'
  area_updated :
      (project name : String) (new_name : Option String)
      → update_area project name new_name d ≡ done d'
      → AreaWrite d d'
  area_deleted :
      (project name : String) (found : Bool)
      → delete_area project name d ≡ done (d', found)
      → AreaWrite d d'

pub data Writes (db : Postgres) (d : Desk) : Desk → Type 0 where
  untouched : Writes db d d
  then_write : {d' d'' : Desk} → Writes db d d' → Write db d' d'' → Writes db d d''
  then_area : {d' d'' : Desk} → Writes db d d' → AreaWrite d' d'' → Writes db d d''

AreaWrite-AreasFit : (d d' : Desk) → AreaWrite d d' → AreasFit d → AreasFit d'
AreaWrite-AreasFit d d' (area_created fresh id project name unused h) a =
    create_area-AreasFit fresh project name d (d', id) unused a h
AreaWrite-AreasFit d d' (area_updated project name new_name h) a =
    update_area-AreasFit project name new_name d d' a h
AreaWrite-AreasFit d d' (area_deleted project name found h) a =
    delete_area-AreasFit project name d (d', found) a h

-- Through any series of work items created and updated, moves to another project included, and of areas
-- created, renamed and deleted, a work item that has an area has a project, and the area is one of that
-- project.
pub Writes-AreasFit : (db : Postgres) (d d' : Desk) → Writes db d d' → AreasFit d → AreasFit d'
Writes-AreasFit db d _ untouched a = a
Writes-AreasFit db d d'' (then_write {d' = d'} ws w) a =
    Write-AreasFit db d' d'' w (Writes-AreasFit db d d' ws a)
Writes-AreasFit db d d'' (then_area {d' = d'} ws w) a =
    AreaWrite-AreasFit d' d'' w (Writes-AreasFit db d d' ws a)
