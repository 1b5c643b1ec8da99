-- ===== src/Kids/Picks.antt =====
-- app/application/use_cases/kids/mystery_picks.py, with mystery_pick_repository.py: a proposed book is
-- accepted, and picks are listed. A pick that is created takes its hint from a masked text, which is
-- not modelled.
pub mod Reveal
use jinbocho_catalog_v.Base.{ℕ, String, Bool, Option, none, some, List, not, ◌==◌, ◌&&◌, is_some}
use jinbocho_catalog_v.Base.Table
use jinbocho_catalog_v.Domain.Errors.{lookup_error, permission_error}
use jinbocho_catalog_v.Exec.{Exec, pure, gets, modify, or_raise, raise_if, ◌>>=◌, ◌>>◌}
use jinbocho_catalog_v.Kids.State.{MysteryPick, accepted, Kids, is_parent}

abbrev pub pick_by_id : ℕ → List MysteryPick → Option MysteryPick
pick_by_id k rows = Table.get (λ (p : MysteryPick). p.id) k rows

-- What `save` makes of the row with the entity's key: it assigns the status alone.
abbrev pub assign_status : MysteryPick → MysteryPick → MysteryPick
assign_status old new = record old { id = new.id; status = new.status }

abbrev pub save_picks : MysteryPick → List MysteryPick → List MysteryPick
save_picks pick rows = Table.save (λ (p : MysteryPick). p.id) assign_status pick rows

unfoldable pub accept_mystery_pick :
    (pick_id library_id requester_user_id : ℕ) → Bool → Exec Kids MysteryPick
accept_mystery_pick pick_id library_id requester_user_id kids_mode = do
  raise_if (not kids_mode) permission_error
  found ← gets (λ s. pick_by_id pick_id s.picks)
  pick ← or_raise found lookup_error
  raise_if (not (pick.library_id == library_id)) permission_error
  raise_if (not (pick.child_user_id == requester_user_id)) permission_error
  let saved : MysteryPick = record pick { status = accepted }
  modify (λ s. record s { picks = save_picks saved s.picks })
  pure saved

unfoldable pub list_mystery_picks :
    (child library_id requester_user_id : ℕ) → String → Bool → Exec Kids (List MysteryPick)
list_mystery_picks child library_id requester_user_id role kids_mode = do
  raise_if (not kids_mode) permission_error
  raise_if (not (child == requester_user_id) && not (is_parent role)) permission_error
  gets (λ s.
      Table.select (λ (p : MysteryPick). p.child_user_id == child && p.library_id == library_id)
        s.picks)
