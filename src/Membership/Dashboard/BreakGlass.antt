-- ===== src/Membership/Dashboard/BreakGlass.antt =====
-- boards/services.py: what break-glass asks for.
use power_adapter_blogs.Shared.{ℕ, String, ◌≡◌, false, some, arith}
use power_adapter_blogs.Text.{is_ascii}
use power_adapter_blogs.Models.{User, BoardMembership}
use power_adapter_blogs.Platform.{Platform, World, Request}
use power_adapter_blogs.Exec.{ok, refuse_if, get_or_raise, ◌>>=◌}
use power_adapter_blogs.Membership.Requests.{Locked, locked_row}
use power_adapter_blogs.Membership.Dashboard.{atomic_world, fetch, required_reason}
use power_adapter_blogs.Membership.Dashboard.Changes.{
  require_membership_break_glass_context, check_privileged_session, break_glass_confirmation,
  break_glass_body, break_glass_deactivate_last_manager,
}

module _ (p : Platform) (request : Request) (capability : p.Token) (actor : User) where
  context-db :
      (w : World p)
      → (require_membership_break_glass_context p request capability actor w).1.db ≡ w.db
  unfolding require_membership_break_glass_context check_privileged_session refuse_if get_or_raise
      ◌>>=◌
  context-db w = ground arith

  -- Break-glass never succeeds on a membership whose confirmation text, which holds the
  -- board's slug and the user's name, is not ASCII.
  pub break_glass-needs_ascii :
      (id : ℕ) (reason confirmation : String) (w : World p) (locked : Locked)
      (row : BoardMembership)
      → locked_row w.db id ≡ some locked
      → is_ascii (break_glass_confirmation p request capability actor locked) ≡ false
      → ¬ (
          (break_glass_deactivate_last_manager p request capability actor id reason confirmation
            w).0
          ≡ ok row)
  unfolding break_glass_deactivate_last_manager break_glass_body atomic_world required_reason ◌>>=◌
      fetch refuse_if get_or_raise
  break_glass-needs_ascii id reason confirmation w locked row found not_ascii h =
      ground (arith, context-db w)
