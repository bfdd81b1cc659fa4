-- ===== src/Store/Workspaces.antt =====
-- `WorkspaceStore` of internal/state/state.go: the working directory and named directories.
use lark_coding_agent_bridge.Prelude.{
  String, ◌≡◌, refl, Bool, true, false, not, Option, none, some, [], arith, ◌==◌, eq_iff,
  if◌then◌else◌, Dict, lookup, insert, delete, has_key, lookup-insert, lookup-delete,
}

pub record WorkspaceStore : Type 0 where
  pub current : String
  pub named : Dict String
  pub dirty : Bool
  pub file : String × Dict String

unfoldable pub load_workspaces : Option (String × Dict String) → WorkspaceStore
load_workspaces none = record { current = ""; named = []; dirty = false; file = ("", []) }
load_workspaces (some (c, m)) = record { current = c; named = m; dirty = false; file = (c, m) }

unfoldable pub set_current : String → WorkspaceStore → WorkspaceStore
set_current dir w = record w { current = dir; dirty = true }

unfoldable pub save : String → String → WorkspaceStore → WorkspaceStore
save name dir w = record w { named = insert name dir w.named; dirty = true }

unfoldable pub remove : String → WorkspaceStore → WorkspaceStore × Bool
remove name w =
    if not (has_key name w.named)
    then (w, false)
    else (record w { named = delete name w.named; dirty = true }, true)

unfoldable pub lookup_workspace : String → WorkspaceStore → Option String
lookup_workspace name w = lookup name w.named

unfoldable pub flush_workspaces : Bool → WorkspaceStore → WorkspaceStore × Bool
flush_workspaces written w =
    if not w.dirty
    then (w, true)
    else if written
    then (record w { dirty = false; file = (w.current, w.named) }, true)
    else (w, false)

-- Removing a name answers whether it was there, and afterwards exactly that name is gone; saving one
-- makes it found with its directory and no other name change. Neither moves the working directory.
pub save-remove :
    (name other dir : String) (w : WorkspaceStore)
    → ((remove name w).1 ≡ has_key name w.named)
      × (lookup_workspace other (remove name w).0
          ≡ (if name == other then none else lookup_workspace other w))
      × (lookup_workspace other (save name dir w)
          ≡ (if name == other then some dir else lookup_workspace other w))
      × ((remove name w).0.current ≡ w.current)
      × ((save name dir w).current ≡ w.current)
unfolding remove save lookup_workspace has_key
save-remove name other dir w = (
  ground arith,
  ground (arith, eq_iff name other, lookup-delete name other w.named),
  ground (arith, lookup-insert name other dir w.named),
  ground arith,
  refl,
)
