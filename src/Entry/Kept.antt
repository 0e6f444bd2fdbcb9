-- ===== src/Entry/Kept.antt =====
-- What `resolve` and `setExists` keep of an entry.
use file_tree_views.Base.{◌≡◌, refl, Bool, true, false}
use file_tree_views.Path.{NodePath, JsPath, resolve, to_absolute}
use file_tree_views.TypedPath.{typed_path}
use file_tree_views.Entry.{
  Entry, valid, invalid, typed, path_of, at, entry_kind, gone_kind, resolve_entry, set_gone,
}

resolved_kind :
    (node : NodePath) (p q : JsPath) (e d f l : Bool)
    → typed_path node p (
        entry_kind
          (record { path = q; exists = e; is_directory = d; is_file = f; is_symbolic_link = l }))
      ≡ record {
        path = to_absolute node p;
        exists = true;
        is_directory = d;
        is_file = f;
        is_symbolic_link = l;
      }
unfolding typed_path entry_kind
resolved_kind node p q e true true true = refl
resolved_kind node p q e true true false = refl
resolved_kind node p q e true false true = refl
resolved_kind node p q e true false false = refl
resolved_kind node p q e false true true = refl
resolved_kind node p q e false true false = refl
resolved_kind node p q e false false true = refl
resolved_kind node p q e false false false = refl

lost_kind :
    (node : NodePath) (p q : JsPath) (e d f l : Bool)
    → typed_path node p (
        gone_kind
          (record { path = q; exists = e; is_directory = d; is_file = f; is_symbolic_link = l }))
      ≡ record {
        path = to_absolute node p;
        exists = false;
        is_directory = d;
        is_file = f;
        is_symbolic_link = l;
      }
unfolding typed_path gone_kind
lost_kind node p q e true true true = refl
lost_kind node p q e true true false = refl
lost_kind node p q e true false true = refl
lost_kind node p q e true false false = refl
lost_kind node p q e false true true = refl
lost_kind node p q e false true false = refl
lost_kind node p q e false false true = refl
lost_kind node p q e false false false = refl

-- The same entry at another path, existing or not.
abbrev pub moved : {T : Type 0} → JsPath → Bool → Entry T → Entry T
moved p b e = at (record (typed e) { path = p; exists = b }) e

-- `resolve` puts an entry at the absolute path below the directory, keeps its value and its three
-- kinds, and makes it exist, also when it did not.
pub resolve_entry_lem :
    {T : Type 0} (node : NodePath) (p : JsPath) (e : Entry T)
    → resolve_entry node p e ≡ moved (to_absolute node (resolve node p (path_of e))) true e
unfolding resolve_entry
resolve_entry_lem node p (valid t v) = rw (
    resolved_kind node (resolve node p t.path) t.path t.exists t.is_directory t.is_file
      t.is_symbolic_link)
resolve_entry_lem node p (invalid t x) = rw (
    resolved_kind node (resolve node p t.path) t.path t.exists t.is_directory t.is_file
      t.is_symbolic_link)

-- `setExists(entry, false)` keeps the value, the path (made absolute) and the three kinds, and the
-- path no longer exists.
pub set_gone_lem :
    {T : Type 0} (node : NodePath) (e : Entry T)
    → set_gone node e ≡ moved (to_absolute node (path_of e)) false e
unfolding set_gone
set_gone_lem node (valid t v) =
    rw (lost_kind node t.path t.path t.exists t.is_directory t.is_file t.is_symbolic_link)
set_gone_lem node (invalid t x) =
    rw (lost_kind node t.path t.path t.exists t.is_directory t.is_file t.is_symbolic_link)
