-- ===== src/ApplePathWatcher/Kinds.antt =====
-- The kind of an event by what its flags and the disk say.
use file_tree_views.Base.{◌≡◌, Bool, not, ◌&&◌, ◌||◌, if◌then◌else◌, arith}
use file_tree_views.Event.{create_kind, delete_kind, modify_kind}
use file_tree_views.ApplePathWatcher.FileEvents.{
  FileEvent, has_flags, is_new_file, kind_of, item_removed, item_is_file,
}

-- An event is a deletion exactly when its path is gone or it is about a file that the flags call removed.
-- Otherwise it is a creation when the flags call a file created and neither modified nor of changed
-- metadata, and else a modification.
pub kind_of_lem :
    (e : FileEvent) (exists : Bool)
    → kind_of e exists ≡ (
        if not exists || (has_flags e item_is_file && has_flags e item_removed)
        then delete_kind
        else if has_flags e item_is_file && is_new_file e
        then create_kind
        else modify_kind)
unfolding kind_of is_new_file
kind_of_lem e exists = ground arith
