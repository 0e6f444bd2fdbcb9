-- ===== src/ApplePathWatcher/FileEvents.antt =====
-- `FileEvent`, the flags that the watcher uses, and the kind of the event that it makes.
use Prim.Native.Nat.{bit_or, bit_and}
use file_tree_views.Base.{ℕ, Bool, not, ◌&&◌, ◌||◌, Str, nat_eq, if◌then◌else◌}
use file_tree_views.Event.{Kind, create_kind, delete_kind, modify_kind}

-- `Flags.CreateFlags.NoDefer` and `FileEvents`
abbrev pub no_defer : ℕ
no_defer = 0x2

abbrev pub file_events : ℕ
file_events = 0x10

-- `new Flags.Create().setNoDefer().setFileEvents()`
unfoldable pub default_flags : ℕ
default_flags = bit_or (bit_or 0 no_defer) file_events

-- `Flags.Event`
abbrev pub item_created : ℕ
item_created = 0x100

abbrev pub item_removed : ℕ
item_removed = 0x200

abbrev pub item_inode_meta_mod : ℕ
item_inode_meta_mod = 0x400

abbrev pub item_modified : ℕ
item_modified = 0x1000

abbrev pub item_is_file : ℕ
item_is_file = 0x10000

pub record FileEvent : Type 0 where
  pub file_name : Str
  pub flags : ℕ

unfoldable pub has_flags : FileEvent → ℕ → Bool
has_flags e f = not (nat_eq (bit_and e.flags f) 0)

unfoldable pub is_modified : FileEvent → Bool
is_modified e = has_flags e (bit_or item_inode_meta_mod item_modified)

unfoldable pub is_new_file : FileEvent → Bool
unfolding is_modified
is_new_file e =
    ((has_flags e item_created && not (is_modified e)) && not (has_flags e item_removed))
    && not (has_flags e item_inode_meta_mod)

-- The kind of the event for a path that exists or not.
unfoldable pub kind_of : FileEvent → Bool → Kind
unfolding is_new_file
kind_of e exists =
    if has_flags e item_is_file
    then (if is_new_file e && exists
        then create_kind
        else if has_flags e item_removed || not exists
        then delete_kind
        else modify_kind)
    else if exists
    then modify_kind
    else delete_kind
