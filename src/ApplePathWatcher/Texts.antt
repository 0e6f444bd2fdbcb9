-- ===== src/ApplePathWatcher/Texts.antt =====
-- `FileEvent.toString`: every flag of `Flags.Event` by its name.
use Prim.Native.Nat.{bit_and}
use file_tree_views.Base.{ℕ, Bool, true, false, not, List, [], ◌∷◌, ◌++◌, Str, nat_eq}
use file_tree_views.Base.Text.{codes}
use file_tree_views.ApplePathWatcher.FileEvents.{FileEvent}

-- `Flags.Event`, in the order of the text.
unfoldable pub event_flags : List (Str × ℕ)
event_flags =
    (codes "mustScanSubDirs", 1)
    ∷ (codes "userDropped", 2)
    ∷ (codes "kernelDropped", 4)
    ∷ (codes "eventIdsWrapped", 8)
    ∷ (codes "historyDone", 16)
    ∷ (codes "rootChanged", 32)
    ∷ (codes "mount", 64)
    ∷ (codes "unmount", 128)
    ∷ (codes "itemChangeOwner", 16384)
    ∷ (codes "itemCreated", 256)
    ∷ (codes "itemFinderInfoMod", 8192)
    ∷ (codes "itemInodeMetaMod", 1024)
    ∷ (codes "itemIsDir", 131072)
    ∷ (codes "itemIsFile", 65536)
    ∷ (codes "itemIsHardlink", 1048576)
    ∷ (codes "itemIsLastHardlink", 2097152)
    ∷ (codes "itemIsSymlink", 262144)
    ∷ (codes "itemModified", 4096)
    ∷ (codes "itemRemoved", 512)
    ∷ (codes "itemRenamed", 2048)
    ∷ (codes "itemXattrMod", 32768)
    ∷ (codes "ownEvent", 524288)
    ∷ (codes "itemCloned", 4194304)
    ∷ []

abbrev bool_text : Bool → Str
bool_text true = codes "true"
bool_text false = codes "false"

-- A line of the text.
unfoldable pub flag_line : ℕ → Str × ℕ → Str
flag_line flags (name, mask) =
    10 ∷ 32 ∷ 32 ∷ name ++ codes ": " ++ bool_text (not (nat_eq (bit_and flags mask) 0))

unfoldable pub flag_lines : ℕ → List (Str × ℕ) → Str
unfolding flag_line
flag_lines flags [] = []
flag_lines flags (f ∷ fs) = flag_line flags f ++ flag_lines flags fs

-- `toString`
unfoldable pub event_text : FileEvent → Str
unfolding flag_lines event_flags
event_text e =
    codes "FileEvent("
    ++ e.file_name
    ++ codes ", "
    ++ codes "EventStreamFlags("
    ++ (10 ∷ flag_lines e.flags event_flags)
    ++ (10 ∷ codes ")")
    ++ codes ")"
