-- ===== src/Platform.antt =====
-- com/swoval/runtime/Platform.scala and the choice of a watcher in PathWatchers.scala, ApplePathWatcher.scala
-- and PlatformWatcher.scala, as they stand in files/js/npm/files.js (`Platform$`, `PathWatchers$`,
-- `ApplePathWatchers$`, `PlatformWatcher$`). Node's `os.platform()` is a parameter.
use file_tree_views.Base.{Bool, Str, [], ◌∷◌, str_eq, ◌==◌, take, if◌then◌else◌}

pub record Platform : Type 0 where
  pub is_mac : Bool
  pub is_win : Bool
  pub is_linux : Bool
  pub is_freebsd : Bool

abbrev darwin_name : Str
darwin_name = b'd' ∷ b'a' ∷ b'r' ∷ b'w' ∷ b'i' ∷ b'n' ∷ []

abbrev win32_name : Str
win32_name = b'w' ∷ b'i' ∷ b'n' ∷ b'3' ∷ b'2' ∷ []

abbrev linux_name : Str
linux_name = b'l' ∷ b'i' ∷ b'n' ∷ b'u' ∷ b'x' ∷ []

abbrev freebsd_name : Str
freebsd_name = b'f' ∷ b'r' ∷ b'e' ∷ b'e' ∷ b'b' ∷ b's' ∷ b'd' ∷ []

-- `Platform`, given the name of the platform and that name in lower case.
unfoldable pub platform : Str → Str → Platform
platform name lower = record {
  is_mac = name == darwin_name;
  is_win = name == win32_name;
  is_linux = name == linux_name;
  is_freebsd = take 7 lower == freebsd_name;
}

-- Which watcher is made: that of Apple's streams or that of `fs.watch`, by itself or with the watcher that
-- follows links over it and one more for the targets of the links.
pub data Chosen : Type 0 where
  apple_watcher : Chosen
  nio_watcher : Chosen
  following : Chosen → Chosen → Chosen

-- The watcher that `SymlinkFollowingPathWatcher` makes for the targets.
abbrev target_watcher : Platform → Chosen
target_watcher p = if p.is_mac then apple_watcher else nio_watcher

abbrev with_links : Bool → Platform → Chosen → Chosen
with_links follow p w = if follow then following w (target_watcher p) else w

-- `ApplePathWatchers.get(followLinks, registry, logger)`
unfoldable pub apple_get : Bool → Platform → Chosen
apple_get follow p = with_links follow p apple_watcher

-- `PlatformWatcher.make(followLinks, registry, logger)`
unfoldable pub platform_make : Bool → Platform → Chosen
platform_make follow p = with_links follow p nio_watcher

-- `PathWatchers.get(followLinks, registry, logger)`
unfoldable pub path_watchers_get : Bool → Platform → Chosen
unfolding apple_get platform_make
path_watchers_get follow p = if p.is_mac then apple_get follow p else platform_make follow p
