-- ===== src/NodeApi.antt =====
-- com/swoval/files/node/PublicApi.scala, as it stands in files/js/npm/files.js (the package
-- `com.swoval.files.node`): what a caller in JavaScript sees of the repository and of the watchers.
-- An argument that may be `undefined` is an `Option`. A callback gives a list of effects.
pub mod Filtered
pub mod JsEither
use file_tree_views.Base.{
  ℕ, Bool, true, false, Option, none, some, List, [], ◌∷◌, Str, map, if◌then◌else◌,
}
use file_tree_views.Base.Int.{ℤ, max_value}
use file_tree_views.Either.{Either, left, right, IoException}
use file_tree_views.Path.{JsPath, paths_get}
use file_tree_views.TypedPath.{TypedPath}
use file_tree_views.Entry.{Entry, typed, get_value}
use file_tree_views.Event.{
  Kind, create_kind, delete_kind, error_kind, modify_kind, overflow_kind, Event,
}
use file_tree_views.Changes.{Change, create, update, delete}
use file_tree_views.SymlinkWatcher.{Calls}
use file_tree_views.CachedDirectory.Tree.{Setting}
use file_tree_views.FileTreeRepository
use file_tree_views.FileTreeRepository.{Repository}
use file_tree_views.Platform.{Platform, Chosen, path_watchers_get}

-- `TypedPath`, by what its properties give.
pub record NodePathView : Type 0 where
  pub get_path : Str
  pub exists : Bool
  pub is_directory : Bool
  pub is_file : Bool
  pub is_symbolic_link : Bool

-- `new TypedPath(typedPath)`
unfoldable pub view_of : TypedPath → NodePathView
view_of t = record {
  get_path = t.path;
  exists = t.exists;
  is_directory = t.is_directory;
  is_file = t.is_file;
  is_symbolic_link = t.is_symbolic_link;
}

-- `FileTreeDataViews.Entry`; its value is the `JSEither` of the entry's.
pub record NodeEntry (T : Type 0) : Type 0 where
  pub typed_path : NodePathView
  pub value : Either IoException T

unfoldable pub entry_view : {T : Type 0} → Entry T → NodeEntry T
unfolding view_of
entry_view e = record { typed_path = view_of (typed e); value = get_value e }

-- `kind.toString`
unfoldable pub kind_name : Kind → Str
kind_name create_kind = b'C' ∷ b'r' ∷ b'e' ∷ b'a' ∷ b't' ∷ b'e' ∷ []
kind_name delete_kind = b'D' ∷ b'e' ∷ b'l' ∷ b'e' ∷ b't' ∷ b'e' ∷ []
kind_name error_kind = b'E' ∷ b'r' ∷ b'r' ∷ b'o' ∷ b'r' ∷ []
kind_name modify_kind = b'M' ∷ b'o' ∷ b'd' ∷ b'i' ∷ b'f' ∷ b'y' ∷ []
kind_name overflow_kind = b'O' ∷ b'v' ∷ b'e' ∷ b'r' ∷ b'f' ∷ b'l' ∷ b'o' ∷ b'w' ∷ []

-- `PathWatchers.Event`
pub record NodeEvent : Type 0 where
  pub event_path : NodePathView
  pub event_kind : Str

unfoldable pub event_view : Event → NodeEvent
unfolding view_of kind_name
event_view e = record { event_path = view_of e.typed_path; event_kind = kind_name e.kind }

-- `Observer`
pub record NodeObserver (A E : Type 0) : Type 0 where
  pub on_next : A → List E
  pub on_error : Option (IoException → List E)

abbrev if_given : {E : Type 0} → Option (IoException → List E) → IoException → List E
if_given none x = []
if_given (some f) x = f x

-- `observer.toSwoval(f)`: its `onNext`, and its `onError`.
unfoldable pub observe_next : {A B E : Type 0} → (B → A) → NodeObserver A E → B → List E
observe_next f o b = o.on_next (f b)

unfoldable pub observe_error : {A E : Type 0} → NodeObserver A E → IoException → List E
observe_error o x = if_given o.on_error x

-- `CacheObserver`
pub record NodeCacheObserver (T E : Type 0) : Type 0 where
  pub on_create : NodeEntry T → List E
  pub on_delete : NodeEntry T → List E
  pub on_update : NodeEntry T → NodeEntry T → List E
  pub on_cache_error : Option (IoException → List E)

-- `CacheObservers.get(onEvent, onError)`
unfoldable pub cache_observers_get :
    {T E : Type 0} → (NodeEntry T → List E) → Option (IoException → List E) → NodeCacheObserver T E
cache_observers_get on_event on_error = record {
  on_create = on_event;
  on_delete = on_event;
  on_update = λ old new. on_event new;
  on_cache_error = on_error;
}

-- `cacheObserver.toSwoval`, by the change that it is told of.
unfoldable pub observe_change : {T E : Type 0} → NodeCacheObserver T E → Change T → List E
unfolding entry_view
observe_change o (create e) = o.on_create (entry_view e)
observe_change o (update old new) = o.on_update (entry_view old) (entry_view new)
observe_change o (delete e) = o.on_delete (entry_view e)

abbrev or_true : Option Bool → Bool
or_true none = true
or_true (some b) = b

abbrev or_max : Option ℤ → ℤ
or_max none = max_value
or_max (some n) = n

-- The converter of `FileTreeRepositories.get`, where one is given.
unfoldable pub node_converter : {T : Type 0} → (NodePathView → T) → TypedPath → Either IoException T
unfolding view_of
node_converter f t = right (f (view_of t))

-- The filters of `list` and `listEntries`.
unfoldable pub view_filter : {A B : Type 0} → (B → A) → Option (A → Bool) → B → Bool
view_filter f none b = true
view_filter f (some accept) b = accept (f b)

module _ {T : Type 0} (c : Setting T) (fuel : ℕ) (calls : Calls) where
  open c use {node}

  abbrev path_at : Str → JsPath
  path_at p = paths_get node p []

  -- `list(path, maxDepth, filter)`
  unfoldable pub list :
      Str → Option ℤ → Option (NodePathView → Bool) → Repository T → List NodePathView
  unfolding view_of view_filter
  list p n accept r =
      map view_of
        (FileTreeRepository.list c fuel calls (path_at p) (or_max n) (view_filter view_of accept) r)

  -- `listEntries(path, maxDepth, filter)`
  unfoldable pub list_entries :
      Str → Option ℤ → Option (NodeEntry T → Bool) → Repository T → List (NodeEntry T)
  unfolding entry_view view_filter
  list_entries p n accept r = map entry_view (
      FileTreeRepository.list_entries c fuel calls (path_at p) (or_max n)
        (view_filter entry_view accept) r)

  -- `register(path, maxDepth)`
  unfoldable pub register :
      Str → Option ℤ → Repository T → Option (Either IoException Bool × Repository T)
  register p n r = FileTreeRepository.register c fuel calls (path_at p) (or_max n) r

  -- `unregister(path)`
  unfoldable pub unregister : Str → Repository T → Repository T
  unregister p r = FileTreeRepository.unregister c fuel calls (path_at p) r

  -- `close()`
  unfoldable pub close : Repository T → Repository T
  close r = FileTreeRepository.close c fuel calls r

-- `PathWatchers.get(followLinks)`
unfoldable pub node_path_watchers_get : Option Bool → Platform → Chosen
node_path_watchers_get follow p = path_watchers_get (or_true follow) p

-- The interval of `PathWatchers.polling(followLinks, intervalMS)`, in milliseconds.
unfoldable pub poll_interval : Option ℕ → ℕ
poll_interval none = 500
poll_interval (some n) = n
