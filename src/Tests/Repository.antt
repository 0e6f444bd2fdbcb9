-- ===== src/Tests/Repository.antt =====
-- Examples of the theorems on the directory tree, the repository and the events of links.
use file_tree_views.Base.{
  ℕ, suc, ap, Str, ◌<◌, ◌≤◌, ◌≡◌, refl, Bool, true, false, none, some, List, [], ◌∷◌, str_eq, ◌==◌,
  ==→≡, length, arith, subst, if◌then◌else◌,
}
use file_tree_views.Base.Int.{pos}
use file_tree_views.Base.Dict.{Dict, lookup, keys}
use file_tree_views.Either.{all_pass}
use file_tree_views.Path.{JsPath, parent, NodePath, strip_separator, js_path}
use file_tree_views.Entry.{valid}
use file_tree_views.Event.{Event, modify_kind, delete_kind}
use file_tree_views.Changes.{create, delete}
use file_tree_views.SymlinkWatcher.{Links, has_link}
use file_tree_views.SymlinkWatcher.Events.{Disk, find, on_next}
use file_tree_views.SymlinkWatcher.Followed.{IsAnswer, find-IsAnswer, on_next-without_target}
use file_tree_views.DirectoryTree.Lookup
use file_tree_views.DirectoryTree.State.{Cache, Callback, Collected, is_pending}
use file_tree_views.DirectoryTree.Specific.{IsMostSpecific, find-IsMostSpecific}
use file_tree_views.DirectoryTree.Register
use file_tree_views.DirectoryTree.Again.{IsDone, register-IsDone}
use file_tree_views.FileTreeRepository
use file_tree_views.FileTreeRepository.{Repository}
use file_tree_views.FileTreeRepository.Silent.{close-silent}
use file_tree_views.Registry.{registered_directory}
use file_tree_views.DirectoryTree.Handle.{has_path, handle_delete}
use file_tree_views.DirectoryTree.Deleted.{handle_delete-root}
use file_tree_views.NodeApi
use file_tree_views.NodeApi.{NodePathView}
use file_tree_views.CachedDirectory.Finding
use file_tree_views.Tests.{posix, a_path, b_path, c_path}
use file_tree_views.Tests.Caching.{file_at, directory_at, on_disk, a_cached, b_cached}
use file_tree_views.Tests.Linking.{b_to_c, no_links}

abbrev two_callbacks : List (Callback ℕ)
two_callbacks =
    record { path = c_path; told = create (valid (file_at c_path) 1) }
    ∷ record { path = a_path; told = delete (valid (directory_at a_path) 2) }
    ∷ []

find-IsMostSpecific_example :
    IsMostSpecific posix c_path
      ((a_path, a_cached) ∷ (b_path, b_cached) ∷ [])
      (Lookup.find posix c_path ((a_path, a_cached) ∷ (b_path, b_cached) ∷ []))
find-IsMostSpecific_example =
    find-IsMostSpecific posix c_path ((a_path, a_cached) ∷ (b_path, b_cached) ∷ [])

abbrev empty_cache : Cache ℕ
empty_cache = record {
  is_closed = false;
  watched = [];
  directories = [];
  pending = [];
  links = no_links;
  asked = [];
}

register-IsDone_example :
    IsDone on_disk 3 a_path (pos 1) (Register.register on_disk 3 a_path (pos 1) empty_cache)
register-IsDone_example = register-IsDone on_disk 3 a_path (pos 1) empty_cache

abbrev repository : Repository ℕ
repository = record {
  is_closed = false;
  tree = record empty_cache { directories = (a_path, a_cached) ∷ [] };
  unregistered = [];
  watcher_closed = false;
}

abbrev b_changed : Event
b_changed = record { typed_path = file_at b_path; kind = modify_kind }

close-silent_example :
    (FileTreeRepository.list on_disk 3 b_to_c a_path
        (pos 1)
        all_pass
        (FileTreeRepository.close on_disk 3 b_to_c repository)
      ≡ [])
    × (FileTreeRepository.list_entries on_disk 3 b_to_c a_path
          (pos 1)
          all_pass
          (FileTreeRepository.close on_disk 3 b_to_c repository)
        ≡ [])
    × (FileTreeRepository.on_next on_disk 3 b_to_c true b_changed
          (FileTreeRepository.close on_disk 3 b_to_c repository)
        ≡ some ([], [], FileTreeRepository.close on_disk 3 b_to_c repository))
close-silent_example =
    close-silent on_disk 3 b_to_c repository a_path (pos 1) all_pass all_pass true b_changed refl
      refl

-- `/a/c` is the target of the link `/a/b`.
abbrev one_target : Dict JsPath (List JsPath)
one_target = (c_path, b_path ∷ []) ∷ []

-- A platform on which the directory of a text is the text without its last character.
abbrev without_last : Str → Str
without_last [] = []
without_last (c ∷ []) = []
without_last (c ∷ d ∷ s) = c ∷ without_last (d ∷ s)

abbrev by_character : NodePath
by_character = record posix { dirname = without_last; is_absolute = λ s. true }

length-strip_separator : (s : Str) → length (strip_separator s) ≤ length s
unfolding strip_separator
length-strip_separator [] = omega arith
length-strip_separator (c ∷ s) = ground (arith, length-strip_separator s)

length-if :
    (b : Bool) (r t s : Str)
    → (b ≡ true → s ≡ r)
    → length t ≤ length s
    → length (if b then r else t) ≤ length s
length-if true r t s h k = subst (λ o. length o ≤ length s) (h refl) (omega arith)
length-if false r t s h k = k

length-js_path : (s : Str) → length (js_path by_character s) ≤ length s
unfolding js_path
length-js_path s =
    length-if (s == by_character.parse_root s) (by_character.parse_root s) (strip_separator s) s
      (==→≡ s (by_character.parse_root s)) (length-strip_separator s)

length-without_last : (c : ℕ) (s : Str) → length (without_last (c ∷ s)) ≡ length s
length-without_last c [] = refl
length-without_last c (d ∷ s) = ap suc (length-without_last d s)

some_of : (b : Bool) (x q : Str) → (if b then none else some x) ≡ some q → x ≡ q
some_of true x q e = cc
some_of false x q e = cc

shorter :
    (p q : JsPath)
    → true ≡ true
    → parent by_character p ≡ some q
    → (length q < length p) × (true ≡ true)
unfolding parent str_eq
shorter [] q a e = cc
shorter (c ∷ s) q a e =
    let r = without_last (c ∷ s) in
    let f = some_of (by_character.parse_root (c ∷ s) == r) (js_path by_character r) q e in
    (below_length q c s r f (length-js_path r) (length-without_last c s), refl)
  where
    below_length :
        (q : Str) (c : ℕ) (s r : Str)
        → js_path by_character r ≡ q
        → length (js_path by_character r) ≤ length r
        → length r ≡ length s
        → length q < suc (length s)
    below_length q c s r f h k = ground (arith, ap (length {A = ℕ}) f)

find-IsAnswer_example :
    IsAnswer by_character one_target c_path (find by_character 5 c_path one_target)
find-IsAnswer_example = find-IsAnswer by_character one_target shorter 5 c_path refl (omega arith)

abbrev nothing_there : Disk
nothing_there = record { file_exists = λ p. false; typed_path_at = file_at }

abbrev linked : Links
linked = record { is_closed = false; targets = one_target }

abbrev c_gone : Event
c_gone = record { typed_path = file_at c_path; kind = delete_kind }

c_watched : lookup c_path one_target ≡ some (b_path ∷ [])
unfolding lookup str_eq
c_watched = refl

b_links : has_link b_path (b_path ∷ []) ≡ true
unfolding str_eq
b_links = refl

b_no_target : (b_path == c_path) ≡ false
unfolding str_eq
b_no_target = refl

on_next-without_target_example :
    (lookup c_path (on_next posix b_to_c nothing_there 9 c_gone linked).links.targets ≡ none)
    × ((on_next posix b_to_c nothing_there 9 c_gone linked).unregistered ≡ [])
on_next-without_target_example =
    on_next-without_target posix b_to_c nothing_there 9 c_gone linked b_path (b_path ∷ []) refl refl
      c_watched b_links b_no_target

abbrev only_files : NodePathView → Bool
only_files v = v.is_file

abbrev watching_a : Cache ℕ
watching_a = record repository.tree { watched = (a_path, registered_directory a_path (pos 1)) ∷ [] }

a_cached_key : has_path a_path (keys watching_a.directories) ≡ true
unfolding keys str_eq
a_cached_key = refl

a_watched_key : has_path a_path (keys watching_a.watched) ≡ true
unfolding keys str_eq
a_watched_key = refl

abbrev nothing_told : Collected ℕ
nothing_told = record { callbacks = []; symlinks = [] }

handle_delete-root_example :
    (lookup a_path (handle_delete on_disk a_path nothing_told watching_a).1.directories ≡ none)
    × (is_pending a_path (handle_delete on_disk a_path nothing_told watching_a).1.pending ≡ true)
handle_delete-root_example =
    handle_delete-root on_disk a_path nothing_told watching_a (refl, tt) a_cached_key a_watched_key
