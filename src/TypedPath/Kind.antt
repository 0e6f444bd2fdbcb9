-- ===== src/TypedPath/Kind.antt =====
-- The kind bits of a typed path beside its four answers.
use file_tree_views.Base.{◌≡◌, refl, Bool, true, false, not}
use file_tree_views.Path.{NodePath, JsPath, to_absolute}
use file_tree_views.TypedPath.{TypedPath, typed_path, get_kind, typed_path_of, Attributes}
use file_tree_views.Either.{left, right, IoException}

kind_flags :
    (node : NodePath) (p : JsPath) (e d f l : Bool)
    → typed_path node p (
        get_kind
          (record { path = p; exists = e; is_directory = d; is_file = f; is_symbolic_link = l }))
      ≡ record {
        path = to_absolute node p;
        exists = e;
        is_directory = d;
        is_file = f;
        is_symbolic_link = l;
      }
unfolding typed_path get_kind
kind_flags node p true true true true = refl
kind_flags node p true true true false = refl
kind_flags node p true true false true = refl
kind_flags node p true true false false = refl
kind_flags node p true false true true = refl
kind_flags node p true false true false = refl
kind_flags node p true false false true = refl
kind_flags node p true false false false = refl
kind_flags node p false true true true = refl
kind_flags node p false true true false = refl
kind_flags node p false true false true = refl
kind_flags node p false true false false = refl
kind_flags node p false false true true = refl
kind_flags node p false false true false = refl
kind_flags node p false false false true = refl
kind_flags node p false false false false = refl

-- Reading the bits of a typed path gives the typed path back, at its absolute path.
pub typed_path-get_kind :
    (node : NodePath) (t : TypedPath)
    → typed_path node t.path (get_kind t) ≡ record t { path = to_absolute node t.path }
typed_path-get_kind node t =
    kind_flags node t.path t.exists t.is_directory t.is_file t.is_symbolic_link

-- A path that `lstat` answers for exists, and it is a directory or a file and not both; it is a
-- link exactly when `lstat` says so. One that it fails for is none of these.
pub typed_path_of-kinds :
    (node : NodePath) (p : JsPath) (a : Attributes) (x : IoException)
    → ((typed_path_of node p (right a)).exists ≡ true)
      × ((typed_path_of node p (right a)).is_file
          ≡ not (typed_path_of node p (right a)).is_directory)
      × ((typed_path_of node p (right a)).is_symbolic_link ≡ a.symbolic_link)
      × ((typed_path_of node p (left x)).exists ≡ false)
unfolding typed_path_of
typed_path_of-kinds node p a x = go a.symbolic_link a.directory a.target_directory
  where
    go :
        (l d t : Bool)
        → let a : Attributes = record { symbolic_link = l; directory = d; target_directory = t } in
          ((typed_path_of node p (right a)).exists ≡ true)
          × ((typed_path_of node p (right a)).is_file
              ≡ not (typed_path_of node p (right a)).is_directory)
          × ((typed_path_of node p (right a)).is_symbolic_link ≡ a.symbolic_link)
          × ((typed_path_of node p (left x)).exists ≡ false)
    go true d true = (refl, refl, refl, refl)
    go true d false = (refl, refl, refl, refl)
    go false true t = (refl, refl, refl, refl)
    go false false t = (refl, refl, refl, refl)
