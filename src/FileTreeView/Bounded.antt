-- ===== src/FileTreeView/Bounded.antt =====
-- How much fuel a listing needs.
use file_tree_views.Base.{
  ℕ, zero, suc, ◌<◌, ◌≡◌, refl, ◌≢◌, Bool, true, false, List, [], ◌∷◌, Str, arith, if◌then◌else◌,
  ◌&&◌,
}
use file_tree_views.Base.Int.{ℤ, pos, negsuc, ◌<ℤ◌, ltb_ℤ, max_value, to_int32_fits, ◌+ℤ◌}
use file_tree_views.Either.{Either, left, right, IoException}
use file_tree_views.Path.{JsPath}
use file_tree_views.TypedPath.{TypedPath, typed_path}
use file_tree_views.FileTreeView.Steps.{
  State, Outcome, done, threw, exhausted, M, and_then, ◌>>=◌, pure, call, caught, cleared,
}
use file_tree_views.FileTreeView.Listing.{
  Lister, decrement, enters, child_path, link_target_kind, visit, offer, list_subdirectory,
  directories_loop, files_loop, enter_link, list_link, links_loop, list_one, fill_results,
}
use file_tree_views.FileTreeView.{list}

second_true : (a b : Bool) → (a && b) ≡ true → b ≡ true
second_true a b e = ground arith

-- It ends or throws, whatever the state.
Ends : {A : Type 0} → M A → Type 0
Ends m = (s : State) → m s ≢ exhausted

Ends-pure : {A : Type 0} (a : A) → Ends (pure a)
unfolding Ends
Ends-pure a s e = cc

Ends-call : {A : Type 0} (e : Either IoException A) → Ends (call e)
unfolding Ends
Ends-call (left x) s e = cc
Ends-call (right a) s e = cc

and_then-Ends :
    {A B : Type 0} (k : A → M B) (o : Outcome A)
    → o ≢ exhausted
    → ((a : A) → Ends (k a))
    → and_then o k ≢ exhausted
unfolding Ends
and_then-Ends k (done a s) h g = g a s
and_then-Ends k (threw x s) h g = λ e. cc
and_then-Ends k exhausted h g = absurd (h refl)

Ends-bind :
    {A B : Type 0} (m : M A) (k : A → M B) → Ends m → ((a : A) → Ends (k a)) → Ends (m >>= k)
unfolding Ends
Ends-bind m k h g s = and_then-Ends k (m s) (h s) g

Ends-if :
    {A : Type 0} (b : Bool) (m k : M A) → (b ≡ true → Ends m) → Ends k → Ends (if b then m else k)
Ends-if true m k h g = h refl
Ends-if false m k h g = g

Ends-visit : (p : JsPath) → Ends (visit p)
unfolding Ends visit
Ends-visit p s = ground arith

Ends-offer : (f : TypedPath → Bool) (t : TypedPath) → Ends (offer f t)
unfolding Ends offer
Ends-offer f t s = ground arith

guarded_ends :
    (ignore : Bool) (o : Outcome (Unit {0})) → o ≢ exhausted → cleared (caught ignore o) ≢ exhausted
guarded_ends true (done a s) h = λ e. cc
guarded_ends true (threw x s) h = λ e. cc
guarded_ends false (done a s) h = λ e. cc
guarded_ends false (threw x s) h = λ e. cc
guarded_ends ignore exhausted h = absurd (h refl)

module _ (L : Lister) (f : TypedPath → Bool) (fill : JsPath → ℤ → M (Unit {0})) (depth : ℤ)
    (h : ltb_ℤ (pos 0) depth ≡ true → (p : JsPath) → Ends (fill p (decrement depth))) where
  directories_end :
      (dir : JsPath) (parts : List Str) → Ends (directories_loop L f fill dir depth parts)
  unfolding directories_loop list_subdirectory
  directories_end dir [] = Ends-pure tt
  directories_end dir (part ∷ parts) =
      Ends-bind _ _
        (Ends-if _ _ _ (λ _. Ends-pure tt)
          (Ends-bind _ _ (Ends-offer f _) (λ _. Ends-if _ _ _ (λ deep. h deep _) (Ends-pure tt))))
        (λ _. directories_end dir parts)

  files_end : (dir : JsPath) (names : List Str) → Ends (files_loop L f fill dir names)
  unfolding files_loop
  files_end dir [] = Ends-pure tt
  files_end dir (name ∷ names) = Ends-bind _ _ (Ends-offer f _) (λ _. files_end dir names)

  fresh-Ends :
      (p : JsPath)
      → ltb_ℤ (pos 0) depth ≡ true
      → (fresh : Bool) → Ends (if fresh then fill p (decrement depth) else pure tt)
  fresh-Ends p e fresh =
      Ends-if fresh (fill p (decrement depth)) (pure tt) (λ _. h e p) (Ends-pure tt)

  enter-Ends :
      (p : JsPath) (t : TypedPath)
      → ltb_ℤ (pos 0) depth ≡ true
      → Ends (enter_link L f fill p depth t)
  unfolding enter_link
  enter-Ends p t e =
      Ends-bind (call (L.to_real_path t.path)) _ (Ends-call _)
        (λ real. Ends-bind (visit real) _ (Ends-visit real) (fresh-Ends p e))

  enters_end :
      (p : JsPath) (t : TypedPath)
      → Ends (if enters L depth t then enter_link L f fill p depth t else pure tt)
  enters_end p t =
      Ends-if (enters L depth t) (enter_link L f fill p depth t) (pure tt)
        (λ e. enter-Ends p t (second_true t.is_directory (ltb_ℤ (pos 0) depth) e)) (Ends-pure tt)

  link-Ends : (dir : JsPath) (name : Str) → Ends (list_link L f fill dir depth name)
  unfolding list_link
  link-Ends dir name =
      Ends-bind (call (link_target_kind L (child_path L dir name))) _ (Ends-call _) (λ kind.
        Ends-bind (offer f (typed_path L.node (child_path L dir name) kind)) _ (Ends-offer f _)
          (λ _.
            enters_end (child_path L dir name) (typed_path L.node (child_path L dir name) kind)))

  links_end : (dir : JsPath) (names : List Str) → Ends (links_loop L f fill dir depth names)
  unfolding links_loop
  links_end dir [] = Ends-pure tt
  links_end dir (name ∷ names) = Ends-bind _ _ (link-Ends dir name) (λ _. links_end dir names)

  list_one-Ends : (dir : JsPath) → Ends (list_one L f fill dir depth)
  unfolding list_one
  list_one-Ends dir = Ends-bind _ _ (Ends-call _) (λ results.
      Ends-bind _ _ (Ends-visit dir) (λ fresh.
        Ends-bind _ _ (directories_end dir results.directories)
          (λ _. Ends-bind _ _ (files_end dir results.files) (λ _. links_end dir results.symlinks))))

decrement_pos : (n : ℕ) → suc n < 2147483647 → decrement (pos (suc n)) ≡ pos n
unfolding decrement
decrement_pos n h = ground (arith, to_int32_fits (negsuc 0 +ℤ pos (suc n)))

fill_results-Ends :
    (L : Lister) (f : TypedPath → Bool) (n fuel : ℕ) (dir : JsPath)
    → n < 2147483647
    → n < fuel
    → Ends (fill_results L f fuel dir (pos n))
unfolding Ends fill_results
fill_results-Ends L f n zero dir small h = absurd (omega arith)
fill_results-Ends L f zero (suc fuel) dir small h = λ s.
    guarded_ends L.ignore_exceptions (list_one L f (fill_results L f fuel) dir (pos 0) s)
      (list_one-Ends L f (fill_results L f fuel) (pos 0) (λ e p. absurd (ground arith)) dir s)
fill_results-Ends L f (suc n) (suc fuel) dir small h = λ s.
    guarded_ends L.ignore_exceptions (list_one L f (fill_results L f fuel) dir (pos (suc n)) s) (
      list_one-Ends L f (fill_results L f fuel) (pos (suc n))
        (λ e p.
          rw (decrement_pos n small) (fill_results-Ends L f n fuel p (omega arith) (omega arith)))
        dir s)

-- With fuel above the depth, a listing to a depth below `Integer.MAX_VALUE` never runs out of fuel,
-- for any file system, links that form loops included: it ends or throws.
pub list_ends :
    (L : Lister) (f : TypedPath → Bool) (fuel : ℕ) (p : JsPath) (depth : ℤ)
    → depth <ℤ max_value
    → depth <ℤ pos fuel
    → list L fuel p depth f ≢ exhausted
unfolding list Ends
list_ends L f fuel p (pos n) small h = ground (
  arith,
  fill_results-Ends L f n fuel p (omega arith) (omega arith) (record { visited = []; result = [] }),
)
list_ends L f fuel p (negsuc n) small h = ground arith
