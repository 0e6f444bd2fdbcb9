-- ===== src/FileTreeView/Visited.antt =====
-- The set of visited paths of `SimpleFileTreeView.Lister`, between two listings.
use file_tree_views.Base.{◌≡◌, refl, Bool, ℕ, zero, suc, [], ◌∷◌}
use file_tree_views.Base.Int.{ℤ}
use file_tree_views.Either.{right}
use file_tree_views.Path.{JsPath}
use file_tree_views.TypedPath.{TypedPath}
use file_tree_views.FileTreeView.Steps.{State, Outcome, done, threw, exhausted, cleared}
use file_tree_views.FileTreeView.Listing.{Lister, decrement, visit, enter_link, fill_results}

cleared-done : (o : Outcome (Unit {0})) (s : State) → cleared o ≡ done tt s → s.visited ≡ []
cleared-done (done a s1) s e = cc
cleared-done (threw x s1) s e = cc
cleared-done exhausted s e = cc

fill_results-visited :
    (L : Lister) (f : TypedPath → Bool) (fuel : ℕ) (p : JsPath) (depth : ℤ) (s s1 : State)
    → fill_results L f fuel p depth s ≡ done tt s1
    → s1.visited ≡ []
unfolding fill_results
fill_results-visited L f zero p depth s s1 e = cc
fill_results-visited L f (suc fuel) p depth s s1 e = cleared-done _ s1 e

-- After any directory was listed, a link is entered whatever was visited before: the directory it
-- leads to may be the one that is being listed, for the inner listing has emptied the set.
pub fill_results-enter_link :
    (L : Lister) (f : TypedPath → Bool) (fuel : ℕ) (sub file real : JsPath) (depth inner : ℤ)
    (t : TypedPath) (s s1 : State)
    → fill_results L f fuel sub inner s ≡ done tt s1
    → L.to_real_path t.path ≡ right real
    → enter_link L f (fill_results L f fuel) file depth t s1
      ≡ fill_results L f fuel file (decrement depth) (record s1 { visited = real ∷ [] })
unfolding enter_link visit
fill_results-enter_link L f fuel sub file real depth inner t s s1 e r =
    rw (r, fill_results-visited L f fuel sub inner s s1 e) refl
