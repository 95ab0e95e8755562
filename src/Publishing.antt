-- ===== src/Publishing.antt =====
-- The publication of a course draft: admin/progress-remap.ts, and what it does to the learners.
pub mod Remap
pub mod Pointers
mod Tests
use aivirteach_server.Common.{
  Bool, true, false, ◌||◌, String, Option, none, some, List, [], ◌∷◌, if◌then◌else◌, or_default,
  is_some, includes, find_first,
}
use aivirteach_server.Learning.Dict.{Object, lookup, assign}

-- `newOrder.at(-1)` of a list that is not empty
unfoldable pub last_of : String → List String → String
last_of x [] = x
last_of x (y ∷ ys) = last_of y ys

-- `oldOrder.forEach(...)`: a removed lesson is replaced by the next one that is retained.
unfoldable pub remap_lessons : List String → String → List String → Object String → Object String
remap_lessons retained fallback [] remap = remap
remap_lessons retained fallback (x ∷ xs) remap =
    let next = or_default (find_first (λ y. includes y retained) xs) fallback in
    remap_lessons retained fallback xs
      (if includes x retained || is_some (lookup x remap) then remap else assign x next remap)

unfoldable pub remap_removed_lessons : List String → List String → Object String
remap_removed_lessons old_order [] = []
remap_removed_lessons old_order (n ∷ ns) = remap_lessons (n ∷ ns) (last_of n ns) old_order []
