-- ===== src/GroupServer/Commits/Kept.antt =====
-- Which commits the cleaning keeps.
use nymstr.Prelude.{
  ℕ, zero, suc, ◌+◌, ◌-◌, ◌≤◌, ◌<◌, String, Bool, true, false, not, List, [], ◌∷◌, ◌≡◌, ◌≢◌, refl,
  ap, ◌∙◌, keep, length, drop, map, contains, ==_iff, ==_self, nat_eq, string_eq, All, All-mono,
  arith,
}
use nymstr.GroupServer.Tables.{Tables, Commit}
use nymstr.GroupServer.Tables.Queues.{commits_of, newest, is_surplus, cleanup_old_commits}
use nymstr.GroupServer.Ordered.{Within, Within-keep, order_by-Within}

abbrev Rows : ℕ → ℕ → List Commit → Type 0
Rows low high l = Within (λ c. c.id) low high l

abbrev ids : List Commit → List ℕ
ids l = map (λ c. c.id) l

-- An id below all rows is none of them.
contains-later :
    (n low high : ℕ) (l : List Commit) (k : ℕ)
    → n < low
    → Rows low high l
    → contains n (ids (drop k l)) ≡ false
unfolding contains
contains-later n low high [] zero h w = refl
contains-later n low high [] (suc k) h w = refl
contains-later n low high (c ∷ l) zero h w = ground (arith, contains-later n (c.id + 1) high l zero)
contains-later n low high (c ∷ l) (suc k) h w =
    contains-later n (c.id + 1) high l k (omega arith) w.1

contains-own : (l : List Commit) → All (λ c. contains c.id (ids l) ≡ true) l
unfolding contains
contains-own [] = tt
contains-own (c ∷ l) =
    (rw (==_self c.id) refl, All-mono _ _ (λ d e. ground arith) l (contains-own l))

keep-all : (p : Commit → Bool) (l : List Commit) → All (λ c. p c ≡ true) l → keep p l ≡ l
unfolding keep
keep-all p [] h = refl
keep-all p (c ∷ l) h = ground (arith, keep-all p l)

-- Of rows by ascending id, those with the last ids are the last ones.
keep-newest :
    (low high k : ℕ) (l : List Commit)
    → Rows low high l
    → keep (λ c. contains c.id (ids (drop k l))) l ≡ drop k l
unfolding keep
keep-newest low high zero l w = keep-all _ l (contains-own l)
keep-newest low high (suc k) [] w = refl
keep-newest low high (suc k) (c ∷ l) w =
    rw (contains-later c.id (c.id + 1) high l k (omega arith) w.1)
      (keep-newest (c.id + 1) high k l w.1)

-- Filters for a group, of what is not surplus.
commits-surplus :
    (group_id : String) (old : List ℕ) (l : List Commit)
    → commits_of group_id (keep (λ c. not (is_surplus group_id old c)) l)
      ≡ keep (λ c. contains c.id old) (commits_of group_id l)
unfolding commits_of keep is_surplus
commits-surplus group_id old [] = refl
commits-surplus group_id old (c ∷ l) = ground (arith, commits-surplus group_id old l)

commits-other :
    (group_id other : String) (old : List ℕ) (l : List Commit)
    → other ≢ group_id
    → commits_of other (keep (λ c. not (is_surplus group_id old c)) l) ≡ commits_of other l
unfolding commits_of keep is_surplus
commits-other group_id other old [] ne = refl
commits-other group_id other old (c ∷ l) ne = ground (
  arith,
  ==_iff c.group_id group_id,
  ==_iff c.group_id other,
  commits-other group_id other old l ne,
)

length-drop : (k : ℕ) (l : List Commit) → length (drop k l) ≡ length l - k
length-drop zero l = omega arith
length-drop (suc k) [] = omega arith
length-drop (suc k) (c ∷ l) = omega (arith, length-drop k l)

module _ (group_id : String) (count : ℕ) (t : Tables)
    (w : Within (λ c. c.id) 0 t.next_commit t.buffered_commits) where
  abbrev mine : List Commit
  mine = commits_of group_id t.buffered_commits

  mine-Within : Rows 0 t.next_commit mine
  unfolding commits_of
  mine-Within = Within-keep (λ c. c.id) _ 0 t.next_commit t.buffered_commits w

  newest-mine : newest group_id count t.buffered_commits ≡ ids (drop (length mine - count) mine)
  unfolding newest
  newest-mine =
      ap (λ m. ids (drop (length m - count) m))
        (order_by-Within (λ c. c.id) 0 t.next_commit mine mine-Within)

  kept-mine :
      commits_of group_id (cleanup_old_commits group_id count t).1.buffered_commits
      ≡ drop (length mine - count) mine
  unfolding cleanup_old_commits
  kept-mine =
      commits-surplus group_id (newest group_id count t.buffered_commits) t.buffered_commits
      ∙ ap (λ old. keep (λ c. contains c.id old) mine) newest-mine
      ∙ keep-newest 0 t.next_commit (length mine - count) mine mine-Within

  -- Where rows stand by ascending id, the cleaning keeps the last commits of the group, `count` at
  -- most, in their order, and all commits of other groups.
  pub cleanup_old_commits_lem :
      (other : String)
      → other ≢ group_id
      → let u = (cleanup_old_commits group_id count t).1 in
        (commits_of group_id u.buffered_commits ≡ drop (length mine - count) mine)
        × (length (commits_of group_id u.buffered_commits) ≤ count)
        × (commits_of other u.buffered_commits ≡ commits_of other t.buffered_commits)
  unfolding cleanup_old_commits
  cleanup_old_commits_lem other ne = (
    kept-mine,
    omega (arith, ap length kept-mine, length-drop (length mine - count) mine),
    commits-other group_id other (newest group_id count t.buffered_commits) t.buffered_commits ne,
  )
