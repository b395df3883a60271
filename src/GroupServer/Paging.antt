-- ===== src/GroupServer/Paging.antt =====
-- A client that fetches page after page, each after the last id it has seen.
use nymstr.Prelude.{
  ℕ, zero, suc, ◌+◌, ◌≤◌, ◌<◌, Bool, true, subst, List, [], ◌∷◌, ◌++◌, ◌≡◌, refl, sym, ap, ◌∙◌,
  keep, length, take, drop, take-append-drop, arith,
}
use nymstr.Prelude.Int.{pos}
use nymstr.Db.Tables.{ok_or}
use nymstr.GroupServer.Tables.{Tables, Message}
use nymstr.GroupServer.Tables.Queues.{get_messages_since, is_after}
use nymstr.GroupServer.Ordered.{Within, Within-keep, order_by-Within}

abbrev Rows : ℕ → ℕ → List Message → Type 0
Rows low high l = Within (λ m. m.id) low high l

abbrev pub after : ℕ → Message → Bool
after n m = is_after (pos n) m.id

last_of : Message → List Message → ℕ
last_of x [] = x.id
last_of x (y ∷ l) = last_of y l

abbrev pub page : ℕ → Tables → List Message
page n t = ok_or (get_messages_since (pos n) t).0 []

-- Fetch until a page is empty; the fuel bounds the number of fetches.
pub gather : ℕ → ℕ → Tables → List Message
unfolding last_of
gather zero n t = []
gather (suc fuel) n t = elim (page n t) [ [] ↦ [] | x ∷ l ↦ (x ∷ l) ++ gather fuel (last_of x l) t ]

keep-later : (n low high : ℕ) (l : List Message) → n < low → Rows low high l → keep (after n) l ≡ l
unfolding keep is_after
keep-later n low high [] h w = refl
keep-later n low high (x ∷ l) h w = ground (arith, keep-later n (x.id + 1) high l)

keep-earlier :
    (n : ℕ) (x : Message) (l : List Message) → x.id ≤ n → keep (after n) (x ∷ l) ≡ keep (after n) l
unfolding keep is_after
keep-earlier n x l h = ground arith

le-last_of :
    (k : ℕ) (x : Message) (high : ℕ) (l : List Message)
    → Rows (x.id + 1) high l
    → x.id ≤ last_of x (take k l)
unfolding last_of
le-last_of zero x high l w = omega arith
le-last_of (suc k) x high [] w = omega arith
le-last_of (suc k) x high (y ∷ l) w = omega (arith, le-last_of k y high l w.1)

-- After the last row of a page come the rows behind the page.
keep-last_of :
    (k : ℕ) (x : Message) (high : ℕ) (l : List Message)
    → Rows (x.id + 1) high l
    → keep (after (last_of x (take k l))) (x ∷ l) ≡ drop k l
unfolding last_of keep
keep-last_of zero x high l w =
    keep-earlier x.id x l (omega arith) ∙ keep-later x.id (x.id + 1) high l (omega arith) w
keep-last_of (suc k) x high [] w = keep-earlier x.id x [] (omega arith)
keep-last_of (suc k) x high (y ∷ l) w =
    keep-earlier (last_of y (take k l)) x (y ∷ l) (omega (arith, le-last_of k y high l w.1))
    ∙ keep-last_of k y high l w.1

keep-keep :
    (m n : ℕ) (l : List Message) → n ≤ m → keep (after m) (keep (after n) l) ≡ keep (after m) l
unfolding keep is_after
keep-keep m n [] h = refl
keep-keep m n (x ∷ l) h = ground (arith, keep-keep m n l)

page-Rows :
    (n : ℕ) (t : Tables)
    → Rows 0 t.next_message t.messages
    → page n t ≡ take 100 (keep (after n) t.messages)
unfolding get_messages_since
page-Rows n t w = ap (take 100) (
    order_by-Within (λ m. m.id) 0 t.next_message _
      (Within-keep (λ m. m.id) (after n) 0 t.next_message t.messages w))

keep-head :
    (p : Message → Bool) (x : Message) (rows l : List Message) → keep p l ≡ x ∷ rows → p x ≡ true
unfolding keep
keep-head p x rows [] e = absurd (cc)
keep-head p x rows (y ∷ l) e = ground (arith, keep-head p x rows l)

length-drop-le : (k : ℕ) (l : List Message) → length (drop k l) ≤ length l
length-drop-le zero l = omega arith
length-drop-le (suc k) [] = omega arith
length-drop-le (suc k) (x ∷ l) = omega (arith, length-drop-le k l)

lt-of-after : (n : ℕ) (x : Message) → after n x ≡ true → n < x.id
unfolding is_after
lt-of-after n x h = ground arith

module _ (t : Tables) (w : Rows 0 t.next_message t.messages) where
  -- One fetch, where the fetches after it gather what they should.
  gather_step :
      (fuel n : ℕ)
      → ((m : ℕ)
          → length (keep (after m) t.messages) < fuel
          → gather fuel m t ≡ keep (after m) t.messages)
      → (rows : List Message) → keep (after n) t.messages ≡ rows
      → length rows < suc fuel
      → gather (suc fuel) n t ≡ rows
  unfolding gather
  gather_step fuel n ih [] e h = rw (page-Rows n t w ∙ ap (take 100) e, gather) refl
  gather_step fuel n ih (x ∷ l) e h =
      let m = last_of x (take 99 l) in
      let high = t.next_message in
      let ordered : Rows 0 high (x ∷ l) =
        subst (Rows 0 high) e (Within-keep (λ m. m.id) (after n) 0 high t.messages w) in
      let first_after : n < x.id = lt-of-after n x (keep-head (after n) x l t.messages e) in
      let later : keep (after m) t.messages ≡ drop 99 l =
        sym (keep-keep m n t.messages (omega (arith, le-last_of 99 x high l ordered.1)))
        ∙ ap (keep (after m)) e
        ∙ keep-last_of 99 x high l ordered.1 in
      let rest : gather fuel m t ≡ drop 99 l =
        ih m (rw later (omega (arith, length-drop-le 99 l))) ∙ later in
      rw (page-Rows n t w ∙ ap (take 100) e, gather)
        (ap (λ r. x ∷ (take 99 l ++ r)) rest ∙ ap (λ r. x ∷ r) (take-append-drop 99 l))

  -- With the rows by ascending id, a client that fetches page after page, each after the last id it
  -- has seen, ends up with all messages after its first cursor, each once and in order; as many
  -- fetches as there are such messages, and one more, are enough.
  pub gather_lem :
      (fuel n : ℕ)
      → length (keep (after n) t.messages) < fuel
      → gather fuel n t ≡ keep (after n) t.messages
  gather_lem zero n h = absurd (omega arith)
  gather_lem (suc fuel) n h = gather_step fuel n (gather_lem fuel) _ refl h
