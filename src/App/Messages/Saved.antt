-- ===== src/App/Messages/Saved.antt =====
-- What is read back of the messages that are saved.
use mathlib.Core.List.{Perm, perm_middle}
use mathlib.Core.List.Perm
use nymstr.Prelude.{
  take-append-drop, All, All-mono, ◌⊎◌, ℕ, ◌≤◌, String, false, not, List, [], ◌∷◌, ◌++◌, map, ◌≡◌,
  ◌≢◌, refl, sym, ap, subst, ◌∙◌, inl, inr, Bool-cases, keep, keep-append, append-nil, length, take,
  drop, contains, ◌==◌, ==_iff, arith, string_eq,
}
use nymstr.Db.Tables.{ok, ok_or, fails, rest}
use nymstr.App.Messages.{
  MessageStatus, pending, sent, delivered, failed, MessageDto, StoredMessage, MessageDb, execute,
  status_to_string, string_to_status, stored_row, message_of, save_message, order_timestamp,
  order_timestamp_desc, reverse, rows_of, get_messages, get_all_messages,
}
use nymstr.App.Messages.Ordered.{
  IsNoEarlier, Ordered, order_timestamp-Perm, order_timestamp_desc-Perm, order_timestamp-Ordered,
  order_timestamp_desc-Ordered, reverse-Ordered, Ordered-take, take-drop-Ordered, reverse-Perm,
  length-reverse, length-take, length-message_of, All-message_of, Ordered-message_of, All-reverse,
}

status-roundtrip : (s : MessageStatus) → string_to_status (status_to_string s) ≡ s
unfolding string_to_status status_to_string
status-roundtrip pending = refl
status-roundtrip sent = refl
status-roundtrip delivered = refl
status-roundtrip failed = refl

message_of-stored_row : (c : String) (m : MessageDto) → message_of (stored_row c m) ≡ m
message_of-stored_row c m = ap (λ s. record m { status = s }) (status-roundtrip m.status)

keep-new :
    (id : String) (l : List StoredMessage)
    → contains id (map (λ r. r.id) l) ≡ false
    → keep (λ r. not (r.id == id)) l ≡ l
unfolding keep contains
keep-new id [] h = refl
keep-new id (x ∷ l) h = elim (Bool-cases (x.id == id)) [
  | inl e ↦ absurd (ground arith)
  | inr e ↦ rw e (ap (λ t. x ∷ t) (keep-new id l (ground arith)))
]

reads_all :
    (conv_id : String) (db : MessageDb)
    → db.faults ≡ []
    → (get_all_messages conv_id db).0
      ≡ ok (map message_of (order_timestamp (rows_of conv_id db.messages)))
unfolding get_all_messages execute fails
reads_all conv_id db healthy = rw (ap fails healthy) refl

-- The first is no later than any that comes after it.
abbrev pub Chronological : MessageDto → MessageDto → Type 0
Chronological x y = IsNoEarlier x.timestamp y.timestamp

-- The messages that a reading with a limit gives are the newest of all, in chronological order:
-- with the others, none of which is later than a given one, they are all the messages, and they
-- are as many as the limit unless there are no others.
abbrev pub IsNewest : ℕ → List MessageDto → List MessageDto → Type 0
IsNewest limit given all =
    (others : List MessageDto) × Perm (given ++ others) all
    × All (λ x. All (λ y. Chronological y x) others) given
    × Ordered Chronological given
    × (length given ≤ limit)
    × ((length given ≡ limit) ⊎ (others ≡ []))

reads :
    (conv_id : String) (limit : ℕ) (db : MessageDb)
    → db.faults ≡ []
    → (get_messages conv_id limit db).0
      ≡ ok (
          map message_of
            (reverse (take limit (order_timestamp_desc (rows_of conv_id db.messages)))))
unfolding get_messages execute fails
reads conv_id limit db healthy = rw (ap fails healthy) refl

map-append :
    (xs ys : List StoredMessage)
    → map message_of (xs ++ ys) ≡ map message_of xs ++ map message_of ys
map-append [] ys = refl
map-append (x ∷ xs) ys = ap (λ t. message_of x ∷ t) (map-append xs ys)

newest :
    (limit : ℕ) (l : List StoredMessage)
    → IsNewest limit
        (map message_of (reverse (take limit (order_timestamp_desc l))))
        (map message_of (order_timestamp l))
newest limit l =
    let s = order_timestamp_desc l in
    let given = take limit s in
    let others = drop limit s in
    let down = order_timestamp_desc-Ordered l in
    let (few, all) = length-take limit s in
    let same : length (map message_of (reverse given)) ≡ length given =
      length-message_of (reverse given) ∙ length-reverse given in
    (
      map message_of others,
      subst (λ t. Perm t (map message_of (order_timestamp l))) (map-append (reverse given) others)
          (Perm.map message_of (
            Perm.trans (Perm.append (reverse-Perm given) Perm.rfl) (
              subst (λ t. Perm t (order_timestamp l)) (sym (take-append-drop limit s))
                (Perm.trans (order_timestamp_desc-Perm l) (Perm.symm (order_timestamp-Perm l)))))),
      All-message_of (λ x. All (λ y. Chronological y x) (map message_of others)) (reverse given)
          (All-reverse (λ x. All (λ y. Chronological y (message_of x)) (map message_of others))
            given
            (All-mono _ _ (λ x. All-message_of (λ y. Chronological y (message_of x)) others) given
              (take-drop-Ordered _ limit s down))),
      Ordered-message_of Chronological (reverse given)
          (reverse-Ordered given (Ordered-take _ limit s down)),
      omega (arith, same, few),
      elim all [ inl e ↦ inl (same ∙ e) | inr e ↦ inr (ap (map message_of) e) ],
    )

module _ (conv_id : String) (m : MessageDto) where
  rows_of-saved :
      (l : List StoredMessage)
      → rows_of conv_id (l ++ stored_row conv_id m ∷ [])
        ≡ rows_of conv_id l ++ stored_row conv_id m ∷ []
  unfolding keep
  rows_of-saved l =
      keep-append (λ r. r.conversation_id == conv_id) l (stored_row conv_id m ∷ [])
      ∙ ap (λ t. rows_of conv_id l ++ t) (ground (arith, ==_iff conv_id conv_id))

  rows_of-other :
      (other : String) (l : List StoredMessage)
      → other ≢ conv_id
      → rows_of other (l ++ stored_row conv_id m ∷ []) ≡ rows_of other l
  unfolding keep
  rows_of-other other l ne =
      let elsewhere : rows_of other (stored_row conv_id m ∷ []) ≡ [] =
        ground (arith, ==_iff conv_id other) in
      keep-append (λ r. r.conversation_id == other) l (stored_row conv_id m ∷ [])
      ∙ ap (λ t. rows_of other l ++ t) elsewhere
      ∙ append-nil (rows_of other l)

  read-Perm :
      (l : List StoredMessage)
      → Perm
          (map message_of (order_timestamp (l ++ stored_row conv_id m ∷ [])))
          (m ∷ map message_of (order_timestamp l))
  read-Perm l =
      subst
        (λ x.
          Perm (map message_of (order_timestamp (l ++ stored_row conv_id m ∷ [])))
            (x ∷ map message_of (order_timestamp l)))
        (message_of-stored_row conv_id m)
        (Perm.map message_of (
          Perm.trans (order_timestamp-Perm _) (
            Perm.trans (perm_middle l []) (
              subst
                (λ t. Perm (stored_row conv_id m ∷ t) (stored_row conv_id m ∷ order_timestamp l))
                (sym (append-nil l)) (Perm.cons _ (Perm.symm (order_timestamp-Perm l)))))))

  saves :
      (db : MessageDb)
      → db.faults ≡ []
      → contains m.id (map (λ r. r.id) db.messages) ≡ false
      → (save_message conv_id m db).1
        ≡ record db { messages = db.messages ++ stored_row conv_id m ∷ []; faults = [] }
  unfolding save_message execute fails rest
  saves db healthy new = simp healthy (
      ap (λ l. record db { messages = l ++ stored_row conv_id m ∷ []; faults = [] })
        (keep-new m.id db.messages new))

  -- With a database that works, a message with a new id is read back, as it was saved, beside the
  -- messages that its conversation had, all in chronological order; other conversations are as
  -- they were; and a reading with a limit gives the newest messages of the conversation, in
  -- chronological order: as many as the limit, or all of them.
  pub save_message-get_all :
      (db : MessageDb) (other : String) (limit : ℕ)
      → db.faults ≡ []
      → contains m.id (map (λ r. r.id) db.messages) ≡ false
      → other ≢ conv_id
      → let u = (save_message conv_id m db).1 in
        let all = ok_or (get_all_messages conv_id u).0 [] in
        Perm all (m ∷ ok_or (get_all_messages conv_id db).0 [])
        × ((get_all_messages other u).0 ≡ (get_all_messages other db).0)
        × Ordered Chronological all
        × ((given : List MessageDto) × ((get_messages conv_id limit u).0 ≡ ok given)
            × IsNewest limit given all)
  save_message-get_all db other limit healthy new ne =
      let u : MessageDb = record db {
        messages = db.messages ++ stored_row conv_id m ∷ [];
        faults = [];
      } in
      rw
        (
          saves db healthy new,
          reads_all conv_id u refl,
          reads_all conv_id db healthy,
          reads_all other u refl,
          reads_all other db healthy,
        )
        (
          rw (rows_of-saved db.messages) (read-Perm (rows_of conv_id db.messages)),
          rw (rows_of-other other db.messages ne) refl,
          Ordered-message_of Chronological (order_timestamp (rows_of conv_id u.messages))
              (order_timestamp-Ordered (rows_of conv_id u.messages)),
          (_, reads conv_id limit u refl, newest limit (rows_of conv_id u.messages)),
        )
