-- ===== src/Server/Registry/Groups.antt =====
-- The groups table under every message.
use nymstr.Prelude.{
  String, true, false, List, [], ◌∷◌, ◌++◌, none, some, find, remove, ◌≡◌, ◌≢◌, sym, subst, ◌⊎◌,
  inl, inr, arith, Option-cases,
}
use nymstr.Json.{Value, get_str}
use nymstr.Transport.{ReplyTag, tag_eq}
use nymstr.Db.Tables.{Group, called, rest}
use nymstr.Db.Groups.{find_group, set_address, get_group_by_id, groups_moved}
use nymstr.Db.Groups.Laws.{
  GroupKeyOf, GroupKeyOf-append, GroupKeyOf-set_address, groups_with_cases, groups_moved_cases,
}
use nymstr.Server.State.{Env, World, Server, PendingEntry, PendingGroup}
use nymstr.Server.Registry.{store_group, new_group, handle_register_group_response}

-- The groups change not at all, by a new group, or by an address.
pub data GroupChange (gs gs' : List Group) : Type 0 where
  kept : gs' ≡ gs → GroupChange gs gs'
  added : (g : Group) → gs' ≡ gs ++ g ∷ [] → GroupChange gs gs'
  moved : (id to : String) → gs' ≡ set_address id to gs → GroupChange gs gs'

pub GroupChange-key :
    {gs gs' : List Group} (id key : String)
    → GroupChange gs gs'
    → GroupKeyOf gs id key
    → GroupKeyOf gs' id key
GroupChange-key id key (kept e) k = subst (λ gs. GroupKeyOf gs id key) (sym e) k
GroupChange-key {gs} id key (added g e) k =
    subst (λ gs. GroupKeyOf gs id key) (sym e) (GroupKeyOf-append gs g id key k)
GroupChange-key {gs} id key (moved at to e) k =
    subst (λ gs. GroupKeyOf gs id key) (sym e) (GroupKeyOf-set_address gs at to id key k)

module _ (env : Env) (w : World) where
  store_group-cases :
      (s : Server) (t : ReplyTag) (p : PendingGroup)
      → ((store_group env w s t p).db.groups ≡ s.db.groups)
        ⊎ ((store_group env w s t p).db.groups ≡ s.db.groups ++ new_group env w p ∷ [])
        ⊎ ((store_group env w s t p).db.groups ≡ set_address p.group_id p.nym_address s.db.groups)
  unfolding store_group
  store_group-cases s t p = ground (
    arith,
    groups_with_cases (called s.db) (new_group env w p),
    groups_moved_cases (called s.db) p.group_id p.nym_address,
  )

  response_idle :
      (s : Server) (v : Value) (t : ReplyTag)
      → (get_str "signature" v ≡ none) ⊎ (find t s.pending_groups ≡ none)
      → (handle_register_group_response env w s v t).db.groups ≡ s.db.groups
  unfolding handle_register_group_response
  response_idle s v t h = ground arith

  response_cases :
      (s : Server) (v : Value) (t : ReplyTag) (sig : String) (e : PendingEntry PendingGroup)
      → get_str "signature" v ≡ some sig
      → find t s.pending_groups ≡ some e
      → ((env.verify_signature e.item.public_key e.item.nonce sig ≡ false)
          × ((handle_register_group_response env w s v t).db.groups ≡ s.db.groups))
        ⊎ ((env.verify_signature e.item.public_key e.item.nonce sig ≡ true)
            × (handle_register_group_response env w s v t
                ≡ store_group env w
                    (record s { pending_groups = remove t s.pending_groups })
                    t
                    e.item))
  unfolding handle_register_group_response
  response_cases s v t sig e hs h = ground arith

  pub response-GroupChange :
      (s : Server) (v : Value) (t : ReplyTag)
      → GroupChange s.db.groups (handle_register_group_response env w s v t).db.groups
  response-GroupChange s v t = elim (Option-cases (get_str "signature" v)) [
    | inl e ↦ kept (response_idle s v t (inl e))
    | inr (sig, hs) ↦ elim (Option-cases (find t s.pending_groups)) [
      | inl e ↦ kept (response_idle s v t (inr e))
      | inr (e, h) ↦ elim (response_cases s v t sig e hs h) [
        | inl (_, same) ↦ kept same
        | inr (_, step) ↦
            elim (store_group-cases (record s { pending_groups = remove t s.pending_groups }) t
              e.item) [
                | inl same ↦ kept (rw step same)
                | inr (inl new) ↦ added (new_group env w e.item) (rw step new)
                | inr (inr set) ↦ moved e.item.group_id e.item.nym_address (rw step set)
              ]
      ]
    ]
  ]

  -- The flaw: whoever began to register a group before its owner did can still answer the
  -- challenge afterwards. With a healthy database the answer, signed by a key that is not the
  -- group's, gives the registered group the address of the other.
  pub register_group_response-hijack :
      (s : Server) (v : Value) (t : ReplyTag) (sig : String) (e : PendingEntry PendingGroup)
      (g : Group)
      → find t s.pending_groups ≡ some e
      → get_str "signature" v ≡ some sig
      → env.verify_signature e.item.public_key e.item.nonce sig ≡ true
      → find_group e.item.group_id s.db.groups ≡ some g
      → g.public_key ≢ e.item.public_key
      → s.db.faults ≡ []
      → (handle_register_group_response env w s v t).db.groups
        ≡ set_address e.item.group_id e.item.nym_address s.db.groups
  unfolding store_group get_group_by_id groups_moved rest
  register_group_response-hijack s v t sig e g h hs good found other healthy =
      elim (response_cases s v t sig e hs h) [
        | inl (bad, _) ↦ absurd (cc)
        | inr (_, step) ↦ rw step (ground arith)
      ]
